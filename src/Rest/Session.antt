-- ===== src/Rest/Session.antt =====
-- The state of a `MarcRestClient`, and `performAction` and `performGet`. curl is the parameter `Http`;
-- the options that every request sets to the same value are left out.
use marc_fs.Base.{
  ℕ, ◌||◌, Option, none, some, List, [], ◌∷◌, ◌++◌, ◌==◌, if◌then◌else◌, is_nil, mail, Result, ok,
  fail, M, Bytes, Text, codes,
}
use marc_fs.Rest.Endpoints.{cloud_domain}

-- What the options say that differ from request to request.
pub record Request : Type 0 where
  pub url : Text
  pub headers : List Text
  pub post_fields : Option Text
  pub form : List (Text × Text)
  pub upload : Option Bytes
  pub proxy : Option Text
  pub send_rate : Option ℕ
  pub receive_rate : Option ℕ

-- `perform` throws, or there is a response code. Bytes may have come in either case.
pub data Reply : Type 0 where
  broken : Bytes → Reply
  answered : ℕ → Bytes → Reply

-- `curl_easy` with its cookies, and the server behind it.
pub record Http : Type 1 where
  pub World : Type 0
  pub perform : Request → World → Reply × World
  pub cookies : World → List Text
  pub escape : Text → Text

-- The fields of `MarcRestClient` beside curl's.
pub record RestClient : Type 0 where
  pub proxy_url : Text
  pub max_upload_rate : ℕ
  pub max_download_rate : ℕ
  pub login : Text
  pub password : Text
  pub act_token : Text
  pub csrf_token : Text

-- A request for a URL, all other options as after a reset.
abbrev pub request : Text → Request
request url = record {
  url = url;
  headers = [];
  post_fields = none;
  form = [];
  upload = none;
  proxy = none;
  send_rate = none;
  receive_rate = none;
}

-- `MarcRestClient(MarcRestClient &)`. The handle of curl and its cookies are copied too.
abbrev pub copied : RestClient → RestClient
copied c = record {
  proxy_url = c.proxy_url;
  max_upload_rate = c.max_upload_rate;
  max_download_rate = c.max_download_rate;
  login = c.login;
  password = c.password;
  act_token = c.act_token;
  csrf_token = c.csrf_token;
}

unfoldable pub set_proxy : Text → RestClient → RestClient
set_proxy url c = record c { proxy_url = url }

unfoldable pub set_max_download_rate : ℕ → RestClient → RestClient
set_max_download_rate rate c = record c { max_download_rate = rate }

unfoldable pub set_max_upload_rate : ℕ → RestClient → RestClient
set_max_upload_rate rate c = record c { max_upload_rate = rate }

-- `{}` is no option.
abbrev pub unless_empty : Text → Option Text
unless_empty t = if is_nil t then none else some t

abbrev pub unless_zero : ℕ → Option ℕ
unless_zero n = if n == 0 then none else some n

pub action_headers : RestClient → List Text
action_headers c =
    codes "Accept: */*"
    ∷ (codes "Origin: " ++ cloud_domain)
    ∷ (codes "Referer: " ++ cloud_domain)
    ∷ (if is_nil c.csrf_token then [] else (codes "X-CSRF-Token: " ++ c.csrf_token) ∷ [])

unfoldable pub action_result : Reply → Result Text
action_result (broken got) = fail (mail 0)
action_result (answered code body) =
    if code == 302 || code == 200 || code == 201 then ok body else fail (mail code)

unfoldable pub get_result : Reply → Bytes × Result (Unit {0})
get_result (broken got) = (got, fail (mail 0))
get_result (answered code body) =
    (body, if code == 302 || code == 200 then ok tt else fail (mail code))

-- What `performAction` adds to a request. `forced` are the headers that replace the default ones.
abbrev pub action_request : Option (List Text) → Request → RestClient → Request
action_request forced req c = record req {
  headers = elim forced [ none ↦ action_headers c | some hs ↦ hs ];
  proxy = unless_empty c.proxy_url;
  send_rate = unless_zero c.max_upload_rate;
}

-- What `performGet` adds to a request.
abbrev pub get_request : Request → RestClient → Request
get_request req c = record req {
  headers = codes "Accept: */*" ∷ (codes "Origin: " ++ cloud_domain) ∷ [];
  proxy = unless_empty c.proxy_url;
  receive_rate = unless_zero c.max_download_rate;
}

module _ (H : Http) where
  abbrev pub Session : Type 0
  Session = RestClient × H.World

  unfoldable pub perform_action : Option (List Text) → Request → M Session Text
  perform_action forced req (c, w) =
      let (reply, w') = H.perform (action_request forced req c) w in (action_result reply, (c, w'))

  -- The bytes are those that were appended to the target.
  unfoldable pub perform_get : Request → Session → Bytes × (Result (Unit {0}) × Session)
  perform_get req (c, w) =
      let (reply, w') = H.perform (get_request req c) w in
      let (bytes, r) = get_result reply in (bytes, (r, (c, w')))
