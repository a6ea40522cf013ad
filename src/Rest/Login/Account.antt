-- ===== src/Rest/Login/Account.antt =====
-- What a login leaves as it was.
use marc_fs.Base.{
  ℕ, ◌≡◌, refl, ◌∙◌, Bool, true, false, Option, none, some, List, [], leb, if◌then◌else◌, length,
  Result, ok, fail, M, bind_result, ◌>>=◌, ◌>>◌, throw, pure, Exc, mail, is_nil, ◌||◌, Text,
}
use marc_fs.Rest.Session.{Http, Session, RestClient, Request, perform_action}
use marc_fs.Rest.Login

-- A client without its two tokens.
abbrev pub settings : RestClient → RestClient
settings c = record c { act_token = []; csrf_token = [] }

module _ (H : Http) where
  Keeps : {A : Type 0} → M (Session H) A → Type 0
  Keeps m = (s : Session H) → settings (m s).1.0 ≡ settings s.0

  bind_result-Keeps :
      {A B : Type 0} (x : Result A × Session H) (k : A → M (Session H) B)
      → ((a : A) → Keeps (k a))
      → settings (bind_result k x).1.0 ≡ settings x.1.0
  unfolding Keeps
  bind_result-Keeps (ok a, s) k h = h a s
  bind_result-Keeps (fail e, s) k h = refl

  bind-Keeps :
      {A B : Type 0} (m : M (Session H) A) (k : A → M (Session H) B)
      → Keeps m
      → ((a : A) → Keeps (k a))
      → Keeps (m >>= k)
  unfolding Keeps
  bind-Keeps m k g h s = bind_result-Keeps (m s) k h ∙ g s

  if-Keeps :
      {A : Type 0} (b : Bool) (m k : M (Session H) A)
      → Keeps m
      → Keeps k
      → (s : Session H) → settings (if b then m s else k s).1.0 ≡ settings s.0
  unfolding Keeps
  if-Keeps true m k g h s = g s
  if-Keeps false m k g h s = h s

  throw-Keeps : (e : Exc) → Keeps {A = Unit {0}} (throw e)
  unfolding Keeps
  throw-Keeps e s = refl

  when_more-Keeps :
      (before : ℕ) (k : M (Session H) (Unit {0})) → Keeps k → Keeps (Login.when_more H before k)
  unfolding Keeps
  when_more-Keeps before k h s =
      if-Keeps (leb (length (H.cookies s.1)) before) (throw (mail 0)) k (throw-Keeps (mail 0)) h s

  perform_action-Keeps :
      (forced : Option (List Text)) (r : Request) → Keeps (perform_action H forced r)
  unfolding Keeps perform_action
  perform_action-Keeps forced r s = refl

  take_act-Keeps : (cookie : Option Text) → Keeps (Login.take_act H cookie)
  unfolding Keeps Login.take_act
  take_act-Keeps none s = refl
  take_act-Keeps (some cookie) s = refl

  take_csrf-Keeps : (token : Option Text) → Keeps (Login.take_csrf H token)
  unfolding Keeps Login.take_csrf
  take_csrf-Keeps none s = refl
  take_csrf-Keeps (some token) s = refl

  -- A request, and then a look at the cookies.
  asked-Keeps :
      (forced : Option (List Text)) (r : Request) (before : ℕ) (k : Text → M (Session H) (Unit {0}))
      → ((t : Text) → Keeps (k t))
      → Keeps (perform_action H forced r >>= λ t. Login.when_more H before (k t))
  asked-Keeps forced r before k h =
      bind-Keeps (perform_action H forced r) (λ t. Login.when_more H before (k t))
        (perform_action-Keeps forced r) (λ t. when_more-Keeps before (k t) (h t))

  open_main_page-Keeps : Keeps (Login.open_main_page H)
  unfolding Keeps Login.open_main_page
  open_main_page-Keeps s =
      asked-Keeps none _ (length (H.cookies s.1))
        (λ _ t. Login.take_act H (Login.act_cookie (H.cookies t.1)) t)
        (λ _ t. take_act-Keeps (Login.act_cookie (H.cookies t.1)) t) s

  open_cloud_page-Keeps : Keeps (Login.open_cloud_page H)
  unfolding Keeps Login.open_cloud_page
  open_cloud_page-Keeps s =
      asked-Keeps none _ (length (H.cookies s.1)) (λ html. Login.take_csrf H (Login.csrf_of html))
        (λ html. take_csrf-Keeps (Login.csrf_of html)) s

  authenticate-Keeps : Keeps (Login.authenticate H)
  unfolding Keeps Login.authenticate
  authenticate-Keeps s =
      asked-Keeps (some _) _ (length (H.cookies s.1)) (λ _. pure tt) (λ _ t. refl) s

  -- Where the credentials are not empty.
  passed :
      (b : Bool) (s : Session H) (x : Result (Unit {0}) × Session H) {c : RestClient}
      → (if b then (fail (mail 0), s) else x).0 ≡ ok tt
      → settings x.1.0 ≡ c
      → settings (if b then (fail (mail 0), s) else x).1.0 ≡ c
  passed true s x e h = cc
  passed false s x e h = h

  -- A login that succeeds changes no setting of the client but the account, which is the one that it
  -- was given.
  pub log_in-settings :
      (user word : Text) (s : Session H)
      → (Login.log_in H user word s).0 ≡ ok tt
      → settings (Login.log_in H user word s).1.0
        ≡ settings (record s.0 { login = user; password = word })
  unfolding Login.log_in Keeps
  log_in-settings user word (c, w) e =
      passed (is_nil user || is_nil word) (c, w) _ e
        (bind-Keeps (Login.open_main_page H) (λ _. Login.authenticate H >> Login.open_cloud_page H)
          open_main_page-Keeps
          (λ _.
            bind-Keeps (Login.authenticate H) (λ _. Login.open_cloud_page H) authenticate-Keeps
              (λ _. open_cloud_page-Keeps))
          (record c { login = user; password = word }, w))
