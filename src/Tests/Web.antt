-- ===== src/Tests/Web.antt =====
-- A server for the tests: the files, and the bytes that were uploaded last. There is one shard.
use marc_fs.Base.{
  ℕ, ◌≤◌, ◌≡◌, refl, sym, ap, subst, ◌∙◌, ◌⊎◌, inl, inr, true, false, Option, none, some, List, [],
  ◌∷◌, ◌++◌, arith, if◌then◌else◌, length, pos, ok, Bytes, Text, codes, text_eq, text_eq_iff,
}
use marc_fs.Base.Decimal.{of_digits, of_digits-to_string}
use marc_fs.Cloud.{Entry, absent, file, set_entry, detour}
use marc_fs.CloudFile.{Json}
use marc_fs.Compounds.{strip}
use marc_fs.Paths.{parent_of, base_name}
use marc_fs.Rest.Params.{Params}
use marc_fs.Rest.Params.Decoding.{parsed}
use marc_fs.Rest.Hex.Digits.{unhex}
use marc_fs.Rest.Shard.{Shard, ShardType, of_entity, as_string}
use marc_fs.Rest.Session.{Http, Session, RestClient, Request, Reply, answered}
use marc_fs.Rest.Calls.{rename}
use marc_fs.Storage.Instances.{memory_storage}
use marc_fs.Node
use marc_fs.Node.{Node}
use marc_fs.Hooks.{Setup, file_node, Fs}
use marc_fs.Hooks.Web.{web_setup}
use marc_fs.Tests.Nodes.{old_body, cloud, changed_node, shut_node}
use marc_fs.Rest.Server.{api_two, rewriting, Platform, IsServer}
use marc_fs.Rest.Server.Refinement.{rename_destroys}
use marc_fs.Tests.Requests.{shift, unshift, shift-safe, unshift-shift}
use marc_fs.Cloud.Runs.{FileCall, uploads, downloads, renames, removes}
use marc_fs.Rest.Endpoints.{move_file_endpoint, rename_file_endpoint}

abbrev Web : Type 0
Web = (Text → Entry) × Bytes

abbrev hash_of_last : Text
hash_of_last = codes "last"

abbrev shard_url : Text
shard_url = codes "shard"

abbrev done : Web → Reply × Web
done w = (answered 200 [], w)

abbrev refuse : Web → Reply × Web
refuse w = (answered 404 [], w)

abbrev content : Web → Text → ℕ → Bytes
content w hash size = if text_eq hash hash_of_last then w.1 else unhex size hash

abbrev put_at : Text → Entry → Text → Web → Reply × Web
put_at q absent p w = refuse w
put_at q e p w = done (set_entry q e (set_entry p absent w.0), w.1)

abbrev delete : Text → Entry → Web → Reply × Web
delete p absent w = refuse w
delete p e w = done (set_entry p absent w.0, w.1)

-- By the number of the fields.
abbrev posted : Text → Params → Web → Reply × Web
posted url (a ∷ (b ∷ [])) w = delete b.1 (w.0 b.1) w
posted url (a ∷ (b ∷ (c ∷ (d ∷ [])))) w =
    if text_eq url rename_file_endpoint
    then put_at (parent_of c.1 ++ d.1) (w.0 c.1) c.1 w
    else put_at (c.1 ++ base_name d.1) (w.0 d.1) d.1 w
posted url (a ∷ (b ∷ (c ∷ (d ∷ (e ∷ []))))) w =
    done (set_entry d.1 (file (content w c.1 (of_digits e.1))) w.0, w.1)
posted url _ w = refuse w

abbrev served : Entry → Web → Reply × Web
served (file b) w = (answered 200 b, w)
served _ w = refuse w

abbrev fetched : Option Text → Web → Reply × Web
fetched none w = done w
fetched (some p) w = served (w.0 (unshift p)) w

-- A GET: of a file at the shard, or of the dispatcher's list.
abbrev gotten : Text → Option Bytes → Web → Reply × Web
gotten url (some b) w = (answered 201 hash_of_last, (w.0, b))
gotten url none w = fetched (strip shard_url url) w

abbrev handled : Text → Option Text → Option Bytes → Web → Reply × Web
handled url none up w = gotten url up w
handled url (some f) up w = posted url (parsed unshift f) w

abbrev web_http : Http
web_http = record {
  World = Web;
  perform = λ r w. handled r.url r.post_fields r.upload w;
  cookies = λ w. [];
  escape = shift;
}

-- A value is the name under which it is looked up, and every text is one.
abbrev pub web_json : Json
web_json = record {
  Value = Text;
  null = [];
  is_null = λ v. false;
  has_members = λ v. true;
  member = λ v name. name;
  has_items = λ v. true;
  item = λ v i. v;
  items = λ v. [];
  as_string = λ v. some shard_url;
  as_uint64 = λ v. some 0;
  as_int64 = λ v. some (pos 0);
}

abbrev platform : Platform
platform = record {
  H = web_http;
  J = web_json;
  parse = λ t. some t;
  stoi = λ t. some 1;
  signed = true;
  ask = λ k. 16;
}

abbrev blob_of : Web → Text → Option Bytes
blob_of w h = if text_eq h hash_of_last then some w.1 else none

one_shard :
    (type : ShardType)
    → of_entity web_json (λ t. some 1) (as_string type) ≡ ok (record { url = shard_url; count = 1 })
unfolding of_entity
one_shard type = refl

last_blob : (w : Web) → blob_of w hash_of_last ≡ some w.1
unfolding text_eq
last_blob w = refl

renaming_posted :
    (p name : Text) (w : Web)
    → posted rename_file_endpoint
        (api_two ∷ (rewriting ∷ ((codes "home", p) ∷ ((codes "name", name) ∷ []))))
        w
      ≡ put_at (parent_of p ++ name) (w.0 p) p w
unfolding text_eq
renaming_posted p name w = refl

moving_posted :
    (p folder : Text) (w : Web)
    → posted move_file_endpoint
        (api_two ∷ (rewriting ∷ ((codes "folder", folder) ∷ ((codes "home", p) ∷ []))))
        w
      ≡ put_at (folder ++ base_name p) (w.0 p) p w
unfolding text_eq
moving_posted p folder w = refl

abbrev Took : Reply × Web → (Text → Entry) → Type 0
Took x f = (t : Text) × (x.0 ≡ answered 200 t) × Unit {0} × (x.1.0 ≡ f)

took : (x : Reply × Web) (f : Text → Entry) (last : Bytes) → x ≡ done (f, last) → Took x f
took x f last e = subst (λ y. Took y f) (sym e) ([], refl, tt, refl)

handled-posted :
    (r : Request) (w : Web) (f u : Text) (ps : Params)
    → r.url ≡ u
    → r.post_fields ≡ some f
    → parsed unshift f ≡ ps
    → handled r.url r.post_fields r.upload w ≡ posted u ps w
handled-posted r w f u ps url post e =
    (λ i. handled (url i) (post i) r.upload w) ∙ ap (λ q. posted u q w) e

content-blob :
    (w : Web) (hash : Text) (b : Bytes)
    → (blob_of w hash ≡ some b)
      ⊎ ((length hash ≡ 40) × (length b ≤ 20) × (unhex (length b) hash ≡ b))
    → content w hash (length b) ≡ b
content-blob w hash b (inl e) = ground arith
content-blob w hash b (inr (long, short, e)) =
    ground (arith, text_eq_iff hash hash_of_last, λ (h : hash ≡ hash_of_last). ap length h)

platform-get :
    (r : Request) (w : Web) (u p : Text) (b : Bytes)
    → u ≡ shard_url
    → r.url ≡ u ++ shift p
    → r.post_fields ≡ none
    → r.upload ≡ none
    → w.0 p ≡ file b
    → handled r.url r.post_fields r.upload w ≡ (answered 200 b, w)
platform-get r w u p b is url post up e =
    (λ i. handled (url i) (post i) (up i) w)
    ∙ (ap (λ v. handled (v ++ shift p) none none w) is
        ∙ (ap (λ q. served (w.0 q) w) (unshift-shift p) ∙ ap (λ x. served x w) e))

abbrev platform-IsServer : IsServer platform
platform-IsServer = record {
  unescape = unshift;
  safe = shift-safe;
  back = unshift-shift;
  asks = λ k. omega arith;
  entry = λ w. w.0;
  IsOnline = λ w. Unit {0};
  blob = blob_of;
  IsShard = λ type u. u ≡ shard_url;
  dispatcher_lem = λ r w on u f up.
      let run : handled r.url r.post_fields r.upload w ≡ done w =
        λ i. handled (u i) (f i) (up i) w in
      subst
        (λ (x : Reply × Web).
          (t : Text) × (x.0 ≡ answered 200 t)
          × Unit {0}
          × (x.1.0 ≡ w.0)
          × (v : Text) × (some t ≡ some v)
          × (true ≡ true)
          × (false ≡ false)
          × (true ≡ true)
          × ((type : ShardType)
              → (s : Shard) × (of_entity web_json (λ t'. some 1) (as_string type) ≡ ok s)
                × (s.url ≡ shard_url)))
        (sym run)
        (
          [],
          refl,
          tt,
          refl,
          [],
          refl,
          refl,
          refl,
          refl,
          λ type. (record { url = shard_url; count = 1 }, one_shard type, refl),
        );
  upload_lem = λ r w u q b on is url f up.
      let run : handled r.url r.post_fields r.upload w ≡ (answered 201 hash_of_last, (w.0, b)) =
        λ i. handled (url i) (f i) (up i) w in
      subst
        (λ (x : Reply × Web).
          (hash : Text) × (x.0 ≡ answered 201 hash)
          × Unit {0}
          × (x.1.0 ≡ w.0)
          × (blob_of x.1 hash ≡ some b))
        (sym run) (hash_of_last, refl, tt, refl, last_blob (w.0, b));
  get_lem = λ r w u p b on is url f up e.
      subst (λ (x : Reply × Web). (x.0 ≡ answered 200 b) × Unit {0} × (x.1.0 ≡ w.0))
        (sym (platform-get r w u p b is url f up e)) (refl, tt, refl);
  add_lem = λ r w f hash p b on url post ps here free. took _ (set_entry p (file b) w.0) w.1 (
      handled-posted r w f _ _ url post ps
      ∙ (ap (λ n. done (set_entry p (file (content w hash n)) w.0, w.1))
            (of_digits-to_string (length b))
          ∙ ap (λ x. done (set_entry p (file x) w.0, w.1)) (content-blob w hash b here)));
  remove_lem = λ r w f p b on url post ps e.
      took _ (set_entry p absent w.0) w.1
        (handled-posted r w f _ _ url post ps ∙ ap (λ x. delete p x w) e);
  remove-absent_lem = λ r w f p on url post ps e.
      subst (λ (x : Reply × Web). Unit {0} × (x.1.0 ≡ w.0))
        (sym (handled-posted r w f _ _ url post ps ∙ ap (λ x. delete p x w) e)) (tt, refl);
  rename_lem = λ r w f p name b on url post ps e free.
      took _ (set_entry (parent_of p ++ name) (file b) (set_entry p absent w.0)) w.1 (
        handled-posted r w f _ _ url post ps
        ∙ (renaming_posted p name w ∙ ap (λ x. put_at (parent_of p ++ name) x p w) e));
  move_lem = λ r w f p folder b on url post ps e free.
      took _ (set_entry (folder ++ base_name p) (file b) (set_entry p absent w.0)) w.1 (
        handled-posted r w f _ _ url post ps
        ∙ (moving_posted p folder w ∙ ap (λ x. put_at (folder ++ base_name p) x p w) e));
}

abbrev some_client : RestClient
some_client = record {
  proxy_url = [];
  max_upload_rate = 0;
  max_download_rate = 0;
  login = codes "user";
  password = codes "secret";
  act_token = [];
  csrf_token = [];
}

abbrev two_files : Text → Entry
two_files p =
    if text_eq p (codes "/a/x")
    then file (1 ∷ [])
    else if text_eq p (codes "/a/y")
    then file (2 ∷ [])
    else absent

abbrev two_files_session : Session web_http
two_files_session = (some_client, (two_files, []))

abbrev file_calls : List FileCall
file_calls =
    uploads (codes "/a/z") old_body 0 30
    ∷ downloads (codes "/a/z")
    ∷ renames (codes "/a/z") (codes "/b/w")
    ∷ removes (codes "/a/x")
    ∷ []

rename_destroys_example :
    ((rename web_http (codes "/a/x") (codes "/b/y") two_files_session).0 ≡ ok tt)
    × ((rename web_http (codes "/a/x") (codes "/b/y") two_files_session).1.1.0 (codes "/b/y")
        ≡ file (1 ∷ []))
    × ((rename web_http (codes "/a/x") (codes "/b/y") two_files_session).1.1.0
          (detour (codes "/a/x") (codes "/b/y"))
        ≡ absent)
unfolding text_eq parent_of base_name marc_fs.Paths.split_last
rename_destroys_example =
    rename_destroys platform platform-IsServer (codes "/a/x") (codes "/b/y") (1 ∷ []) (2 ∷ [])
      two_files_session tt refl refl refl

abbrev web : Setup
web =
    web_setup platform memory_storage (record { bytes = [] }) 20 (record { uid = 0; gid = 0 })
      (λ m. m)

-- A changed file is open under handle 4, and the server holds its old content in two parts.
abbrev open_web : Fs web
open_web = record {
  world = (some_client, (cloud, []));
  cache = [];
  idle = 1;
  steady = 0;
  time = pos 0;
  handles = λ k. some (file_node changed_node);
  next_handle = 5;
}

abbrev new_reader : Node memory_storage
new_reader = record shut_node { old_size = 30 }
