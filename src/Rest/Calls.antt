-- ===== src/Rest/Calls.antt =====
-- The calls of `MarcRestClient` that make one request, and those that are made of others. A JSON
-- answer is read by the parameters `J` and `parse`.
use marc_fs.Base.{
  ℕ, ◌-◌, min, Bool, Option, none, some, List, ◌∷◌, ◌++◌, leb, if◌then◌else◌, length, is_nil,
  replicate, mail, failure, blocked, Result, ok, fail, M, pure, throw, ◌>>=◌, Bytes, Text, codes,
  text_eq, [],
}
use marc_fs.Base.Decimal.{to_string}
use marc_fs.CloudFile.{Json, CloudFile, of_json}
use marc_fs.Cloud.{SpaceInfo}
use marc_fs.Paths.{base_name, parent_of}
use marc_fs.Rest.Shard.{Shard, ShardType, as_string, get_url, of_entity}
use marc_fs.Rest.Hex.{to_padded_40_hex}
use marc_fs.Rest.Params.{Params, params, param_string}
use marc_fs.Rest.Transfers.{read_data, sent}
use marc_fs.Rest.Session.{Http, Session, request, perform_action, perform_get}
use marc_fs.Rest.Endpoints.{
  add_file_endpoint, add_folder_endpoint, folder_endpoint, move_file_endpoint,
  publish_file_endpoint, remove_file_endpoint, rename_file_endpoint, shard_endpoint, space_endpoint,
}

abbrev pub need : {S A : Type 0} → Option A → M S A
need none s = (fail failure, s)
need (some a) s = (ok a, s)

abbrev pub given : {S A : Type 0} → Result A → M S A
given r s = (r, s)

abbrev pub drop_answer : {S : Type 0} → Text → M S (Unit {0})
drop_answer answer = pure tt

module _ (H : Http) where
  abbrev pub fields : List (Text × Text) → Text
  fields ps = param_string H.escape (params ps)

  abbrev post : Text → Params → M (Session H) Text
  post url ps = perform_action H none (record (request url) { post_fields = some (fields ps) })

  abbrev get_with : Text → Params → M (Session H) Text
  get_with url ps = perform_action H none (request (url ++ (63 ∷ fields ps)))

  unfoldable pub add_uploaded_file : Text → Text → Text → ℕ → M (Session H) (Unit {0})
  add_uploaded_file name remote_dir hash size =
      post add_file_endpoint (
        (codes "hash", hash)
        ∷ (codes "size", to_string size)
        ∷ (codes "home", remote_dir ++ name)
        ∷ (codes "conflict", codes "rewrite")
        ∷ (codes "api", codes "2")
        ∷ [])
      >>= drop_answer

  unfoldable pub create : Text → M (Session H) (Unit {0})
  create path = add_uploaded_file (base_name path) (parent_of path) (replicate 40 48) 0

  unfoldable pub move : Text → Text → M (Session H) (Unit {0})
  move what_to_move where_to_move =
      post move_file_endpoint (
        (codes "api", codes "2")
        ∷ (codes "conflict", codes "rewrite")
        ∷ (codes "folder", where_to_move)
        ∷ (codes "home", what_to_move)
        ∷ [])
      >>= drop_answer

  unfoldable pub remove : Text → M (Session H) (Unit {0})
  remove path =
      post remove_file_endpoint ((codes "api", codes "2") ∷ (codes "home", path) ∷ [])
      >>= drop_answer

  -- The file is renamed in its folder, and then moved if its folder is to be another one.
  unfoldable pub rename : Text → Text → M (Session H) (Unit {0})
  rename old_path new_path =
      let renamed = post rename_file_endpoint (
        (codes "api", codes "2")
        ∷ (codes "conflict", codes "rewrite")
        ∷ (codes "home", old_path)
        ∷ (codes "name", base_name new_path)
        ∷ []) in
      if text_eq (parent_of old_path) (parent_of new_path)
      then renamed >>= drop_answer
      else renamed >>= λ _. move (parent_of old_path ++ base_name new_path) (parent_of new_path)

  pub mkdir : Text → M (Session H) (Unit {0})
  mkdir path =
      post add_folder_endpoint
        ((codes "api", codes "2") ∷ (codes "conflict", codes "rewrite") ∷ (codes "home", path) ∷ [])
      >>= drop_answer

  module _ (J : Json) (parse : Text → Option J.Value) where
    -- A look-up by name throws where the value cannot have members.
    abbrev pub looking_into : {S A : Type 0} → J.Value → M S A → M S A
    looking_into v m s = if J.has_members v then m s else (fail failure, s)

    -- The answer's member `body`, which has to be there.
    abbrev pub body_of : J.Value → M (Session H) J.Value
    body_of response = looking_into response (
        if J.is_null (J.member response (codes "body"))
        then throw (mail 0)
        else pure (J.member response (codes "body")))

    abbrev pub read_body : Text → M (Session H) J.Value
    read_body answer = need (parse answer) >>= body_of

    pub share : Text → M (Session H) Text
    share path =
        post publish_file_endpoint ((codes "api", codes "2") ∷ (codes "home", path) ∷ [])
        >>= read_body
        >>= λ body. need (J.as_string body)

    read_space : J.Value → M (Session H) SpaceInfo
    read_space body = looking_into body (
        if J.is_null (J.member body (codes "bytes_total"))
        then throw (mail 0)
        else need (J.as_uint64 (J.member body (codes "bytes_total"))) >>= λ total.
            need (J.as_uint64 (J.member body (codes "bytes_used"))) >>= λ used.
            pure (record { total = total; used = used }))

    pub df : M (Session H) SpaceInfo
    unfolding read_space
    df = get_with space_endpoint ((codes "api", codes "2") ∷ []) >>= read_body >>= read_space

    -- `CloudFile(entry)` for each entry.
    unfoldable all_entries : List J.Value → Result (List CloudFile)
    all_entries [] = ok []
    all_entries (v ∷ vs) = elim (of_json J v) [
      | fail e ↦ fail e
      | ok f ↦ elim (all_entries vs) [ fail e ↦ fail e | ok fs ↦ ok (f ∷ fs) ]
    ]

    read_list : J.Value → M (Session H) (List CloudFile)
    read_list body = looking_into body (
        if J.is_null (J.member body (codes "list"))
        then throw (mail 0)
        else given (all_entries (J.items (J.member body (codes "list")))))

    pub ls : Text → M (Session H) (List CloudFile)
    unfolding read_list
    ls path =
        get_with folder_endpoint (
          (codes "api", codes "2")
          ∷ (codes "offset", codes "0")
          ∷ (codes "limit", codes "100500")
          ∷ (codes "home", path)
          ∷ [])
        >>= read_body
        >>= read_list

    -- `stoi` is `std::stoi`.
    unfoldable pub obtain_shard : (Text → Option ℕ) → ShardType → M (Session H) Shard
    obtain_shard stoi type =
        perform_action H none (request shard_endpoint) >>= read_body >>= λ body.
        looking_into body (given (of_entity J stoi (J.member body (as_string type))))

    abbrev pub put_bytes : Text → Option Bytes → M (Session H) Text
    put_bytes url none = throw blocked
    put_bytes url (some bytes) =
        perform_action H none (record (request url) { upload = some bytes })

    -- At most 20 bytes. `signed` tells whether `char` is.
    unfoldable pub upload_small : Bool → Text → Bytes → M (Session H) (Unit {0})
    upload_small signed path body = given (to_padded_40_hex signed body) >>= λ hash.
        add_uploaded_file (base_name path) (parent_of path) hash (length body)

    abbrev pub upload_url : Shard → Text → Text
    upload_url shard login =
        get_url shard
        ++ (63 ∷ fields ((codes "cloud_domain", codes "2") ∷ (codes "x-email", login) ∷ []))

    -- The bytes are sent to a shard, which answers with their hash. `start` lies inside the body, and
    -- `ask` and `fuel` are how curl asks for the bytes.
    unfoldable pub upload_large :
        (Text → Option ℕ) → (ℕ → ℕ) → ℕ → Text → Bytes → ℕ → ℕ → M (Session H) (Unit {0})
    upload_large stoi ask fuel path body start count =
        obtain_shard stoi ShardType.upload >>= λ shard s.
        (given (read_data body start count) >>= λ d.
        put_bytes (upload_url shard s.0.login) (sent ask fuel d) >>= λ hash.
        add_uploaded_file (base_name path) (parent_of path) hash (min (length body - start) count))
          s

    unfoldable pub upload :
        Bool → (Text → Option ℕ) → (ℕ → ℕ) → ℕ → Text → Bytes → ℕ → ℕ → M (Session H) (Unit {0})
    upload signed stoi ask fuel path body start count =
        if is_nil body
        then create path
        else if leb (length body) 20
        then upload_small signed path body
        else upload_large stoi ask fuel path body start count

    abbrev pub got : Text → Result Shard × Session H → Bytes × (Result (Unit {0}) × Session H)
    got path (fail e, s) = ([], (fail e, s))
    got path (ok shard, s) = perform_get H (request (get_url shard ++ H.escape path)) s

    unfoldable pub download :
        (Text → Option ℕ) → Text → Session H → Bytes × (Result (Unit {0}) × Session H)
    download stoi path s = got path (obtain_shard stoi ShardType.get s)
