-- ===== src/Rest/Server.antt =====
-- The Mail.ru Cloud's interface over HTTP, as src/marc_rest_client.cpp relies on it, in `IsServer`;
-- and the client of marc_rest_client.h over it.
pub mod Requests
pub mod Uploads
pub mod Downloads
pub mod Renames
pub mod Refinement
use marc_fs.Base.{
  ℕ, zero, suc, ◌+◌, ◌-◌, ◌*◌, ◌/◌, ◌%◌, ◌^◌, ◌≤◌, ◌<◌, min, max, ◌≡◌, refl, sym, ap, subst, ◌∙◌,
  fun_ext, ◌≢◌, ◌↔◌, ◌⊎◌, inl, inr, Bool, true, false, not, ◌&&◌, ◌||◌, Option, none, some, List,
  [], ◌∷◌, ◌++◌, map, arith, ltb, leb, ◌==◌, if◌then◌else◌, ltb→lt, lt→ltb, le→ltb, ltb→le, leb→le,
  ==_iff, Bool-cases, Option-cases, length, is_nil, take, drop, replicate, length-append,
  length-take, length-drop, length-replicate, take-append-drop, take_all, drop_all, take-append,
  drop-append, drop-append_length, take-append_length, drop-nil, drop-drop, length-eq-zero, ℤ, pos,
  negsuc, u64_mod, u32_mod, int_max, to_int, to_int_small, Exc, mail, failure, undefined, blocked,
  Result, ok, fail, M, pure, throw, bind_result, ◌>>=◌, ◌>>◌, Bytes, Text, codes, text_eq,
  text_eq_iff, text_eq_refl,
}
use marc_fs.Base.Decimal.{to_string}
use marc_fs.Cloud.{Client, Entry, absent, file, is_folder, set_entry}
use marc_fs.CloudFile.{Json}
use marc_fs.Paths.{none_of, parent_of, base_name}
use marc_fs.Rest.Params.{Params}
use marc_fs.Rest.Params.Decoding.{reserved, parsed}
use marc_fs.Rest.Hex.Digits.{unhex}
use marc_fs.Rest.Shard.{Shard, ShardType, as_string, get_url, of_entity}
use marc_fs.Rest.Session.{Http, Session, RestClient, Request, Reply, answered}
use marc_fs.Rest.Calls.{create, mkdir, ls, share, df, upload, download, remove, rename}
use marc_fs.Rest.Endpoints.{
  add_file_endpoint, move_file_endpoint, remove_file_endpoint, rename_file_endpoint, shard_endpoint,
}

-- What the client is linked with, and how curl and the platform behave: whether `char` is signed, and
-- what curl asks for when it reads the bytes of an upload.
pub record Platform : Type 1 where
  pub H : Http
  pub J : Json
  pub parse : Text → Option J.Value
  pub stoi : Text → Option ℕ
  pub signed : Bool
  pub ask : ℕ → ℕ

-- `MarcRestClient`. curl asks for the bytes of an upload once more than there are bytes at most.
abbrev pub rest_client : Platform → Client
rest_client X = record {
  World = Session X.H;
  upload = λ p body start count.
      upload X.H X.J X.parse X.signed X.stoi X.ask (suc (length body)) p body start count;
  download = download X.H X.J X.parse X.stoi;
  remove = remove X.H;
  rename = rename X.H;
  create = create X.H;
  mkdir = mkdir X.H;
  ls = ls X.H X.J X.parse;
  share = share X.H X.J X.parse;
  df = df X.H X.J X.parse;
}

-- The values that every request names.
abbrev pub api_two : Text × Text
api_two = (codes "api", codes "2")

abbrev pub rewriting : Text × Text
rewriting = (codes "conflict", codes "rewrite")

-- The server as the client's code relies on it, while the connection works (`IsOnline`). A request is
-- known by its URL and its POST fields, split and unescaped; headers, proxy and rates make no
-- difference. Bytes that were uploaded are known by the hash that the upload was answered with, and
-- at most 20 bytes by a hash that is their hexadecimal digits.
pub record IsServer (X : Platform) : Type 1 where
  pub unescape : Text → Text
  pub safe : (t : Text) → none_of reserved (X.H.escape t) ≡ true
  pub back : (t : Text) → unescape (X.H.escape t) ≡ t
  pub asks : (k : ℕ) → 0 < X.ask k
  pub entry : X.H.World → Text → Entry
  pub IsOnline : X.H.World → Type 0
  pub blob : X.H.World → Text → Option Bytes
  pub IsShard : ShardType → Text → Type 0
  pub dispatcher_lem :
      (r : Request) (w : X.H.World)
      → IsOnline w
      → r.url ≡ shard_endpoint
      → r.post_fields ≡ none
      → r.upload ≡ none
      → (t : Text) × ((X.H.perform r w).0 ≡ answered 200 t)
        × IsOnline (X.H.perform r w).1
        × (entry (X.H.perform r w).1 ≡ entry w)
        × (v : X.J.Value) × (X.parse t ≡ some v)
        × (X.J.has_members v ≡ true)
        × (X.J.is_null (X.J.member v (codes "body")) ≡ false)
        × (X.J.has_members (X.J.member v (codes "body")) ≡ true)
        × ((type : ShardType)
            → (s : Shard) × (of_entity X.J X.stoi
                  (X.J.member (X.J.member v (codes "body")) (as_string type))
                ≡ ok s)
              × IsShard type s.url)
  pub upload_lem :
      (r : Request) (w : X.H.World) (u q : Text) (b : Bytes)
      → IsOnline w
      → IsShard ShardType.upload u
      → r.url ≡ u ++ (63 ∷ q)
      → r.post_fields ≡ none
      → r.upload ≡ some b
      → (hash : Text) × ((X.H.perform r w).0 ≡ answered 201 hash)
        × IsOnline (X.H.perform r w).1
        × (entry (X.H.perform r w).1 ≡ entry w)
        × (blob (X.H.perform r w).1 hash ≡ some b)
  pub get_lem :
      (r : Request) (w : X.H.World) (u p : Text) (b : Bytes)
      → IsOnline w
      → IsShard ShardType.get u
      → r.url ≡ u ++ X.H.escape p
      → r.post_fields ≡ none
      → r.upload ≡ none
      → entry w p ≡ file b
      → ((X.H.perform r w).0 ≡ answered 200 b)
        × IsOnline (X.H.perform r w).1
        × (entry (X.H.perform r w).1 ≡ entry w)
  pub add_lem :
      (r : Request) (w : X.H.World) (f hash p : Text) (b : Bytes)
      → IsOnline w
      → r.url ≡ add_file_endpoint
      → r.post_fields ≡ some f
      → parsed unescape f
        ≡ api_two
          ∷ rewriting
          ∷ (codes "hash", hash)
          ∷ (codes "home", p)
          ∷ (codes "size", to_string (length b))
          ∷ []
      → (blob w hash ≡ some b)
        ⊎ ((length hash ≡ 40) × (length b ≤ 20) × (unhex (length b) hash ≡ b))
      → is_folder (entry w p) ≡ false
      → (t : Text) × ((X.H.perform r w).0 ≡ answered 200 t)
        × IsOnline (X.H.perform r w).1
        × (entry (X.H.perform r w).1 ≡ set_entry p (file b) (entry w))
  pub remove_lem :
      (r : Request) (w : X.H.World) (f p : Text) (b : Bytes)
      → IsOnline w
      → r.url ≡ remove_file_endpoint
      → r.post_fields ≡ some f
      → parsed unescape f ≡ api_two ∷ (codes "home", p) ∷ []
      → entry w p ≡ file b
      → (t : Text) × ((X.H.perform r w).0 ≡ answered 200 t)
        × IsOnline (X.H.perform r w).1
        × (entry (X.H.perform r w).1 ≡ set_entry p absent (entry w))
  pub remove-absent_lem :
      (r : Request) (w : X.H.World) (f p : Text)
      → IsOnline w
      → r.url ≡ remove_file_endpoint
      → r.post_fields ≡ some f
      → parsed unescape f ≡ api_two ∷ (codes "home", p) ∷ []
      → entry w p ≡ absent
      → IsOnline (X.H.perform r w).1 × (entry (X.H.perform r w).1 ≡ entry w)
  pub rename_lem :
      (r : Request) (w : X.H.World) (f p name : Text) (b : Bytes)
      → IsOnline w
      → r.url ≡ rename_file_endpoint
      → r.post_fields ≡ some f
      → parsed unescape f ≡ api_two ∷ rewriting ∷ (codes "home", p) ∷ (codes "name", name) ∷ []
      → entry w p ≡ file b
      → is_folder (entry w (parent_of p ++ name)) ≡ false
      → (t : Text) × ((X.H.perform r w).0 ≡ answered 200 t)
        × IsOnline (X.H.perform r w).1
        × (entry (X.H.perform r w).1
            ≡ set_entry (parent_of p ++ name) (file b) (set_entry p absent (entry w)))
  pub move_lem :
      (r : Request) (w : X.H.World) (f p folder : Text) (b : Bytes)
      → IsOnline w
      → r.url ≡ move_file_endpoint
      → r.post_fields ≡ some f
      → parsed unescape f ≡ api_two ∷ rewriting ∷ (codes "folder", folder) ∷ (codes "home", p) ∷ []
      → entry w p ≡ file b
      → is_folder (entry w (folder ++ base_name p)) ≡ false
      → (t : Text) × ((X.H.perform r w).0 ≡ answered 200 t)
        × IsOnline (X.H.perform r w).1
        × (entry (X.H.perform r w).1
            ≡ set_entry (folder ++ base_name p) (file b) (set_entry p absent (entry w)))
