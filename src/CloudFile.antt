-- ===== src/CloudFile.antt =====
-- marc_api_cloudfile.h and marc_api_cloudfile.cpp: one entry of a folder's listing. A JSON value is
-- of the jsoncpp library: its type and the calls that the code makes are a parameter, and a call
-- whose value has the wrong type throws.
use marc_fs.Base.{
  ℕ, Bool, Option, none, some, List, if◌then◌else◌, ℤ, failure, Result, ok, fail, Text, codes,
  text_eq,
}

-- `mode_t` bits of sys/stat.h.
abbrev pub s_ifreg : ℕ
s_ifreg = 0x8000

abbrev pub s_ifdir : ℕ
s_ifdir = 0x4000

pub record CloudFile : Type 0 where
  pub type : ℕ
  pub kind : Text
  pub home : Text
  pub name : Text
  pub hash : Text
  pub mtime : ℤ
  pub size : ℕ
  pub virus_scan : Text

-- `Json::Value`. `member` is `operator[]` with a name, which throws unless `has_members`: on anything
-- but an object or null; `item` is the one with an index, which throws unless `has_items`: on anything
-- but an array or null.
pub record Json : Type 1 where
  pub Value : Type 0
  pub null : Value
  pub is_null : Value → Bool
  pub has_members : Value → Bool
  pub member : Value → Text → Value
  pub has_items : Value → Bool
  pub item : Value → ℕ → Value
  pub items : Value → List Value
  pub as_string : Value → Option Text
  pub as_uint64 : Value → Option ℕ
  pub as_int64 : Value → Option ℤ

unfoldable pub get_type : CloudFile → ℕ
get_type f = f.type

pub set_type : ℕ → CloudFile → CloudFile
set_type v f = record f { type = v }

pub get_kind : CloudFile → Text
get_kind f = f.kind

pub set_kind : Text → CloudFile → CloudFile
set_kind v f = record f { kind = v }

pub get_home : CloudFile → Text
get_home f = f.home

pub set_home : Text → CloudFile → CloudFile
set_home v f = record f { home = v }

unfoldable pub get_name : CloudFile → Text
get_name f = f.name

unfoldable pub set_name : Text → CloudFile → CloudFile
set_name v f = record f { name = v }

pub get_hash : CloudFile → Text
get_hash f = f.hash

pub set_hash : Text → CloudFile → CloudFile
set_hash v f = record f { hash = v }

unfoldable pub get_mtime : CloudFile → ℤ
get_mtime f = f.mtime

pub set_mtime : ℤ → CloudFile → CloudFile
set_mtime v f = record f { mtime = v }

unfoldable pub get_size : CloudFile → ℕ
get_size f = f.size

unfoldable pub set_size : ℕ → CloudFile → CloudFile
set_size v f = record f { size = v }

pub get_virus_scan : CloudFile → Text
get_virus_scan f = f.virus_scan

pub set_virus_scan : Text → CloudFile → CloudFile
set_virus_scan v f = record f { virus_scan = v }

-- Where a conversion throws, the constructor does.
or_throw {ℓ} : {A : Type ℓ} → Option A → Result A
or_throw none = fail failure
or_throw (some a) = ok a

infixl 5 ◌then◌
abbrev ◌then◌ {ℓ κ} : {A : Type ℓ} {B : Type κ} → Result A → (A → Result B) → Result B
ok a then f = f a
fail e then f = fail e

module _ (J : Json) where
  of_members : J.Value → Result CloudFile
  unfolding or_throw
  of_members v = or_throw (J.as_string (J.member v (codes "type"))) then λ type.
      or_throw (J.as_string (J.member v (codes "kind"))) then λ kind.
      or_throw (J.as_string (J.member v (codes "home"))) then λ home.
      or_throw (J.as_string (J.member v (codes "name"))) then λ name.
      or_throw (J.as_string (J.member v (codes "hash"))) then λ hash.
      or_throw (J.as_uint64 (J.member v (codes "size"))) then λ size.
      or_throw (J.as_int64 (J.member v (codes "mtime"))) then λ mtime.
      or_throw (J.as_string (J.member v (codes "virus_scan"))) then λ virus_scan. ok (record {
        type = if text_eq type (codes "file") then s_ifreg else s_ifdir;
        kind = kind;
        home = home;
        name = name;
        hash = hash;
        mtime = mtime;
        size = size;
        virus_scan = virus_scan;
      })

  pub of_json : J.Value → Result CloudFile
  unfolding of_members
  of_json v = if J.has_members v then of_members v else fail failure
