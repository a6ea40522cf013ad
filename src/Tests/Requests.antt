-- ===== src/Tests/Requests.antt =====
-- Requests, their texts and transfers, and the flush of an open file.
use marc_fs.Base.{
  ◌+◌, ◌-◌, ◌<◌, ◌≡◌, refl, true, none, some, [], ◌∷◌, arith, length, pos, ok, Text, codes,
}
use marc_fs.Paths.{none_of}
use marc_fs.Dict.{lookup}
use marc_fs.Stat.{Stat, zero_stat}
use marc_fs.Node.Exact.{IsClear}
use marc_fs.Hooks.Names.{unlink_callback}
use marc_fs.Hooks.Names.Unlinking.{unlink_callback-IsClear}
use marc_fs.Hooks.{file_node, Fs}
use marc_fs.Rest.Params.{param_string}
use marc_fs.Rest.Params.Decoding.{reserved, param_string-parsed, parsed}
use marc_fs.Tests.Server.{server-IsLawful}
use marc_fs.Tests.Nodes.{a_path, old_body, cloud-IsExact, changed_node}
use marc_fs.Tests.Callbacks.{setup, state}

-- An escape of a test's own: every character moved up beyond the two that end fields and names.
abbrev pub shift : Text → Text
shift [] = []
shift (c ∷ cs) = (c + 100) ∷ shift cs

abbrev pub unshift : Text → Text
unshift [] = []
unshift (c ∷ cs) = (c - 100) ∷ unshift cs

pub shift-safe : (t : Text) → none_of reserved (shift t) ≡ true
shift-safe [] = refl
shift-safe (c ∷ cs) = ground (arith, shift-safe cs)

pub unshift-shift : (t : Text) → unshift (shift t) ≡ t
unshift-shift [] = refl
unshift-shift (c ∷ cs) = ground (arith, unshift-shift cs)

param_string-parsed_example :
    parsed unshift
      (param_string shift ((codes "api", codes "2") ∷ (codes "home", codes "/a&b=c") ∷ []))
    ≡ (codes "api", codes "2") ∷ (codes "home", codes "/a&b=c") ∷ []
param_string-parsed_example =
    param_string-parsed shift unshift shift-safe unshift-shift
      ((codes "api", codes "2") ∷ (codes "home", codes "/a&b=c") ∷ [])

abbrev open_state : Fs setup
open_state = record (state 2) { handles = λ k. some (file_node changed_node) }

-- The stat of the file, cached.
abbrev pub a_stat : Stat
a_stat = record zero_stat { size = length old_body }

abbrev pub cached_state : Fs setup
cached_state = record (state 2) {
  cache = (a_path, record { stbuf = a_stat; cached_since = 0 }) ∷ [];
}

unlink_callback-IsClear_example :
    let r = unlink_callback setup a_path (cached_state, tt) in
    (r.0 ≡ ok (pos 0))
    × IsClear r.1.0.world a_path
    × (lookup a_path r.1.0.cache ≡ none)
    × (r.1.0.idle ≡ 2)
unfolding marc_fs.Hooks.Links.stat_of marc_fs.Hooks.Attributes.getattr_callback marc_fs.Base.text_eq
    marc_fs.Paths.split_last marc_fs.Cache.get lookup
unlink_callback-IsClear_example =
    unlink_callback-IsClear setup server-IsLawful a_path old_body cached_state cached_state a_stat
      refl refl (omega arith) tt cloud-IsExact
