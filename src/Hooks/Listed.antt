-- ===== src/Hooks/Listed.antt =====
-- What a listing leaves in the cache, and what `getattrCallback` takes from it.
use marc_fs.Base.{
  ℕ, ◌≡◌, refl, sym, ap, ◌∙◌, inl, inr, Bool, true, false, ◌||◌, Option, none, some, List, [], ◌∷◌,
  ◌++◌, arith, if◌then◌else◌, Bool-cases, Option-cases, ℤ, pos, Result, ok, fail, M, bind_result,
  Text, text_eq, text_eq_iff,
}
use marc_fs.Dict.{lookup, lookup-insert}
use marc_fs.CloudFile.{CloudFile}
use marc_fs.Cache
use marc_fs.Cache.{Cache, CacheNode, cache_node, cache_ttl}
use marc_fs.Stat.{Stat, fill_stat, zero_stat}
use marc_fs.Hooks.{Setup, Fs, With, pool}
use marc_fs.Hooks.Attributes.{scan_entry, scan_entries, look_up, answer}
use marc_fs.Retry.{do_with_retry}
use marc_fs.Retry.Laws.{do_with_retry_post}
use marc_fs.Compounds.{handle_compounds}
use mathlib.Core.List.{append_cancel_left}

-- The last entry of a name.
abbrev named : Text → List CloudFile → Option CloudFile
named name [] = none
named name (cf ∷ rest) = elim (named name rest) [
  | some later ↦ some later
  | none ↦ if text_eq cf.name name then some cf else none
]

abbrev or_else {ℓ} : {A : Type ℓ} → Option A → Option A → Option A
or_else none b = b
or_else (some a) b = some a

abbrev is_some {ℓ} : {A : Type ℓ} → Option A → Bool
is_some none = false
is_some (some a) = true

module _ (U : Setup) (dir name : Text) where
  abbrev stat_node : ℕ → CloudFile → CacheNode
  stat_node steady cf = cache_node steady (fill_stat U.context cf zero_stat)

  abbrev map_node : ℕ → Option CloudFile → Option CacheNode
  map_node steady none = none
  map_node steady (some cf) = some (stat_node steady cf)

  abbrev stat_or : Option CloudFile → Stat → Stat
  stat_or none st = st
  stat_or (some cf) st = fill_stat U.context cf zero_stat

  same_name : (other : Text) → text_eq (dir ++ other) (dir ++ name) ≡ text_eq other name
  same_name other = elim (Bool-cases (text_eq other name)) [
    | inl e ↦
        (text_eq_iff (dir ++ other) (dir ++ name)).1
          (ap (λ t. dir ++ t) ((text_eq_iff other name).0 e))
        ∙ sym e
    | inr e ↦ elim (Bool-cases (text_eq (dir ++ other) (dir ++ name))) [
      | inl f ↦ absurd (
          ground (
            arith,
            text_eq_iff other name,
            append_cancel_left dir other name ((text_eq_iff (dir ++ other) (dir ++ name)).0 f),
          ))
      | inr f ↦ f ∙ sym e
    ]
  ]

  -- What one entry does to the flag, to the stat and to the cache's node of the path asked for.
  scan_entry-lookup :
      (cf : CloudFile) (found : Bool) (fs : Fs U) (st : Stat)
      → let s = scan_entry U dir name cf (found, (fs, st)) in
        (s.0 ≡ (text_eq cf.name name || found))
        × (s.1.1 ≡ (if text_eq cf.name name then fill_stat U.context cf zero_stat else st))
        × (lookup (dir ++ name) s.1.0.cache ≡ (
            if text_eq cf.name name
            then some (stat_node fs.steady cf)
            else lookup (dir ++ name) fs.cache))
        × (s.1.0.steady ≡ fs.steady)
  unfolding scan_entry fill_stat Cache.put
  scan_entry-lookup cf found fs st = elim (Bool-cases (text_eq cf.name name)) [
    | inl e ↦
        rw (e, scan_entry)
          (
            refl,
            refl,
            lookup-insert (dir ++ cf.name) (dir ++ name) _ fs.cache ∙ rw (same_name, e),
            refl,
          )
    | inr e ↦
        rw (e, scan_entry)
          (
            refl,
            refl,
            lookup-insert (dir ++ cf.name) (dir ++ name) _ fs.cache ∙ rw (same_name, e),
            refl,
          )
  ]

  -- The whole listing.
  scan_entries-lookup :
      (files : List CloudFile) (found : Bool) (fs : Fs U) (st : Stat)
      → let s = scan_entries U dir name files (found, (fs, st)) in
        (s.0 ≡ (is_some (named name files) || found))
        × (s.1.1 ≡ stat_or (named name files) st)
        × (lookup (dir ++ name) s.1.0.cache
            ≡ or_else (map_node fs.steady (named name files)) (lookup (dir ++ name) fs.cache))
        × (s.1.0.steady ≡ fs.steady)
  unfolding scan_entries
  scan_entries-lookup [] found fs st = (refl, refl, refl, refl)
  scan_entries-lookup (cf ∷ files) found fs st =
      let one = scan_entry-lookup cf found fs st in
      let s = scan_entry U dir name cf (found, (fs, st)) in
      let rest = scan_entries-lookup files s.0 s.1.0 s.1.1 in ground (arith, one, rest)

  -- The cache holds the stat that the caller was given, as of now.
  abbrev pub Served : With U Stat → Type 0
  Served t = lookup (dir ++ name) t.0.cache ≡ some (cache_node t.0.steady t.1)

  scan_entries-Served :
      (files : List CloudFile) (fs : Fs U) (st : Stat)
      → let s = scan_entries U dir name files (false, (fs, st)) in s.0 ≡ true → Served s.1
  scan_entries-Served files fs st e =
      let x = scan_entries-lookup files false fs st in
      elim (Option-cases (named name files)) [
        | inl missing ↦ absurd (ground (arith, x))
        | inr (cf, found) ↦ ground (arith, x)
      ]

  answer-Served :
      (s : Bool × With U Stat)
      → (s.0 ≡ true → Served s.1)
      → (answer U s).0 ≡ ok (pos 0)
      → Served (answer U s).1
  unfolding answer
  answer-Served (true, t) h e = h refl
  answer-Served (false, t) h e = absurd (ground arith)

  after_ls : List CloudFile → M (With U Stat) ℤ
  after_ls contents s =
      answer U (scan_entries U dir name (handle_compounds U.order contents) (false, s))

  after_ls-Served :
      (r : Result (List CloudFile)) (u : With U Stat)
      → (bind_result after_ls (r, u)).0 ≡ ok (pos 0)
      → Served (bind_result after_ls (r, u)).1
  unfolding after_ls
  after_ls-Served (ok contents) u e =
      answer-Served _ (scan_entries-Served (handle_compounds U.order contents) u.0 u.1) e
  after_ls-Served (fail x) u e = cc

  look_up-Served :
      (t : With U Stat) → (look_up U dir name t).0 ≡ ok (pos 0) → Served (look_up U dir name t).1
  unfolding look_up after_ls
  look_up-Served t e =
      after_ls-Served (U.C.ls dir t.0.world).0
        (record t.0 { world = (U.C.ls dir t.0.world).1 }, t.1) e

  pub retried-Served :
      (t : With U Stat)
      → (do_with_retry (pool U) (look_up U dir name) t).0 ≡ ok (pos 0)
      → Served (do_with_retry (pool U) (look_up U dir name) t).1
  retried-Served =
      do_with_retry_post (pool U) Served (look_up U dir name) look_up-Served (λ n t h. h)
