-- ===== src/Compounds/Totals.antt =====
-- What a listing says once the parts are put together.
use marc_fs.Base.{
  ℕ, ◌+◌, ◌%◌, ◌<◌, ◌≡◌, refl, sym, ap, subst, inl, inr, Bool, true, false, ◌||◌, Option, none,
  some, List, [], ◌∷◌, ◌++◌, map, arith, if◌then◌else◌, Bool-cases, Option-cases, u64_mod, Text,
  text_eq, text_eq_iff,
}
use marc_fs.Dict.{lookup, lookup-insert}
use marc_fs.CloudFile.{CloudFile, set_size, set_name}
use marc_fs.Compounds.{Compounds, match_compound, add_part, collapse, handle_compounds}
use mathlib.Core.List.{Perm, Mem, mem-cons_self, mem-cons_of_mem, mem-append_right}
use mathlib.Core.List.Perm

-- The sizes of the parts of `orig`, added up.
abbrev pub part_total : Text → List CloudFile → ℕ
part_total orig [] = 0
part_total orig (file ∷ files) = elim (match_compound file.name) [
  | none ↦ part_total orig files
  | some o ↦ if text_eq o orig then file.size + part_total orig files else part_total orig files
]

abbrev pub has_part : Text → List CloudFile → Bool
has_part orig [] = false
has_part orig (file ∷ files) = elim (match_compound file.name) [
  | none ↦ has_part orig files
  | some o ↦ text_eq o orig || has_part orig files
]

abbrev pub size_of : Option CloudFile → ℕ
size_of none = 0
size_of (some cf) = cf.size

abbrev pub HasName : Text → Option CloudFile → Type 0
HasName orig none = Unit {0}
HasName orig (some cf) = cf.name ≡ orig

abbrev pub is_some {ℓ} : {A : Type ℓ} → Option A → Bool
is_some none = false
is_some (some a) = true

-- What one more part does to the entry of `other`.
lookup-add_part :
    (orig other : Text) (file : CloudFile) (m : Compounds)
    → HasName other (lookup other m)
    → let m' = add_part orig file m (lookup orig m) in
      (size_of (lookup other m') ≡ (
        if text_eq orig other
        then (if is_some (lookup other m)
            then (size_of (lookup other m) + file.size) % u64_mod
            else file.size)
        else size_of (lookup other m)))
      × (is_some (lookup other m') ≡ (text_eq orig other || is_some (lookup other m)))
      × HasName other (lookup other m')
unfolding add_part
lookup-add_part orig other file m h = elim (Option-cases (lookup orig m)) [
  | inl e ↦
      rw (e, add_part)
        (ground (arith, text_eq_iff orig other, lookup-insert orig other (set_name orig file) m))
  | inr (cf, e) ↦
      rw (e, add_part)
        (ground (
          arith,
          text_eq_iff orig other,
          lookup-insert orig other (set_size ((cf.size + file.size) % u64_mod) cf) m,
        ))
]

collapse-lookup :
    (files : List CloudFile) (m : Compounds) (orig : Text)
    → HasName orig (lookup orig m)
    → size_of (lookup orig m) + part_total orig files < u64_mod
    → let m' = (collapse files m).1 in
      (size_of (lookup orig m') ≡ size_of (lookup orig m) + part_total orig files)
      × (is_some (lookup orig m') ≡ (is_some (lookup orig m) || has_part orig files))
      × HasName orig (lookup orig m')
unfolding collapse
collapse-lookup [] m orig h b = ground arith
collapse-lookup (file ∷ files) m orig h b = elim (Option-cases (match_compound file.name)) [
  | inl e ↦ rw (e, collapse) (ground (arith, collapse-lookup files m orig h))
  | inr (o, e) ↦
      let one = lookup-add_part o orig file m h in
      let m' = add_part o file m (lookup o m) in
      rw (e, collapse) (ground (arith, one, collapse-lookup files m' orig one.2))
]

-- The entries that are no parts.
abbrev pub plain : List CloudFile → List CloudFile
plain [] = []
plain (file ∷ files) = elim (match_compound file.name) [
  | none ↦ file ∷ plain files
  | some _ ↦ plain files
]

collapse-plain : (files : List CloudFile) (m : Compounds) → (collapse files m).0 ≡ plain files
unfolding collapse
collapse-plain [] m = refl
collapse-plain (file ∷ files) m = elim (Option-cases (match_compound file.name)) [
  | inl e ↦ rw (e, collapse, plain) (ap (◌∷◌ file) (collapse-plain files m))
  | inr (o, e) ↦ rw (e, collapse, plain) (collapse-plain files _)
]

Mem-lookup :
    (k : Text) (m : Compounds) (cf : CloudFile)
    → lookup k m ≡ some cf
    → Mem cf (map (λ (_, v). v) m)
unfolding lookup
Mem-lookup k [] cf e = cc
Mem-lookup k ((j, v) ∷ m) cf e = elim (Bool-cases (text_eq j k)) [
  | inl hit ↦
      let same : v ≡ cf = ground arith in
      subst (λ x. Mem x (v ∷ map (λ (_, u). u) m)) same mem-cons_self
  | inr miss ↦ mem-cons_of_mem v (Mem-lookup k m cf (ground arith))
]

module _ (order : Compounds → Compounds) where
  -- Entries that are no parts stay, in their order, in front of the files that were put together.
  pub handle_compounds-plain :
      (files : List CloudFile)
      → handle_compounds order files
        ≡ plain files ++ map (λ (_, cf). cf) (order (collapse files []).1)
  unfolding handle_compounds
  handle_compounds-plain files =
      ap (λ k. k ++ map (λ (_, cf). cf) (order (collapse files []).1)) (collapse-plain files [])

  -- Whatever order the hash map is walked in: a file of which any part is listed is listed under its
  -- own name, with the sum of all its parts' sizes, if this sum is below 2^64.
  pub handle_compounds-Mem :
      (files : List CloudFile) (orig : Text)
      → ((m : Compounds) → Perm (order m) m)
      → has_part orig files ≡ true
      → part_total orig files < u64_mod
      → (cf : CloudFile) × Mem cf (handle_compounds order files)
        × (cf.name ≡ orig)
        × (cf.size ≡ part_total orig files)
  unfolding lookup
  handle_compounds-Mem files orig walk some_part bound =
      let m = (collapse files []).1 in
      let c = collapse-lookup files [] orig tt (omega arith) in
      elim (Option-cases (lookup orig m)) [
        | inl e ↦ absurd (ground (arith, c))
        | inr (cf, e) ↦ (
          cf,
          subst (Mem cf) (sym (handle_compounds-plain files)) (
              mem-append_right (plain files)
                ((Perm.mem_iff (Perm.map (λ (_, v). v) (walk m))).1 (Mem-lookup orig m cf e))),
          ground (arith, c),
          ground (arith, c),
        )
      ]
