-- ===== src/Compounds/Match.antt =====
-- `COMPOUND_REGEX` recognises the names of parts.
use marc_fs.Base.{
  ℕ, ◌≡◌, refl, ap, ◌∙◌, ◌↔◌, inl, inr, true, false, some, [], ◌∷◌, ◌++◌, arith, Bool-cases,
  Option-cases, length, is_nil, length-append, Text, codes,
}
use marc_fs.Base.Decimal.{to_string, all_digits, all_digits-to_string, to_string-not_nil}
use marc_fs.Parts.{suffix, part_name}
use marc_fs.Parts.Names.{split_at_dash}
use marc_fs.Compounds.{strip, is_part_suffix, is_line, before_suffix, match_compound}
use mathlib.Core.List.{append_assoc}

strip-eq-some : (ps t r : Text) → strip ps t ≡ some r → t ≡ ps ++ r
strip-eq-some [] t r e = ground arith
strip-eq-some (p ∷ ps) [] r e = cc
strip-eq-some (p ∷ ps) (c ∷ cs) r e = ground (arith, strip-eq-some ps cs r)

pub is_part_suffix-append :
    (ds : Text) → all_digits ds ≡ true → is_nil ds ≡ false → is_part_suffix (suffix ++ ds) ≡ true
unfolding is_part_suffix
is_part_suffix-append ds h k = ground arith

is_part_suffix-eq :
    (t : Text)
    → is_part_suffix t ≡ true
    → (ds : Text) × (t ≡ suffix ++ ds) × (all_digits ds ≡ true) × (is_nil ds ≡ false)
unfolding is_part_suffix
is_part_suffix-eq t h = elim (Option-cases (strip suffix t)) [
  | inl e ↦ absurd (ground arith)
  | inr (ds, e) ↦ (ds, strip-eq-some suffix t ds e, ground arith, ground arith)
]

abbrev stem : Text
stem = codes ".marcfs-part"

-- A suffix has no other before it.
not-is_part_suffix :
    (c : ℕ) (p ds : Text) → all_digits ds ≡ true → is_part_suffix (c ∷ p ++ (suffix ++ ds)) ≡ false
not-is_part_suffix c p ds h = elim (Bool-cases (is_part_suffix (c ∷ p ++ (suffix ++ ds)))) [
  | inl found ↦
      let (es, e, digits, _) = is_part_suffix-eq _ found in
      let same =
        split_at_dash (c ∷ p ++ stem) stem ds es h digits
          (append_assoc (c ∷ p) stem (45 ∷ ds) ∙ e) in
      absurd (omega (arith, ap length same.0, length-append (c ∷ p) stem))
  | inr e ↦ e
]

before_suffix-append :
    (p ds : Text)
    → all_digits ds ≡ true
    → is_nil ds ≡ false
    → before_suffix (p ++ (suffix ++ ds)) ≡ some p
unfolding before_suffix
before_suffix-append [] ds h k = rw (is_part_suffix-append ds h k)
before_suffix-append (c ∷ p) ds h k =
    ground (arith, not-is_part_suffix c p ds h, before_suffix-append p ds h k)

before_suffix-eq :
    (t p : Text)
    → before_suffix t ≡ some p
    → (ds : Text) × (t ≡ p ++ (suffix ++ ds)) × (all_digits ds ≡ true) × (is_nil ds ≡ false)
unfolding before_suffix
before_suffix-eq [] p e = cc
before_suffix-eq (c ∷ cs) p e = elim (Bool-cases (is_part_suffix (c ∷ cs))) [
  | inl here ↦
      let (ds, f, digits, some_ds) = is_part_suffix-eq (c ∷ cs) here in
      (ds, ground arith, digits, some_ds)
  | inr later ↦ elim (Option-cases (before_suffix cs)) [
    | inl e' ↦ absurd (ground arith)
    | inr (q, e') ↦
        let (ds, f, digits, some_ds) = before_suffix-eq cs q e' in
        (ds, ground arith, digits, some_ds)
  ]
]

-- A name is taken for a part exactly if it is a nonempty line followed by the suffix and a row of
-- digits, and that line is then the file's name.
pub match_compound_iff :
    (name orig : Text)
    → (match_compound name ≡ some orig) ↔ (
        (is_nil orig ≡ false)
        × (is_line orig ≡ true)
        × ((ds : Text) × (name ≡ orig ++ (suffix ++ ds))
            × (all_digits ds ≡ true)
            × (is_nil ds ≡ false)))
unfolding match_compound
match_compound_iff name orig = (
  λ e. elim (Option-cases (before_suffix name)) [
    | inl none_found ↦ absurd (ground arith)
    | inr (p, found) ↦
        let (ds, f, digits, some_ds) = before_suffix-eq name p found in
        let same : p ≡ orig = ground arith in
        (ground arith, ground arith, (ds, f ∙ ap (λ x. x ++ (suffix ++ ds)) same, digits, some_ds))
  ],
  λ (n, l, split).
      let (ds, e, digits, some_ds) = split in
      rw e (rw (before_suffix-append orig ds digits some_ds, match_compound) (ground arith)),
)

-- The name of a part, made for a nonempty path without line ends, is taken apart into that path
-- again.
pub match_compound-part_name :
    (path : Text) (i : ℕ)
    → is_nil path ≡ false
    → is_line path ≡ true
    → match_compound (part_name path i) ≡ some path
unfolding part_name
match_compound-part_name path i n l =
    (match_compound_iff (path ++ (suffix ++ to_string i)) path).1
      (n, l, (to_string i, refl, all_digits-to_string i, to_string-not_nil i))
