-- ===== src/Parts/Names.antt =====
-- A part's name tells the file and the number of the part.
use marc_fs.Base.{
  ℕ, ◌<◌, ◌≡◌, refl, sym, ap, ◌∙◌, ◌≢◌, true, false, [], ◌∷◌, ◌++◌, arith, ◌==◌, length,
  length-append, Text, codes, text_eq, text_eq_iff,
}
use marc_fs.Base.Decimal.{to_string, to_string-injective, all_digits, all_digits-to_string}
use marc_fs.Parts.{suffix, part_name}
use mathlib.Core.List.{append_cancel_right, append_assoc}

all_digits-dash : (ys es : Text) → all_digits (ys ++ (45 ∷ es)) ≡ false
all_digits-dash [] es = refl
all_digits-dash (y ∷ ys) es = ground (arith, all_digits-dash ys es)

-- Digits have no dash, so the last dash tells where they begin.
pub split_at_dash :
    (xs ys ds es : Text)
    → all_digits ds ≡ true
    → all_digits es ≡ true
    → xs ++ (45 ∷ ds) ≡ ys ++ (45 ∷ es)
    → (xs ≡ ys) × (ds ≡ es)
split_at_dash [] [] ds es p q e = ground arith
split_at_dash [] (y ∷ ys) ds es p q e = absurd (ground (arith, all_digits-dash ys es))
split_at_dash (x ∷ xs) [] ds es p q e = absurd (ground (arith, all_digits-dash xs ds))
split_at_dash (x ∷ xs) (y ∷ ys) ds es p q e = ground (arith, split_at_dash xs ys ds es p q)

abbrev stem : Text
stem = codes ".marcfs-part"

part_name-stem : (path : Text) (i : ℕ) → part_name path i ≡ (path ++ stem) ++ (45 ∷ to_string i)
unfolding part_name
part_name-stem path i = sym (append_assoc path stem (45 ∷ to_string i))

-- Two part names are equal only if they name the same part of the same path.
pub part_name-injective : (p q : Text) (i j : ℕ) → part_name p i ≡ part_name q j → (p ≡ q) × (i ≡ j)
part_name-injective p q i j e =
    let (a, b) =
      split_at_dash (p ++ stem) (q ++ stem) (to_string i) (to_string j) (all_digits-to_string i)
        (all_digits-to_string j) (sym (part_name-stem p i) ∙ (e ∙ part_name-stem q j)) in
    (append_cancel_right p q stem a, to_string-injective i j b)

pub length-part_name : (p : Text) (i : ℕ) → length p < length (part_name p i)
unfolding part_name
length-part_name p i =
    omega (arith, length-append p (suffix ++ to_string i), length-append suffix (to_string i))

-- A part has another name than the file.
pub part_name-ne : (p : Text) (i : ℕ) → text_eq p (part_name p i) ≡ false
part_name-ne p i =
    ground (arith, text_eq_iff p (part_name p i), length-part_name p i, long p (part_name p i))
  where
    long : (a b : Text) → length a < length b → a ≢ b
    long a b h e = omega (arith, ap length e)

pub part_name-ne_sym : (p : Text) (i : ℕ) → text_eq (part_name p i) p ≡ false
part_name-ne_sym p i =
    ground (arith, text_eq_iff p (part_name p i), text_eq_iff (part_name p i) p, part_name-ne p i)

pub text_eq-part_name : (p : Text) (i j : ℕ) → text_eq (part_name p i) (part_name p j) ≡ (i == j)
text_eq-part_name p i j = ground (
  arith,
  text_eq_iff (part_name p i) (part_name p j),
  λ (e : part_name p i ≡ part_name p j). (part_name-injective p p i j e).1,
  λ (e : i ≡ j). ap (part_name p) e,
)

-- Parts with different numbers have different names, whatever the files are.
pub part_name-ne_index :
    (p q : Text) (i j : ℕ) → i ≢ j → text_eq (part_name p i) (part_name q j) ≡ false
part_name-ne_index p q i j h = ground (
  arith,
  text_eq_iff (part_name p i) (part_name q j),
  λ (e : part_name p i ≡ part_name q j). (part_name-injective p q i j e).1,
)
