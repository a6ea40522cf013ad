-- ===== src/Node/Ways.antt =====
-- What stands in the way of a rename into another folder.
use marc_fs.Base.{ℕ, ◌≡◌, refl, sym, ap, ◌∙◌, ◌≢◌, ◌⊎◌, inl, inr, true, [], ◌∷◌, ◌++◌, arith, Text}
use marc_fs.Base.Decimal.{to_string, all_digits, all_digits-to_string}
use mathlib.Core.List.{append_assoc}
use marc_fs.Paths.{none_of, is_separator, base_name, parent_of}
use marc_fs.Paths.Names.{base_name-append, parent_of-append}
use marc_fs.Cloud.{Entry, absent, set_entry, detour, HasWay}
use marc_fs.Parts.{part_name, suffix}
use marc_fs.Parts.Names.{part_name-ne_index}
use marc_fs.Node.Exact.{IsClear}

digits-none_of : (ds : Text) → all_digits ds ≡ true → none_of is_separator ds ≡ true
digits-none_of [] h = refl
digits-none_of (d ∷ ds) h = ground (arith, digits-none_of ds)

suffix-none_of : (i : ℕ) → none_of is_separator (suffix ++ to_string i) ≡ true
suffix-none_of i = digits-none_of (to_string i) (all_digits-to_string i)

detour-part_name :
    (old new : Text) (i : ℕ)
    → detour (part_name old i) (part_name new i) ≡ part_name (detour old new) i
unfolding part_name
detour-part_name old new i =
    let s = suffix ++ to_string i in
    (λ k.
      parent_of-append old s (suffix-none_of i) k ++ base_name-append new s (suffix-none_of i) k)
    ∙ sym (append_assoc (parent_of old) (base_name new) s)

-- Nothing is in the way of the file or of any of its parts, or the file keeps its name.
abbrev pub HasWays : (Text → Entry) → Text → Text → Type 0
HasWays f old new = IsClear f (detour old new) ⊎ (detour old new ≡ old)

pub HasWays-HasWay : (f : Text → Entry) (old new : Text) → HasWays f old new → HasWay f old new
HasWays-HasWay f old new (inl x) = inl x.whole
HasWays-HasWay f old new (inr e) = inr e

pub HasWays-parts :
    (f : Text → Entry) (old new : Text) (i : ℕ)
    → HasWays f old new
    → HasWay f (part_name old i) (part_name new i)
HasWays-parts f old new i (inl x) = inl (ap f (detour-part_name old new i) ∙ x.parts i)
HasWays-parts f old new i (inr e) = inr (detour-part_name old new i ∙ ap (λ p. part_name p i) e)

-- A part that has been moved is in no other part's way.
pub HasWay-set_entry :
    (f : Text → Entry) (e : Entry) (old new : Text) (i j : ℕ)
    → i ≢ j
    → HasWay f (part_name old j) (part_name new j)
    → HasWay
        (set_entry (part_name new i) e (set_entry (part_name old i) absent f))
        (part_name old j)
        (part_name new j)
HasWay-set_entry f e old new i j ne (inl free) =
    let d = detour old new in
    let here = detour-part_name old new j in
    inl (
      ap (set_entry (part_name new i) e (set_entry (part_name old i) absent f)) here
      ∙ ground (
        arith,
        sym (ap f here) ∙ free,
        part_name-ne_index d new j i,
        part_name-ne_index d old j i,
      ))
HasWay-set_entry f e old new i j ne (inr same) = inr same
