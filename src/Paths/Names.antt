-- ===== src/Paths/Names.antt =====
-- How the client takes a remote path apart.
use marc_fs.Base.{
  ℕ, ◌-◌, ◌≡◌, sym, ap, subst, ◌∙◌, inl, inr, Bool, true, Option, none, some, [], ◌∷◌, ◌++◌, arith,
  Option-cases, length, take, length-append, take-append_length, Text,
}
use mathlib.Core.List.{append_assoc, append_cancel_right}
use marc_fs.Paths.{
  split_last, split_last-some, split_last-none, split_last-none_of, split_last-append, none_of,
  base_name, parent_of, is_separator,
}

split_base :
    (a name : Text) (c : ℕ)
    → take (length (a ++ (c ∷ name)) - length name) (a ++ (c ∷ name)) ++ name ≡ a ++ (c ∷ name)
split_base a name c =
    let front = a ++ (c ∷ []) in
    let whole : front ++ name ≡ a ++ (c ∷ name) = append_assoc a (c ∷ []) name in
    subst (λ p. take (length p - length name) p ++ name ≡ p) whole
      (let len : length (front ++ name) - length name ≡ length front =
          omega (arith, length-append front name) in
        ap (λ k. take k (front ++ name) ++ name) len
        ∙ ap (λ t. t ++ name) (take-append_length front name))

with_base :
    (path name : Text)
    → base_name path ≡ name
    → (take (length path - length name) path ++ name ≡ path) × (none_of is_separator name ≡ true)
    → (parent_of path ++ base_name path ≡ path) × (none_of is_separator (base_name path) ≡ true)
unfolding parent_of
with_base path name same h =
    subst (λ n. (take (length path - length n) path ++ n ≡ path) × (none_of is_separator n ≡ true))
      (sym same) h

-- The folder and the file's name of a path, put together, are the path, and no slash or backslash is
-- left in the name.
pub parent_of-base_name :
    (path : Text)
    → (parent_of path ++ base_name path ≡ path) × (none_of is_separator (base_name path) ≡ true)
unfolding parent_of base_name
parent_of-base_name path = elim (Option-cases (split_last is_separator path)) [
  | inl missing ↦
      let same : base_name path ≡ path =
        λ i. elim (missing i) [ none ↦ path | some (_, name) ↦ name ] in
      with_base path path same (
        let none_there : length path - length path ≡ 0 = omega arith in
            ap (λ k. take k path ++ path) none_there,
        split_last-none is_separator path missing,
      )
  | inr ((a, name), found) ↦
      let (c, is_sep, whole, rest) = split_last-some is_separator path a name found in
      let same : base_name path ≡ name =
        λ i. elim (found i) [ none ↦ path | some (_, part) ↦ part ] in
      with_base path name same (
        subst (λ p. take (length p - length name) p ++ name ≡ p) (sym whole) (split_base a name c),
        rest,
      )
]

none_of-append :
    (p : ℕ → Bool) (a b : Text)
    → none_of p a ≡ true
    → none_of p b ≡ true
    → none_of p (a ++ b) ≡ true
none_of-append p [] b h k = k
none_of-append p (c ∷ a) b h k = ground (arith, none_of-append p a b)

abbrev extended : Text → Option (Text × Text) → Option (Text × Text)
extended s none = none
extended s (some (a, b)) = some (a, b ++ s)

split_last-extended :
    (p : ℕ → Bool) (path s : Text)
    → none_of p s ≡ true
    → split_last p (path ++ s) ≡ extended s (split_last p path)
unfolding split_last
split_last-extended p [] s h = split_last-none_of p s h
split_last-extended p (c ∷ path) s h = ground (arith, split_last-extended p path s h)

-- A name that is followed by characters that are no separators is a longer name.
pub base_name-append :
    (path s : Text) → none_of is_separator s ≡ true → base_name (path ++ s) ≡ base_name path ++ s
unfolding base_name
base_name-append path s h = ground (arith, split_last-extended is_separator path s h)

-- It stands in the same folder.
pub parent_of-append :
    (path s : Text) → none_of is_separator s ≡ true → parent_of (path ++ s) ≡ parent_of path
parent_of-append path s h =
    append_cancel_right (parent_of (path ++ s)) (parent_of path) (base_name path ++ s) (
      ap (λ b. parent_of (path ++ s) ++ b) (sym (base_name-append path s h))
      ∙ ((parent_of-base_name (path ++ s)).0
          ∙ (ap (λ b. b ++ s) (sym (parent_of-base_name path).0)
              ∙ append_assoc (parent_of path) (base_name path) s)))

base_name-none : (n : Text) → none_of is_separator n ≡ true → base_name n ≡ n
unfolding base_name
base_name-none n h i = elim (split_last-none_of is_separator n h i) [
  | none ↦ n
  | some (_, name) ↦ name
]

base_name-behind :
    (a n : Text) (c : ℕ)
    → is_separator c ≡ true
    → none_of is_separator n ≡ true
    → base_name (a ++ (c ∷ n)) ≡ n
unfolding base_name
base_name-behind a n c k h i = elim (split_last-append is_separator a n c k h i) [
  | none ↦ a ++ (c ∷ n)
  | some (_, name) ↦ name
]

base_name-parent_of :
    (r n : Text) → none_of is_separator n ≡ true → base_name (parent_of r ++ n) ≡ n
unfolding parent_of
base_name-parent_of r n h = elim (Option-cases (split_last is_separator r)) [
  | inl missing ↦
      let all = base_name-none r (split_last-none is_separator r missing) in
      let zero_length : length r - length r ≡ 0 = omega arith in
      ap (λ b. base_name (take (length r - length b) r ++ n)) all
      ∙ (ap (λ k. base_name (take k r ++ n)) zero_length ∙ base_name-none n h)
  | inr ((a, name), found) ↦
      let (c, is_sep, whole, rest) = split_last-some is_separator r a name found in
      let last : base_name r ≡ name = ap base_name whole ∙ base_name-behind a name c is_sep rest in
      let front : parent_of r ≡ a ++ (c ∷ []) =
        append_cancel_right (parent_of r) (a ++ (c ∷ [])) name (
          ap (λ b. parent_of r ++ b) (sym last)
          ∙ ((parent_of-base_name r).0 ∙ (whole ∙ sym (append_assoc a (c ∷ []) name)))) in
      ap (λ f. base_name (f ++ n)) front
      ∙ (ap base_name (append_assoc a (c ∷ []) n) ∙ base_name-behind a n c is_sep h)
]

-- A file's name in another file's folder.
pub base_name-detour : (p q : Text) → base_name (parent_of p ++ base_name q) ≡ base_name q
base_name-detour p q = base_name-parent_of p (base_name q) (parent_of-base_name q).1
