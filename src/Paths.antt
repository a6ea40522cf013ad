-- ===== src/Paths.antt =====
-- `find_last_of` and the two `substr` around it.
pub mod Names
use marc_fs.Base.{
  ℕ, zero, suc, ◌+◌, ◌-◌, ◌*◌, ◌/◌, ◌%◌, ◌^◌, ◌≤◌, ◌<◌, min, max, ◌≡◌, refl, sym, ap, subst, ◌∙◌,
  fun_ext, ◌≢◌, ◌↔◌, ◌⊎◌, inl, inr, Bool, true, false, not, ◌&&◌, ◌||◌, Option, none, some, List,
  [], ◌∷◌, ◌++◌, map, arith, ltb, leb, ◌==◌, if◌then◌else◌, ltb→lt, lt→ltb, le→ltb, ltb→le, leb→le,
  ==_iff, Bool-cases, Option-cases, length, is_nil, take, drop, replicate, length-append,
  length-take, length-drop, length-replicate, take-append-drop, take_all, drop_all, take-append,
  drop-append, drop-append_length, take-append_length, drop-nil, drop-drop, length-eq-zero, ℤ, pos,
  negsuc, u64_mod, u32_mod, int_max, to_int, to_int_small, Exc, mail, failure, undefined, blocked,
  Result, ok, fail, M, pure, throw, bind_result, ◌>>=◌, ◌>>◌, Bytes, Text, codes, text_eq,
  text_eq_iff, text_eq_refl,
}

-- What stands before and behind the last character of a kind.
unfoldable pub split_last : (ℕ → Bool) → Text → Option (Text × Text)
split_last p [] = none
split_last p (c ∷ cs) = elim (split_last p cs) [
  | some (a, b) ↦ some (c ∷ a, b)
  | none ↦ if p c then some ([], cs) else none
]

abbrev pub none_of : (ℕ → Bool) → Text → Bool
none_of p [] = true
none_of p (c ∷ cs) = not (p c) && none_of p cs

pub split_last-none : (p : ℕ → Bool) (t : Text) → split_last p t ≡ none → none_of p t ≡ true
unfolding split_last
split_last-none p [] e = refl
split_last-none p (c ∷ cs) e = ground (arith, split_last-none p cs)

-- A path is its front, a character of the kind, and its last part, which has none of the kind.
pub split_last-some :
    (p : ℕ → Bool) (t a b : Text)
    → split_last p t ≡ some (a, b)
    → (c : ℕ) × (p c ≡ true) × (t ≡ a ++ (c ∷ b)) × (none_of p b ≡ true)
unfolding split_last
split_last-some p [] a b e = cc
split_last-some p (d ∷ cs) a b e = elim (Option-cases (split_last p cs)) [
  | inl f ↦ (d, ground arith, ground arith, ground (arith, split_last-none p cs f))
  | inr ((a', b'), f) ↦
      let (c, is_sep, whole, rest) = split_last-some p cs a' b' f in
      (c, is_sep, ground arith, ground arith)
]

pub split_last-none_of : (p : ℕ → Bool) (t : Text) → none_of p t ≡ true → split_last p t ≡ none
unfolding split_last
split_last-none_of p [] h = refl
split_last-none_of p (c ∷ cs) h = ground (arith, split_last-none_of p cs)

pub split_last-append :
    (p : ℕ → Bool) (a b : Text) (c : ℕ)
    → p c ≡ true
    → none_of p b ≡ true
    → split_last p (a ++ (c ∷ b)) ≡ some (a, b)
unfolding split_last
split_last-append p [] b c h k = ground (arith, split_last-none_of p b k)
split_last-append p (d ∷ a) b c h k = rw (split_last-append p a b c h k, split_last)

abbrev pub is_slash : ℕ → Bool
is_slash c = c == 47

abbrev pub ends_with_slash : Text → Bool
ends_with_slash [] = false
ends_with_slash (c ∷ []) = is_slash c
ends_with_slash (c ∷ (d ∷ t)) = ends_with_slash (d ∷ t)

-- What the client takes for the end of a folder's name.
abbrev pub is_separator : ℕ → Bool
is_separator c = c == 47 || c == 92

-- The file's name in its folder. `find_last_of("/\\") + 1` is 0 where there is no separator.
unfoldable pub base_name : Text → Text
base_name path = elim (split_last is_separator path) [ none ↦ path | some (_, name) ↦ name ]

-- The folder with its separator.
unfoldable pub parent_of : Text → Text
parent_of path = take (length path - length (base_name path)) path
