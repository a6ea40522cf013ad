-- ===== src/Start/Hiding/Laws.antt =====
-- What other processes see of the arguments.
use marc_fs.Base.{
  ℕ, ◌+◌, ◌-◌, ◌<◌, ◌≡◌, sym, ap, subst, ◌∙◌, ◌⊎◌, inl, inr, none, some, [], ◌∷◌, ◌++◌, arith, ltb,
  if◌then◌else◌, length, drop, length-append, length-replicate, drop-append_length, u64_mod, Text,
}
use mathlib.Core.List.{append-nil, append_assoc}
use marc_fs.Start.Hiding.{
  user_key, password_key, find, hide_behind, hide_sensitive_data, rest_behind, hide_at, hide_second,
  hide_argument,
}
use marc_fs.Start.Hiding.Values.{
  stars, IsKey, user_key-IsKey, password_key-IsKey, hide_sensitive_data-middle,
}

-- An argument with two parameters, and a character between them.
abbrev pub two_given : Text → Text → Text → ℕ → Text → Text → Text
two_given pre key value c key' value' = pre ++ (key ++ (value ++ (c ∷ (key' ++ value'))))

-- Where the second parameter stands.
abbrev pub second_place : Text → Text → ℕ
second_place pre value = length pre + (9 + (length value + 1))

length-two_given :
    (pre key value : Text) (c : ℕ) (key' value' : Text)
    → IsKey key
    → IsKey key'
    → length (two_given pre key value c key' value') ≡ second_place pre value + (9 + length value')
length-two_given pre key value c key' value' k k' = omega (
  arith,
  k.nine,
  k'.nine,
  length-append pre (key ++ (value ++ (c ∷ (key' ++ value')))),
  length-append key (value ++ (c ∷ (key' ++ value'))),
  length-append value (c ∷ (key' ++ value')),
  length-append key' value',
)

first-hidden :
    (pre key value : Text) (c : ℕ) (key' value' : Text)
    → IsKey key
    → IsKey key'
    → length (two_given pre key value c key' value') < u64_mod
    → hide_at
        (some (length pre))
        (some (second_place pre value))
        (two_given pre key value c key' value')
      ≡ some (two_given pre key (stars value) c key' value')
unfolding hide_at rest_behind
first-hidden pre key value c key' value' k k' h =
    let arg = two_given pre key value c key' value' in
    let rest : (if ltb (length pre) (second_place pre value)
          then length arg - second_place pre value + 1
          else 0)
        ≡ length (c ∷ (key' ++ value')) =
      ground (
        arith,
        k'.nine,
        length-two_given pre key value c key' value' k k',
        length-append key' value',
      ) in
    ap (λ n. hide_sensitive_data (length pre) n arg) rest
    ∙ hide_sensitive_data-middle pre key value (c ∷ (key' ++ value')) k h

last-hidden :
    (pre key value : Text) (c : ℕ) (key' value' : Text)
    → IsKey key
    → IsKey key'
    → length (two_given pre key value c key' value') < u64_mod
    → hide_at
        (some (second_place pre value))
        (some (length pre))
        (two_given pre key value c key' value')
      ≡ some (two_given pre key value c key' (stars value'))
unfolding hide_at rest_behind
last-hidden pre key value c key' value' k k' h =
    let arg = two_given pre key value c key' value' in
    let front = pre ++ (key ++ (value ++ (c ∷ []))) in
    let split : (t : Text) → front ++ (key' ++ t) ≡ two_given pre key value c key' t = λ t.
      append_assoc pre (key ++ (value ++ (c ∷ []))) (key' ++ t)
      ∙ ap (λ x. pre ++ x)
          (append_assoc key (value ++ (c ∷ [])) (key' ++ t)
            ∙ ap (λ x. key ++ x) (append_assoc value (c ∷ []) (key' ++ t))) in
    let place : second_place pre value ≡ length front = omega (
      arith,
      k.nine,
      length-append pre (key ++ (value ++ (c ∷ []))),
      length-append key (value ++ (c ∷ [])),
      length-append value (c ∷ []),
    ) in
    let none_behind : (if ltb (second_place pre value) (length pre)
          then length arg - length pre + 1
          else 0)
        ≡ 0 =
      ground arith in
    let whole : front ++ (key' ++ (value' ++ [])) ≡ arg =
      ap (λ t. front ++ (key' ++ t)) (append-nil value') ∙ split value' in
    ap (λ n. hide_sensitive_data (second_place pre value) n arg) none_behind
    ∙ (ap (λ n. hide_sensitive_data n 0 arg) place
        ∙ (ap (hide_sensitive_data (length front) 0) (sym whole)
            ∙ (hide_sensitive_data-middle front key' value' [] k'
                  (subst (λ t. length t < u64_mod) (sym whole) h)
                ∙ ap some (
                    ap (λ t. front ++ (key' ++ t)) (append-nil (stars value'))
                    ∙ split (stars value')))))

length-stars : (t : Text) → length (stars t) ≡ length t
length-stars t = length-replicate (length t) 42

-- The first parameter is hidden already.
last-hidden-stars :
    (pre key value : Text) (c : ℕ) (key' value' : Text)
    → IsKey key
    → IsKey key'
    → length (two_given pre key value c key' value') < u64_mod
    → hide_at
        (some (second_place pre value))
        (some (length pre))
        (two_given pre key (stars value) c key' value')
      ≡ some (two_given pre key (stars value) c key' (stars value'))
last-hidden-stars pre key value c key' value' k k' h =
    let arg = two_given pre key (stars value) c key' value' in
    let place : second_place pre value ≡ second_place pre (stars value) =
      omega (arith, length-stars value) in
    ap (λ n. hide_at (some n) (some (length pre)) arg) place
    ∙ last-hidden pre key (stars value) c key' value' k k' (
        omega (
          arith,
          length-stars value,
          length-two_given pre key value c key' value' k k',
          length-two_given pre key (stars value) c key' value' k k',
        ))

-- And here the second one is.
first-hidden-stars :
    (pre key value : Text) (c : ℕ) (key' value' : Text)
    → IsKey key
    → IsKey key'
    → length (two_given pre key value c key' value') < u64_mod
    → hide_at
        (some (length pre))
        (some (second_place pre value))
        (two_given pre key value c key' (stars value'))
      ≡ some (two_given pre key (stars value) c key' (stars value'))
first-hidden-stars pre key value c key' value' k k' h =
    first-hidden pre key value c key' (stars value') k k' (
      omega (
        arith,
        length-stars value',
        length-two_given pre key value c key' value' k k',
        length-two_given pre key value c key' (stars value') k k',
      ))

-- An argument that gives a user and a password, in either order with one character between the two,
-- where the two keys stand nowhere before: both values become asterisks, of their lengths, and the rest
-- stays as it is.
pub hide_argument-two_given :
    (pre key value : Text) (c : ℕ) (key' value' : Text)
    → ((key ≡ user_key) × (key' ≡ password_key)) ⊎ ((key ≡ password_key) × (key' ≡ user_key))
    → find key (two_given pre key value c key' value') ≡ some (length pre)
    → find key' (two_given pre key value c key' value') ≡ some (second_place pre value)
    → length (two_given pre key value c key' value') < u64_mod
    → hide_argument (two_given pre key value c key' value')
      ≡ some (two_given pre key (stars value) c key' (stars value'))
unfolding hide_argument
hide_argument-two_given pre key value c key' value' (inl (e, e')) f f' h =
    let arg = two_given pre key value c key' value' in
    let k : IsKey key = subst IsKey (sym e) user_key-IsKey in
    let k' : IsKey key' = subst IsKey (sym e') password_key-IsKey in
    let user : find user_key arg ≡ some (length pre) = ap (λ x. find x arg) (sym e) ∙ f in
    let pasw : find password_key arg ≡ some (second_place pre value) =
      ap (λ x. find x arg) (sym e') ∙ f' in
    (λ i. hide_second (user i) (pasw i) (hide_at (user i) (pasw i) arg))
    ∙ (ap (hide_second (some (length pre)) (some (second_place pre value)))
          (first-hidden pre key value c key' value' k k' h)
        ∙ last-hidden-stars pre key value c key' value' k k' h)
hide_argument-two_given pre key value c key' value' (inr (e, e')) f f' h =
    let arg = two_given pre key value c key' value' in
    let k : IsKey key = subst IsKey (sym e) password_key-IsKey in
    let k' : IsKey key' = subst IsKey (sym e') user_key-IsKey in
    let pasw : find password_key arg ≡ some (length pre) = ap (λ x. find x arg) (sym e) ∙ f in
    let user : find user_key arg ≡ some (second_place pre value) =
      ap (λ x. find x arg) (sym e') ∙ f' in
    (λ i. hide_second (user i) (pasw i) (hide_at (user i) (pasw i) arg))
    ∙ (ap (hide_second (some (second_place pre value)) (some (length pre)))
          (last-hidden pre key value c key' value' k k' h)
        ∙ first-hidden-stars pre key value c key' value' k k' h)

-- The parameter `username` without a value and a separator before `password`: the length wraps around
-- zero, and the loop writes beyond the argument.
pub hide_argument_adjacent :
    (pre word : Text)
    → find user_key (pre ++ (user_key ++ (password_key ++ word))) ≡ some (length pre)
    → find password_key (pre ++ (user_key ++ (password_key ++ word))) ≡ some (length pre + 9)
    → length (pre ++ (user_key ++ (password_key ++ word))) + 1 < u64_mod
    → hide_argument (pre ++ (user_key ++ (password_key ++ word))) ≡ none
unfolding hide_argument hide_at rest_behind hide_sensitive_data
hide_argument_adjacent pre word f f' h =
    let arg = pre ++ (user_key ++ (password_key ++ word)) in
    let rest : (if ltb (length pre) (length pre + 9) then length arg - (length pre + 9) + 1 else 0)
        ≡ length arg - (length pre + 9) + 1 =
      ground arith in
    let sign : find (61 ∷ []) (drop (length pre) arg) ≡ some 8 =
      ap (find (61 ∷ [])) (drop-append_length pre (user_key ++ (password_key ++ word)))
      ∙ user_key-IsKey.equal_sign (password_key ++ word) in
    let size : length arg ≡ length pre + (9 + (9 + length word)) =
      omega (arith, length-append pre (user_key ++ (password_key ++ word))) in
    let beyond : hide_behind (some 8) (length pre) (length arg - (length pre + 9) + 1) arg ≡ none =
      ground (arith, size) in
    (λ i. hide_second (f i) (f' i) (hide_at (f i) (f' i) arg))
    ∙ ap (hide_second (some (length pre)) (some (length pre + 9)))
        ((λ i. hide_behind (sign i) (length pre) (rest i) arg) ∙ beyond)
