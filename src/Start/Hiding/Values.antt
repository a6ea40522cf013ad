-- ===== src/Start/Hiding/Values.antt =====
-- One parameter of an argument, hidden.
use marc_fs.Base.{
  ◌+◌, ◌-◌, ◌<◌, ◌≡◌, refl, sym, ap, ◌∙◌, true, none, some, [], ◌∷◌, ◌++◌, arith, leb,
  if◌then◌else◌, length, drop, replicate, length-append, length-replicate, drop-append_length,
  take-append_length, drop-drop, u64_mod, Text,
}
use mathlib.Core.List.{append_assoc}
use marc_fs.Base.Slices.{overwrite}
use marc_fs.Start.Hiding.{
  user_key, password_key, find, hidden_length, asterisks, hide_behind, hide_sensitive_data,
}

abbrev pub stars : Text → Text
stars t = replicate (length t) 42

-- One of the two keys: nine characters, of which the last is the first equal sign.
pub record IsKey (key : Text) : Type 0 where
  pub nine : length key ≡ 9
  pub equal_sign : (t : Text) → find (61 ∷ []) (key ++ t) ≡ some 8

pub user_key-IsKey : IsKey user_key
unfolding find
user_key-IsKey = record { nine = refl; equal_sign = λ t. refl }

pub password_key-IsKey : IsKey password_key
unfolding find
password_key-IsKey = record { nine = refl; equal_sign = λ t. refl }

overwrite-middle :
    (front value stuff rest : Text)
    → length stuff ≡ length value
    → overwrite (length front) stuff (front ++ (value ++ rest)) ≡ front ++ (stuff ++ rest)
unfolding overwrite
overwrite-middle front value stuff rest e = (λ i.
    take-append_length front (value ++ rest) i
    ++ (stuff
        ++ (sym (drop-drop (length stuff) (length front) (front ++ (value ++ rest)))
              ∙ (ap (drop (length stuff)) (drop-append_length front (value ++ rest))
                  ∙ (ap (λ n. drop n (value ++ rest)) e ∙ drop-append_length value rest)))
            i))

asterisks-middle :
    (front value rest : Text)
    → asterisks (length value) (length front) (front ++ (value ++ rest))
      ≡ some (front ++ (stars value ++ rest))
asterisks-middle front value rest =
    let fits : leb (length front + length value) (length (front ++ (value ++ rest))) ≡ true =
      ground (arith, length-append front (value ++ rest), length-append value rest) in
    ap
      (λ inside.
        if inside
        then some (overwrite (length front) (stars value) (front ++ (value ++ rest)))
        else none)
      fits
    ∙ ap some (overwrite-middle front value (stars value) rest (length-replicate (length value) 42))

pub hide_sensitive_data-middle :
    (pre key value rest : Text)
    → IsKey key
    → length (pre ++ (key ++ (value ++ rest))) < u64_mod
    → hide_sensitive_data (length pre) (length rest) (pre ++ (key ++ (value ++ rest)))
      ≡ some (pre ++ (key ++ (stars value ++ rest)))
unfolding hide_sensitive_data
hide_sensitive_data-middle pre key value rest k h =
    let arg = pre ++ (key ++ (value ++ rest)) in
    let size : length arg ≡ length (pre ++ key) + (length value + length rest) = omega (
      arith,
      length-append pre (key ++ (value ++ rest)),
      length-append key (value ++ rest),
      length-append value rest,
      length-append pre key,
    ) in
    let sign : find (61 ∷ []) (drop (length pre) arg) ≡ some 8 =
      ap (find (61 ∷ [])) (drop-append_length pre (key ++ (value ++ rest)))
      ∙ k.equal_sign (value ++ rest) in
    let start : length pre + 8 + 1 ≡ length (pre ++ key) =
      omega (arith, k.nine, length-append pre key) in
    let len : hidden_length (length arg - length (pre ++ key)) (length rest) ≡ length value =
      omega (arith, k.nine, size) in
    ap (λ o. hide_behind o (length pre) (length rest) arg) sign
    ∙ (ap (λ n. asterisks (hidden_length (length arg - n) (length rest)) n arg) start
        ∙ (ap (λ n. asterisks n (length (pre ++ key)) arg) len
            ∙ (ap (asterisks (length value) (length (pre ++ key)))
                  (sym (append_assoc pre key (value ++ rest)))
                ∙ (asterisks-middle (pre ++ key) value rest
                    ∙ ap some (append_assoc pre key (stars value ++ rest))))))
