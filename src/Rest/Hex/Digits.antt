-- ===== src/Rest/Hex/Digits.antt =====
-- The short content can be read off its hash, if all its bytes are nonnegative as `char`s.
use marc_fs.Base.{
  ℕ, zero, suc, ◌+◌, ◌-◌, ◌*◌, ◌/◌, ◌%◌, ◌≤◌, ◌<◌, ◌≡◌, refl, sym, ap, ◌∙◌, ◌⊎◌, inl, inr, Bool,
  true, false, not, ◌&&◌, [], ◌∷◌, ◌++◌, arith, ltb, leb, ◌==◌, if◌then◌else◌, Bool-cases, length,
  is_nil, replicate, length-append, length-replicate, ok, Bytes, Text,
}
use mathlib.Core.List.{append-nil}
use marc_fs.Cloud.{is_ascii}
use marc_fs.Rest.Hex.{hex_digit, hex_byte, hex_digits, pad_zero, to_padded_40_hex}

abbrev pub are_bytes : Bytes → Bool
are_bytes [] = true
are_bytes (b ∷ bs) = ltb b 256 && are_bytes bs

-- The bytes that a `char` shows as negative.
abbrev pub high_bytes : Bytes → ℕ
high_bytes [] = 0
high_bytes (b ∷ bs) = (if leb 128 b then 1 else 0) + high_bytes bs

-- A digit's value, and the bytes that a row of digits stands for.
abbrev pub digit_value : ℕ → ℕ
digit_value d = if ltb d 65 then d - 48 else d - 55

abbrev pub unhex : ℕ → Text → Bytes
unhex zero t = []
unhex (suc n) [] = []
unhex (suc n) (h ∷ []) = []
unhex (suc n) (h ∷ (l ∷ t)) = (digit_value h * 16 + digit_value l) ∷ unhex n t

length-hex_digits : (s : Bytes) → length (hex_digits true s) ≡ 2 * length s + 6 * high_bytes s
unfolding hex_digits hex_byte
length-hex_digits [] = refl
length-hex_digits (b ∷ s) = ground (arith, length-hex_digits s)

length-hex_digits_unsigned : (s : Bytes) → length (hex_digits false s) ≡ 2 * length s
unfolding hex_digits hex_byte
length-hex_digits_unsigned [] = refl
length-hex_digits_unsigned (b ∷ s) = omega (arith, length-hex_digits_unsigned s)

hex_digits-ascii : (s : Bytes) → is_ascii s ≡ true → hex_digits true s ≡ hex_digits false s
unfolding hex_digits hex_byte
hex_digits-ascii [] h = refl
hex_digits-ascii (b ∷ s) h = ground (arith, hex_digits-ascii s)

digit_value-hex_digit : (n : ℕ) → n < 16 → digit_value (hex_digit n) ≡ n
unfolding hex_digit
digit_value-hex_digit n h = ground arith

unhex-hex_digits :
    (s : Bytes) (rest : Text)
    → are_bytes s ≡ true
    → unhex (length s) (hex_digits false s ++ rest) ≡ s
unfolding hex_digits hex_byte
unhex-hex_digits [] rest h = refl
unhex-hex_digits (b ∷ s) rest h =
    ground (
      arith,
      unhex-hex_digits s rest,
      digit_value-hex_digit (b / 16),
      digit_value-hex_digit (b % 16),
    )

pad_zero-append :
    (filled : Bool) (n : ℕ) (digits : Text)
    → (rest : Text) × (pad_zero filled n digits ≡ digits ++ rest)
unfolding pad_zero
pad_zero-append filled n digits = elim (Bool-cases (ltb n 40)) [
  | inl short ↦ (replicate (40 - n - 1) (if filled then 48 else 32) ++ (48 ∷ []), rw short)
  | inr long ↦ elim (Bool-cases (n == 40)) [
    | inl exact ↦ ([], rw (long, exact) (sym (append-nil digits)))
    | inr beyond ↦ (48 ∷ [], rw (long, beyond))
  ]
]

length-pad_zero :
    (filled : Bool) (n : ℕ) (digits : Text)
    → length digits ≡ n
    → n ≤ 40
    → length (pad_zero filled n digits) ≡ 40
unfolding pad_zero
length-pad_zero filled n digits e h =
    let fill : ℕ = if filled then 48 else 32 in
    ground (
      arith,
      length-append digits (replicate (40 - n - 1) fill ++ (48 ∷ [])),
      length-append (replicate (40 - n - 1) fill) (48 ∷ []),
      length-replicate (40 - n - 1) fill,
    )

hex_digits-plain :
    (signed : Bool) (s : Bytes)
    → (signed ≡ false) ⊎ (is_ascii s ≡ true)
    → hex_digits signed s ≡ hex_digits false s
hex_digits-plain true s (inl e) = cc
hex_digits-plain true s (inr e) = hex_digits-ascii s e
hex_digits-plain false s plain = refl

pub to_padded_40_hex-unhex :
    (signed : Bool) (s : Bytes)
    → length s ≤ 20
    → are_bytes s ≡ true
    → (signed ≡ false) ⊎ (is_ascii s ≡ true)
    → (t : Text) × (to_padded_40_hex signed s ≡ ok t) × (length t ≡ 40) × (unhex (length s) t ≡ s)
unfolding to_padded_40_hex
to_padded_40_hex-unhex signed s short bytes plain =
    let digits = hex_digits signed s in
    let filled : Bool = not (is_nil s) in
    let same = hex_digits-plain signed s plain in
    let count : length digits ≡ 2 * length s = ap length same ∙ length-hex_digits_unsigned s in
    let (rest, padded) = pad_zero-append filled (length digits) digits in
    let fits : leb 40 (length s) ≡ false = ground arith in
    (
      pad_zero filled (length digits) digits,
      rw fits,
      length-pad_zero filled (length digits) digits refl (omega arith),
      ap (unhex (length s)) (padded ∙ ap (λ d. d ++ rest) same) ∙ unhex-hex_digits s rest bytes,
    )

-- Where `char` is signed, a content of at most 20 bytes with so many bytes from 128 on that its
-- digits, eight for each of these and two for each other, are more than 40, gets a hash that is
-- longer than 40.
pub to_padded_40_hex_signed :
    (s : Bytes)
    → length s ≤ 20
    → 20 < length s + 3 * high_bytes s
    → (t : Text) × (to_padded_40_hex true s ≡ ok t) × (40 < length t)
unfolding to_padded_40_hex
to_padded_40_hex_signed s short high =
    let digits = hex_digits true s in
    let (rest, padded) = pad_zero-append (not (is_nil s)) (length digits) digits in
    let fits : leb 40 (length s) ≡ false = ground arith in
    (
      pad_zero (not (is_nil s)) (length digits) digits,
      rw fits,
      omega (arith, ap length padded, length-append digits rest, length-hex_digits s),
    )
