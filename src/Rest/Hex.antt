-- ===== src/Rest/Hex.antt =====
-- `toPadded40Hex`: a short content as the cloud's hash of it. Whether `char` is signed is the
-- platform's choice; on x86 it is.
pub mod Digits
use marc_fs.Base.{
  ℕ, ◌+◌, ◌-◌, ◌/◌, ◌%◌, Bool, not, ◌&&◌, ◌∷◌, ◌++◌, ltb, leb, ◌==◌, if◌then◌else◌, length, is_nil,
  replicate, mail, Result, ok, fail, Bytes, Text, codes, [],
}

-- An upper-case digit.
unfoldable hex_digit : ℕ → ℕ
hex_digit n = if ltb n 10 then 48 + n else 55 + n

-- `std::setw(2) << (uint32_t) s[i]`. A negative `char` becomes a number of eight digits.
unfoldable hex_byte : Bool → ℕ → Text
unfolding hex_digit
hex_byte signed b =
    let two : Text = hex_digit (b / 16) ∷ hex_digit (b % 16) ∷ [] in
    if signed && leb 128 b then codes "FFFFFF" ++ two else two

unfoldable hex_digits : Bool → Bytes → Text
hex_digits signed [] = []
hex_digits signed (b ∷ bs) = hex_byte signed b ++ hex_digits signed bs

-- `std::setw(remaining) << 0`. The fill character is set in the loop. A count that has wrapped below
-- zero is a negative width, which pads nothing.
unfoldable pad_zero : Bool → ℕ → Text → Text
pad_zero filled len digits =
    if ltb len 40
    then digits ++ (replicate (40 - len - 1) (if filled then 48 else 32) ++ (48 ∷ []))
    else if len == 40
    then digits
    else digits ++ (48 ∷ [])

pub to_padded_40_hex : Bool → Bytes → Result Text
to_padded_40_hex signed s =
    if leb 40 (length s)
    then fail (mail 0)
    else ok (pad_zero (not (is_nil s)) (length (hex_digits signed s)) (hex_digits signed s))
