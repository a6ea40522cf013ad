-- ===== src/Base/Decimal.antt =====
-- `std::to_string` of an unsigned number.
use marc_fs.Base.Tests.{ltb, leb, if◌then◌else◌}
use marc_fs.Base.Strings.{Text}
use marc_fs.Base.Lists.{is_nil}
use Prim.Native.Nat.{ℕ, zero, suc, ◌+◌, ◌-◌, ◌*◌, ◌/◌, ◌%◌, ◌<◌}
use mathlib.Core.Path.{◌≡◌, refl, ap, sym, ◌∙◌}
use mathlib.Core.Bool.{Bool, true, false, ◌&&◌}
use mathlib.Core.List.{[], ◌∷◌, ◌++◌}
use native.Mathlib.Omega.{arith}

-- At most `fuel` digits.
digits : ℕ → ℕ → Text
digits zero n = []
digits (suc fuel) n =
    let front = digits fuel (n / 10) in
    if ltb n 10 then (48 + n) ∷ [] else front ++ ((48 + n % 10) ∷ [])

unfoldable pub to_string : ℕ → Text
unfolding digits
to_string n = digits (suc n) n

-- The number that a row of digits stands for, after what was read before it.
read_digits : ℕ → Text → ℕ
read_digits acc [] = acc
read_digits acc (d ∷ ds) = read_digits (acc * 10 + (d - 48)) ds

pub of_digits : Text → ℕ
of_digits = read_digits 0

read_digits-snoc :
    (acc : ℕ) (ds : Text) (d : ℕ)
    → read_digits acc (ds ++ (d ∷ [])) ≡ read_digits acc ds * 10 + (d - 48)
unfolding read_digits
read_digits-snoc acc [] d = refl
read_digits-snoc acc (c ∷ ds) d = read_digits-snoc (acc * 10 + (c - 48)) ds d

digits-value : (fuel n : ℕ) → n < fuel → read_digits 0 (digits fuel n) ≡ n
unfolding digits read_digits
digits-value zero n h = absurd (omega arith)
digits-value (suc fuel) n h =
    ground
      (arith, digits-value fuel (n / 10), read_digits-snoc 0 (digits fuel (n / 10)) (48 + n % 10))

-- The digits of a number read back as that number.
pub of_digits-to_string : (n : ℕ) → of_digits (to_string n) ≡ n
unfolding of_digits to_string
of_digits-to_string n = digits-value (suc n) n (omega arith)

pub to_string-injective : (m n : ℕ) → to_string m ≡ to_string n → m ≡ n
to_string-injective m n e = sym (of_digits-to_string m) ∙ (ap of_digits e ∙ of_digits-to_string n)

abbrev pub is_digit : ℕ → Bool
is_digit c = leb 48 c && leb c 57

abbrev pub all_digits : Text → Bool
all_digits [] = true
all_digits (c ∷ cs) = is_digit c && all_digits cs

pub all_digits-append :
    (xs ys : Text) → all_digits xs ≡ true → all_digits ys ≡ true → all_digits (xs ++ ys) ≡ true
all_digits-append [] ys p q = q
all_digits-append (x ∷ xs) ys p q = ground (arith, all_digits-append xs ys)

digits-all_digits : (fuel n : ℕ) → all_digits (digits fuel n) ≡ true
unfolding digits
digits-all_digits zero n = refl
digits-all_digits (suc fuel) n = ground (
  arith,
  all_digits-append (digits fuel (n / 10)) ((48 + n % 10) ∷ []) (digits-all_digits fuel (n / 10)),
)

pub all_digits-to_string : (n : ℕ) → all_digits (to_string n) ≡ true
unfolding to_string
all_digits-to_string n = digits-all_digits (suc n) n

is_nil-snoc : (xs : Text) (y : ℕ) → is_nil (xs ++ (y ∷ [])) ≡ false
is_nil-snoc [] y = refl
is_nil-snoc (x ∷ xs) y = refl

pub to_string-not_nil : (n : ℕ) → is_nil (to_string n) ≡ false
unfolding to_string
to_string-not_nil n = ground (arith, is_nil-snoc (digits n (n / 10)) (48 + n % 10))
