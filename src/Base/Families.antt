-- ===== src/Base/Families.antt =====
-- Families that give a value to each thread: change at one index, and sums over the first `n`.
use marc_fs.Base.Tests.{◌==◌, ==_iff, if◌then◌else◌}
use Prim.Native.Nat.{ℕ, zero, suc, ◌+◌, ◌≤◌, ◌<◌}
use mathlib.Core.Path.{◌≡◌, refl, ap}
use native.Mathlib.Decide.{dec_lt}
use native.Mathlib.Omega.{arith}

abbrev pub update : {A : Type 0} → (ℕ → A) → ℕ → A → ℕ → A
update f i a j = if j == i then a else f j

module _ {A : Type 0} (weight : A → ℕ) where
  pub total : ℕ → (ℕ → A) → ℕ
  total zero f = 0
  total (suc n) f = total n f + weight (f n)

  pub total-update-behind :
      (n : ℕ) (f : ℕ → A) (i : ℕ) (a : A) → n ≤ i → total n (update f i a) ≡ total n f
  unfolding total
  total-update-behind zero f i a h = refl
  total-update-behind (suc n) f i a h =
      ground (arith, ==_iff n i, total-update-behind n f i a (omega arith))

  -- Only the summand of `i` changes.
  pub total-update :
      (n : ℕ) (f : ℕ → A) (i : ℕ) (a : A)
      → i < n
      → total n (update f i a) + weight (f i) ≡ total n f + weight a
  unfolding total
  total-update zero f i a h = absurd (omega arith)
  total-update (suc n) f i a h = elim (dec_lt i n) [
    | yes below ↦ ground (arith, ==_iff n i, total-update n f i a below)
    | no last ↦ ground (arith, ==_iff n i, total-update-behind n f i a)
  ]

  pub total-zero : (n : ℕ) (f : ℕ → A) → ((i : ℕ) → i < n → weight (f i) ≡ 0) → total n f ≡ 0
  unfolding total
  total-zero zero f h = refl
  total-zero (suc n) f h =
      omega (arith, total-zero n f (λ i lt. h i (omega arith)), h n (omega arith))

  pub total_congr :
      (n : ℕ) (f g : ℕ → A) → ((i : ℕ) → weight (f i) ≡ weight (g i)) → total n f ≡ total n g
  unfolding total
  total_congr zero f g h = refl
  total_congr (suc n) f g h = omega (arith, total_congr n f g h, h n)

  -- Each summand is at most the sum.
  pub le-total : (n : ℕ) (f : ℕ → A) (i : ℕ) → i < n → weight (f i) ≤ total n f
  unfolding total
  le-total zero f i h = absurd (omega arith)
  le-total (suc n) f i h = elim (dec_lt i n) [
    | yes below ↦ omega (arith, le-total n f i below)
    | no last ↦ let e : i ≡ n = omega arith in omega (arith, ap (λ j. weight (f j)) e)
  ]

  pub total-positive : (n : ℕ) (f : ℕ → A) → 0 < total n f → (j : ℕ) × (j < n) × (0 < weight (f j))
  unfolding total
  total-positive zero f h = absurd (omega arith)
  total-positive (suc n) f h = elim (dec_lt 0 (weight (f n))) [
    | yes here ↦ (n, omega arith, here)
    | no none_here ↦
        let (j, below, found) = total-positive n f (omega arith) in (j, omega arith, found)
  ]
