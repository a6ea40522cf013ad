-- ===== src/Base/Words.antt =====
-- Signed integers, and the conversions between the machine's integer types.
use marc_fs.Base.Tests.{leb, if◌then◌else◌}
use Prim.Native.Nat.{ℕ, ◌-◌, ◌%◌, ◌<◌}
use mathlib.Core.Path.{◌≡◌}
use native.Mathlib.Omega.{arith}

-- `negsuc n` is -(n + 1).
pub data ℤ : Type 0 where
  pos : ℕ → ℤ
  negsuc : ℕ → ℤ

-- `size_t` and `uint64_t`.
abbrev pub u64_mod : ℕ
u64_mod = 0x1_0000_0000_0000_0000

abbrev pub u32_mod : ℕ
u32_mod = 0x1_0000_0000

abbrev pub int_max : ℕ
int_max = 0x7fff_ffff

-- `static_cast<int>` of an unsigned or a nonnegative value.
unfoldable pub to_int : ℕ → ℤ
to_int n = let r = n % u32_mod in if leb r int_max then pos r else negsuc (u32_mod - r - 1)

pub to_int_small : (n : ℕ) → n < 0x8000_0000 → to_int n ≡ pos n
unfolding to_int
to_int_small n h = ground arith
