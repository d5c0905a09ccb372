-- ===== src/Common/Int.antt =====
-- Signed integers over the native numbers, with the casts of the source between fixed widths.
use Prim.Native.Nat.{ℕ, suc, ◌+◌, ◌-◌, ◌%◌, ◌^◌, ◌<◌}
use mathlib.Core.Path.{◌≡◌}
use mathlib.Core.Bool.{Bool, true, false}
use native.Mathlib.Omega.{arith}
use kvmem_test.Common.Tests.{ltb, ◌==◌, if◌then◌else◌}

-- `negsuc n` is -(n + 1).
pub data ℤ : Type 0 where
  pos : ℕ → ℤ
  negsuc : ℕ → ℤ

abbrev pub pos_part : ℤ → ℕ
pos_part (pos n) = n
pos_part (negsuc n) = 0

abbrev pub neg_part : ℤ → ℕ
neg_part (pos n) = 0
neg_part (negsuc n) = suc n

-- x >= 0
abbrev pub is_nonneg : ℤ → Bool
is_nonneg (pos n) = true
is_nonneg (negsuc n) = false

-- x == n for an unsigned n
abbrev pub equals_ℕ : ℤ → ℕ → Bool
equals_ℕ (pos m) n = m == n
equals_ℕ (negsuc m) n = false

abbrev pub equals_ℤ : ℤ → ℤ → Bool
equals_ℤ (pos m) b = equals_ℕ b m
equals_ℤ (negsuc m) (pos n) = false
equals_ℤ (negsuc m) (negsuc n) = m == n

-- x > y ? x - y : y - x
abbrev pub abs_diff : ℤ → ℤ → ℕ
abs_diff (pos m) (pos n) = if ltb n m then m - n else n - m
abs_diff (pos m) (negsuc n) = m + suc n
abs_diff (negsuc m) (pos n) = n + suc m
abs_diff (negsuc m) (negsuc n) = if ltb n m then m - n else n - m

-- static_cast<int32_t>: the bit pattern's low 32 bits, read in two's complement.
abbrev pub int32_of_bits : ℕ → ℤ
int32_of_bits w = if ltb w (2 ^ 31) then pos w else negsuc (2 ^ 32 - 1 - w)

unfoldable pub to_int32 : ℤ → ℤ
to_int32 (pos n) = int32_of_bits (n % 2 ^ 32)
to_int32 (negsuc n) = int32_of_bits (2 ^ 32 - 1 - n % 2 ^ 32)

-- A position below 2^31 survives the cast.
pub to_int32-pos : (n : ℕ) → n < 2 ^ 31 → to_int32 (pos n) ≡ pos n
unfolding to_int32
to_int32-pos n h = ground arith
