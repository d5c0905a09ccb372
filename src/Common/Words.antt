-- ===== src/Common/Words.antt =====
-- uint32_t and uint64_t: plain numbers whose sums wrap.
use Prim.Native.Nat.{ℕ, ◌+◌, ◌-◌, ◌*◌, ◌%◌, ◌^◌, ◌≤◌, ◌<◌}
use mathlib.Core.Path.{◌≡◌}
use native.Mathlib.Omega.{arith}

abbrev pub u32_mod : ℕ
u32_mod = 2 ^ 32

abbrev pub u64_mod : ℕ
u64_mod = 2 ^ 64

abbrev pub add32 : ℕ → ℕ → ℕ
add32 x y = (x + y) % u32_mod

abbrev pub add64 : ℕ → ℕ → ℕ
add64 x y = (x + y) % u64_mod

abbrev pub mul32 : ℕ → ℕ → ℕ
mul32 x y = (x * y) % u32_mod

abbrev pub mul64 : ℕ → ℕ → ℕ
mul64 x y = (x * y) % u64_mod

-- x - y below zero comes back from the top.
abbrev pub sub32 : ℕ → ℕ → ℕ
sub32 x y = (x + u32_mod - y) % u32_mod

pub add32_small : (x y : ℕ) → x + y < u32_mod → add32 x y ≡ x + y
add32_small x y h = omega arith

pub sub32_small : (x y : ℕ) → y ≤ x → x < u32_mod → sub32 x y ≡ x - y
sub32_small x y h k = omega arith
