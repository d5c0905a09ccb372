-- ===== src/Host/Half.antt =====
-- `f32_to_f16` and `f16_to_f32` of kvmem/src/host/raw_kv_store.cpp. A float is its 32 bits, which
-- `memcpy` gives. A shift is a product or a quotient by a power of two, a mask a remainder, and `|`
-- of bits that do not meet a sum.
pub mod Roundtrip
use kvmem_test.Common.{
  ℕ, zero, suc, ◌+◌, ◌-◌, ◌*◌, ◌/◌, ◌%◌, ◌^◌, Bool, true, false, ◌&&◌, ◌||◌, ltb, leb, ◌==◌,
  if◌then◌else◌, u32_mod, add32, sub32,
}

-- Rounding to the nearest, ties to the even number; `mid` is half a unit of the last place.
unfoldable pub round : ℕ → ℕ → ℕ → ℕ
round half rem mid = if ltb mid rem || ((rem == mid) && (half % 2 == 1)) then half + 1 else half

-- The half of the magnitude with exponent bits `e` and mantissa `man`; the source's `exp` is
-- e - 112.
unfoldable pub half_of : ℕ → ℕ → ℕ
unfolding round
half_of e man =
    if (e == 0) && (man == 0)
    then 0
    else if e == 255
    then (if man == 0 then 2 ^ 10 * 31 else 2 ^ 10 * 31 + 2 ^ 9)
    else if leb e 112
    then (if ltb e 102
        then 0
        else round ((man + 2 ^ 23) / 2 ^ (126 - e)) ((man + 2 ^ 23) % 2 ^ (126 - e))
            (2 ^ (125 - e)))
    else if leb 143 e
    then 2 ^ 10 * 31
    else round ((e - 112) * 2 ^ 10 + man / 2 ^ 13) (man % 2 ^ 13) (2 ^ 12)

unfoldable pub f32_to_f16 : ℕ → ℕ
unfolding half_of
f32_to_f16 x = (x / 2 ^ 31 % 2 * 2 ^ 15 + half_of (x / 2 ^ 23 % 2 ^ 8) (x % 2 ^ 23)) % 2 ^ 16

-- while ((man & 0x400) == 0); a mantissa that is not zero takes ten rounds at most.
unfoldable pub normalized : ℕ → ℕ → ℕ → ℕ × ℕ
normalized zero man exp = (man, exp)
normalized (suc fuel) man exp =
    let rest = normalized fuel (man * 2) (sub32 exp 1) in
    if man / 2 ^ 10 % 2 == 0 then rest else (man, exp)

unfoldable pub subnormal : ℕ → ℕ
unfolding normalized
subnormal man =
    let (man', exp) = normalized 10 man 1 in
    add32 exp 112 * 2 ^ 23 % u32_mod + man' % 2 ^ 10 * 2 ^ 13

-- The magnitude of the float.
unfoldable pub single_of : ℕ → ℕ → ℕ
unfolding subnormal
single_of exp man =
    if exp == 0
    then (if man == 0 then 0 else subnormal man)
    else if exp == 31
    then 2 ^ 23 * 255 + man * 2 ^ 13
    else (exp + 112) * 2 ^ 23 + man * 2 ^ 13

unfoldable pub f16_to_f32 : ℕ → ℕ
unfolding single_of
f16_to_f32 h = h / 2 ^ 15 % 2 * 2 ^ 31 + single_of (h / 2 ^ 10 % 2 ^ 5) (h % 2 ^ 10)
