-- ===== src/Host/Half/Roundtrip.antt =====
-- A half is read back as it was from the float that it widens to.
use kvmem_test.Common.{
  ℕ, zero, suc, ◌+◌, ◌-◌, ◌*◌, ◌/◌, ◌%◌, ◌^◌, ◌<◌, ◌≡◌, refl, Bool, true, false, ◌&&◌, ltb, leb,
  ◌==◌, arith, not, Bool-cases, inl, inr,
}
use kvmem_test.Host.Half.{round, half_of, f32_to_f16, normalized, subnormal, single_of, f16_to_f32}

-- The magnitude of a float gives the half with these exponent and mantissa bits.
abbrev Narrows : ℕ → ℕ → ℕ → Type 0
Narrows y exp man = (y < 2 ^ 31) × (half_of (y / 2 ^ 23 % 2 ^ 8) (y % 2 ^ 23) ≡ exp * 2 ^ 10 + man)

-- The halves below the smallest normal one, one by one.
unfoldable checked : ℕ → Bool
unfolding subnormal half_of
checked zero = true
checked (suc m) =
    let y = subnormal (suc m) in
    ltb y (2 ^ 31) && (half_of (y / 2 ^ 23 % 2 ^ 8) (y % 2 ^ 23) == suc m) && checked m

all_checked : checked 1023 ≡ true
unfolding checked subnormal normalized half_of round
all_checked = refl

checked-at : (n m : ℕ) → checked n ≡ true → m < n → Narrows (subnormal (suc m)) 0 (suc m)
unfolding checked
checked-at zero m h k = absurd (omega arith)
checked-at (suc n) m h k = elim (Bool-cases (m == n)) [
  | inl e ↦ let same : m ≡ n = ground arith in rw same (tests (subnormal (suc n)) _ n (checked n) h)
  | inr e ↦
      checked-at n m
        (rest (subnormal (suc n))
          (half_of (subnormal (suc n) / 2 ^ 23 % 2 ^ 8) (subnormal (suc n) % 2 ^ 23)) n (checked n)
          h)
        (ground arith)
]
  where
    rest : (y half m : ℕ) (c : Bool) → (ltb y (2 ^ 31) && (half == suc m) && c) ≡ true → c ≡ true
    rest y half m c h = ground arith

    tests :
        (y half m : ℕ) (c : Bool)
        → (ltb y (2 ^ 31) && (half == suc m) && c) ≡ true
        → (y < 2 ^ 31) × (half ≡ 0 * 2 ^ 10 + suc m)
    tests y half m c h = (ground arith, ground arith)

normal-Narrows :
    (exp man : ℕ)
    → 0 < exp
    → exp < 31
    → man < 2 ^ 10
    → Narrows ((exp + 112) * 2 ^ 23 + man * 2 ^ 13) exp man
unfolding half_of round
normal-Narrows exp man low high small =
    let y = (exp + 112) * 2 ^ 23 + man * 2 ^ 13 in
    let e8 : y / 2 ^ 23 % 2 ^ 8 ≡ exp + 112 = omega arith in
    let m : y % 2 ^ 23 ≡ man * 2 ^ 13 = omega arith in
    (omega arith, rw (e8, m) (normal exp man low high))
  where
    normal :
        (exp man : ℕ) → 0 < exp → exp < 31 → half_of (exp + 112) (man * 2 ^ 13) ≡ exp * 2 ^ 10 + man
    normal exp man low high =
        let a : (exp + 112 == 0) ≡ false = ground arith in
        let b : (exp + 112 == 255) ≡ false = ground arith in
        let c : leb (exp + 112) 112 ≡ false = ground arith in
        let d : leb 143 (exp + 112) ≡ false = ground arith in
        let rem : man * 2 ^ 13 % 2 ^ 13 ≡ 0 = omega arith in
        let quot : man * 2 ^ 13 / 2 ^ 13 ≡ man = omega arith in
        let back : exp + 112 - 112 ≡ exp = omega arith in rw (a, b, c, d, rem, quot, back) refl

single_of-subnormal : (m : ℕ) → single_of 0 (suc m) ≡ subnormal (suc m)
unfolding single_of
single_of-subnormal m = let e : (suc m == 0) ≡ false = ground arith in rw e refl

subnormal-Narrows : (m : ℕ) → suc m < 2 ^ 10 → Narrows (single_of 0 (suc m)) 0 (suc m)
subnormal-Narrows m small = rw (single_of-subnormal m) (checked-at 1023 m all_checked (omega arith))

single_of-normal :
    (e man : ℕ)
    → (suc e == 31) ≡ false
    → single_of (suc e) man ≡ (suc e + 112) * 2 ^ 23 + man * 2 ^ 13
unfolding single_of
single_of-normal e man h = let some : (suc e == 0) ≡ false = ground arith in rw (some, h) refl

zero-Narrows : Narrows (single_of 0 0) 0 0
unfolding single_of half_of
zero-Narrows = (omega arith, refl)

infinity-Narrows : Narrows (single_of 31 0) 31 0
unfolding single_of half_of
infinity-Narrows = (omega arith, refl)

single_of-Narrows :
    (exp man : ℕ)
    → exp < 2 ^ 5
    → man < 2 ^ 10
    → ((exp == 31) && not (man == 0)) ≡ false
    → Narrows (single_of exp man) exp man
single_of-Narrows zero zero high small h = zero-Narrows
single_of-Narrows zero (suc m) high small h = subnormal-Narrows m small
single_of-Narrows (suc e) man high small h = elim (Bool-cases (suc e == 31)) [
  | inl last ↦
      let same : e ≡ 30 = ground arith in
      let none : man ≡ 0 = ground arith in rw (same, none) infinity-Narrows
  | inr normal ↦
      rw (single_of-normal e man normal)
        (normal-Narrows (suc e) man (omega arith) (ground arith) small)
]

-- Exponent bits all set and mantissa bits not all clear.
abbrev pub is_nan : ℕ → Bool
is_nan h = (h / 2 ^ 10 % 2 ^ 5 == 31) && not (h % 2 ^ 10 == 0)

joined :
    (s y exp man h : ℕ)
    → s < 2
    → exp < 2 ^ 5
    → man < 2 ^ 10
    → h ≡ s * 2 ^ 15 + exp * 2 ^ 10 + man
    → Narrows y exp man
    → f32_to_f16 (s * 2 ^ 31 + y) ≡ h
unfolding f32_to_f16
joined s y exp man h sign high small whole (below, half) =
    let x = s * 2 ^ 31 + y in
    let a : x / 2 ^ 31 % 2 ≡ s = omega arith in
    let b : x / 2 ^ 23 % 2 ^ 8 ≡ y / 2 ^ 23 % 2 ^ 8 = omega arith in
    let c : x % 2 ^ 23 ≡ y % 2 ^ 23 = omega arith in rw (a, b, c, half) (omega arith)

-- Every half that is not a NaN is the half of the float that it widens to: the zeros, the subnormal
-- and the normal numbers and the infinities, of both signs.
pub f32_to_f16-f16_to_f32 : (h : ℕ) → h < 2 ^ 16 → is_nan h ≡ false → f32_to_f16 (f16_to_f32 h) ≡ h
unfolding f16_to_f32
f32_to_f16-f16_to_f32 h bits number =
    joined (h / 2 ^ 15 % 2) _ (h / 2 ^ 10 % 2 ^ 5) (h % 2 ^ 10) h (omega arith) (omega arith)
      (omega arith) (omega arith)
      (single_of-Narrows (h / 2 ^ 10 % 2 ^ 5) (h % 2 ^ 10) (omega arith) (omega arith) number)
