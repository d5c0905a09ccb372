-- ===== src/Host/Raw/Key.antt =====
-- The SSD tier's block numbers for the layers.
use kvmem_test.Common.{
  ℕ, ◌+◌, ◌*◌, ◌%◌, ◌≤◌, ◌<◌, ◌≡◌, refl, sym, ap, ◌∙◌, Bool, true, false, ltb, arith, u32_mod,
  Bool-cases, inl, inr,
}
use native.Mathlib.Nat.{mul-le-mul_right}
use kvmem_test.Host.Raw.{RawKvStoreConfig, nvme_key, key_stride, bit}

-- Equal sums of a multiple and a remainder have equal multiples.
multiples_apart : (a b k r q : ℕ) → a < b → r < k → (a * k + r ≡ b * k + q) → true ≡ false
multiples_apart a b k r q h small e =
    let step : (a + 1) * k ≤ b * k = mul-le-mul_right k (omega arith) in ground (arith, e, step)

pub same_multiple : (a b k r q : ℕ) → r < k → q < k → a * k + r ≡ b * k + q → a ≡ b
same_multiple a b k r q hr hq e = elim (Bool-cases (ltb a b)) [
  | inl h ↦ absurd (let no_way = multiples_apart a b k r q (ground arith) hr e in cc)
  | inr h ↦ elim (Bool-cases (ltb b a)) [
    | inl h' ↦
        absurd (let no_way = multiples_apart b a k q r (ground arith) hq (ground (arith, e)) in cc)
    | inr h' ↦ ground arith
  ]
]

add_assoc : (x y z : ℕ) → x + y + z ≡ x + (y + z)
add_assoc x y z = omega arith

pub remainders : (a b k r q : ℕ) → a ≡ b → a * k + r ≡ b * k + q → r ≡ q
remainders a b k r q same e =
    let e' : b * k + r ≡ b * k + q = ap (λ x. x * k + r) (sym same) ∙ e in omega arith

whole : (a k r : ℕ) → (a + 1) * k ≤ u32_mod → r < k → (a * k + r) % u32_mod ≡ a * k + r
whole a k r fits small = let next : (a + 1) * k ≡ a * k + k = ground arith in omega arith

same_bits : (i j : ℕ) (v w : Bool) → i * 2 + bit v ≡ j * 2 + bit w → (i ≡ j) × (v ≡ w)
same_bits i j true true e = (omega arith, refl)
same_bits i j true false e = absurd (omega arith)
same_bits i j false true e = absurd (omega arith)
same_bits i j false false e = (omega arith, refl)

bit_le : (v : Bool) → bit v ≤ 1
bit_le true = omega arith
bit_le false = omega arith

-- As long as the numbers fit 32 bits, different blocks, layers or kinds have different keys.
pub nvme_key-injective :
    (c : RawKvStoreConfig) (a b il jl : ℕ) (v w : Bool)
    → il < c.n_layer
    → jl < c.n_layer
    → c.n_layer * 2 + 2 < u32_mod
    → (a + 1) * key_stride c ≤ u32_mod
    → (b + 1) * key_stride c ≤ u32_mod
    → nvme_key c a il v ≡ nvme_key c b jl w
    → (a ≡ b) × (il ≡ jl) × (v ≡ w)
unfolding nvme_key
nvme_key-injective c a b il jl v w ha hb wide fa fb e =
    let k = key_stride c in
    let r = il * 2 + bit v in
    let q = jl * 2 + bit w in
    let stride : k ≡ c.n_layer * 2 + 2 = omega arith in
    let hr : r < k = omega (arith, bit_le v) in
    let hq : q < k = omega (arith, bit_le w) in
    let left : nvme_key c a il v ≡ a * k + r =
      ap (λ x. x % u32_mod) (add_assoc (a * k) (il * 2) (bit v)) ∙ whole a k r fa hr in
    let right : nvme_key c b jl w ≡ b * k + q =
      ap (λ x. x % u32_mod) (add_assoc (b * k) (jl * 2) (bit w)) ∙ whole b k q fb hq in
    let sums : a * k + r ≡ b * k + q = sym left ∙ e ∙ right in
    let same : a ≡ b = same_multiple a b k r q hr hq sums in
    let rest : r ≡ q = remainders a b k r q same sums in
    let (layer, kind) = same_bits il jl v w rest in (same, layer, kind)
