-- ===== src/Store/Budget/Keep.antt =====
-- The always-kept bands and the request budget fit the selection budget.
use kvmem_test.Common.{
  ℕ, ◌+◌, ◌-◌, ◌*◌, ◌/◌, ◌%◌, ◌≤◌, ◌<◌, ◌≡◌, refl, ℤ, pos, negsuc, arith, ltb, ◌==◌, u32_mod, Error,
  true, is_nonneg, ◌&&◌, ok, throw_if, throw_if-ok, Bool-cases, returned, inl, inr, ◌⊎◌,
}
use native.Mathlib.Nat.{mul-le-mul_right, le-div_iff_mul-le, div-add-mod}
use kvmem_test.Store.Types.{KvMemStore, KvMemKeepSource, KvMemKeepAllocation, budget_blocks}
use kvmem_test.Store.Budget.{
  Band, ceil_div_u32, band_of_blocks, band_of_tokens, resolve_band, keep_allocation,
  resolve_kvmem_keep_allocation, set_runtime_select_budget,
}

-- A band is whole blocks that cover the target and waste less than a block.
pub record IsTight (block_tokens : ℕ) (b : Band) : Type 0 where
  pub whole : b.effective_tokens ≡ b.blocks * block_tokens
  pub covers : b.target_tokens ≤ b.effective_tokens
  pub tight : b.effective_tokens < b.target_tokens + block_tokens
  pub fits : b.effective_tokens < u32_mod

div_bounds : (x d : ℕ) → 0 < d → (x / d * d ≤ x) × (x < x / d * d + d)
div_bounds x d h = (grind arith, grind arith)

ceil_div_u32-bounds :
    (v d : ℕ) → 0 < d → v < u32_mod → (v ≤ ceil_div_u32 v d * d) × (ceil_div_u32 v d * d < v + d)
unfolding ceil_div_u32
ceil_div_u32-bounds v d h t = elim (Bool-cases (v == 0)) [
  | inl e ↦ rw e (ground arith, ground arith)
  | inr e ↦
      let q = (v + d - 1) / d in
      let small : q ≤ v = grind arith in
      let wrap : q % u32_mod ≡ q = omega arith in
      let b = div_bounds (v + d - 1) d h in rw (e, wrap) (ground arith, ground arith)
]

band_of_blocks-IsTight : (bt n : ℕ) {b : Band} → 0 < bt → band_of_blocks bt n ≡ ok b → IsTight bt b
unfolding band_of_blocks
band_of_blocks-IsTight bt n h e = ground arith

band_of_tokens-IsTight :
    (bt n : ℕ) (source : KvMemKeepSource) {b : Band}
    → 0 < bt
    → band_of_tokens bt n source ≡ ok b
    → IsTight bt b
unfolding band_of_tokens
band_of_tokens-IsTight bt n source h e = ground (arith, ceil_div_u32-bounds n bt h)

resolve_band-IsTight :
    (bt : ℕ) (blocks tokens : ℤ) (auto : ℕ) {b : Band}
    → 0 < bt
    → resolve_band bt blocks tokens auto ≡ ok b
    → IsTight bt b
unfolding resolve_band
resolve_band-IsTight bt (pos n) tokens auto h e = band_of_blocks-IsTight bt n h e
resolve_band-IsTight bt (negsuc _) (pos n) auto h e =
    band_of_tokens-IsTight bt n KvMemKeepSource.tokens h e
resolve_band-IsTight bt (negsuc _) (negsuc _) auto h e =
    band_of_tokens-IsTight bt auto KvMemKeepSource.auto h e

-- What a resolved allocation guarantees.
pub record IsAllocated (bt budget : ℕ) (a : KvMemKeepAllocation) : Type 0 where
  pub sink_whole : a.sink_effective_tokens ≡ a.sink_blocks * bt
  pub sink_covers : a.sink_target_tokens ≤ a.sink_effective_tokens
  pub sink_tight : a.sink_effective_tokens < a.sink_target_tokens + bt
  pub recent_whole : a.recent_effective_tokens ≡ a.recent_blocks * bt
  pub recent_covers : a.recent_target_tokens ≤ a.recent_effective_tokens
  pub recent_tight : a.recent_effective_tokens < a.recent_target_tokens + bt
  pub within : a.sink_blocks + a.recent_blocks ≤ budget / bt
  pub fits_budget : a.sink_effective_tokens + a.recent_effective_tokens ≤ budget

fits_of_blocks : (bt budget m n : ℕ) → 0 < bt → m + n ≤ budget / bt → m * bt + n * bt ≤ budget
fits_of_blocks bt budget m n h le =
    let b = div_bounds budget bt h in
    let step : (m + n) * bt ≤ budget / bt * bt = mul-le-mul_right bt le in omega arith

keep_allocation-IsAllocated :
    (bt budget : ℕ) (sink recent : Band) {a : KvMemKeepAllocation}
    → 0 < bt
    → IsTight bt sink
    → IsTight bt recent
    → keep_allocation (budget / bt) sink recent ≡ ok a
    → IsAllocated bt budget a
unfolding keep_allocation
keep_allocation-IsAllocated bt budget sink recent h s r e =
    ground (arith, fits_of_blocks bt budget sink.blocks recent.blocks h)

-- Whenever `resolve_kvmem_keep_allocation` does not throw, each band is whole blocks that cover its
-- target with less than a block to spare, and both bands together fit the selection budget, counted
-- in blocks and in tokens.
pub resolve_kvmem_keep_allocation-IsAllocated :
    (bt budget : ℕ) (sink_blocks recent_blocks sink_tokens recent_tokens : ℤ)
    {a : KvMemKeepAllocation}
    → resolve_kvmem_keep_allocation bt budget sink_blocks recent_blocks sink_tokens recent_tokens
      ≡ ok a
    → IsAllocated bt budget a
unfolding resolve_kvmem_keep_allocation
resolve_kvmem_keep_allocation-IsAllocated bt budget sb rb st rt h =
    let (_, p₁, h₁) = returned (throw_if (bt == 0) Error.zero_block_tokens) _ h in
    let (_, _, h₂) = returned (throw_if (ltb budget bt) Error.budget_below_block) _ h₁ in
    let (_, _, h₃) =
      returned (throw_if (is_nonneg sb && is_nonneg st) Error.sink_blocks_and_tokens) _ h₂ in
    let (_, _, h₄) =
      returned (throw_if (is_nonneg rb && is_nonneg rt) Error.recent_blocks_and_tokens) _ h₃ in
    let (sink, p₅, h₅) = returned (resolve_band bt sb st _) _ h₄ in
    let (recent, p₆, h₆) = returned (resolve_band bt rb rt _) _ h₅ in
    let positive : 0 < bt = ground (arith, throw_if-ok (bt == 0) Error.zero_block_tokens p₁) in
    keep_allocation-IsAllocated bt budget sink recent positive
      (resolve_band-IsTight bt sb st _ positive p₅) (resolve_band-IsTight bt rb rt _ positive p₆) h₆

pub div_mono : (m n bt : ℕ) → 0 < bt → m ≤ n → m / bt ≤ n / bt
div_mono m n bt h le = (le-div_iff_mul-le h).1 (omega (arith, div_bounds m bt h))

module _ {D : Type 0} where
  -- The tests that an accepted request budget has passed.
  accepted :
      (s : KvMemStore D) (tokens : ℕ) {s' : KvMemStore D}
      → set_runtime_select_budget s tokens ≡ ok s'
      → (s' ≡ record s { runtime_select_budget = tokens })
        × ((tokens ≡ 0)
            ⊎ (tokens ≤ s.select_budget)
              × (tokens % s.block_tokens ≡ 0)
              × (s.sink_blocks + s.recent_blocks ≤ tokens / s.block_tokens))
  unfolding set_runtime_select_budget
  accepted s tokens e = ground arith

  accepted-bounds :
      (s : KvMemStore D) (tokens : ℕ)
      → 0 < s.block_tokens
      → s.sink_blocks + s.recent_blocks ≤ s.select_budget / s.block_tokens
      → (tokens ≡ 0)
        ⊎ (tokens ≤ s.select_budget)
          × (tokens % s.block_tokens ≡ 0)
          × (s.sink_blocks + s.recent_blocks ≤ tokens / s.block_tokens)
      → (b : ℕ) × (budget_blocks (record s { runtime_select_budget = tokens }) ≡ b)
        × (b ≤ s.select_budget / s.block_tokens)
        × (s.sink_blocks + s.recent_blocks ≤ b)
        × ((tokens ≡ 0) ⊎ (b * s.block_tokens ≡ tokens))
  accepted-bounds s tokens h k (inl z) =
      (s.select_budget / s.block_tokens, rw z refl, omega arith, k, inl z)
  accepted-bounds s tokens h k (inr (le, whole, keep)) = elim (Bool-cases (tokens == 0)) [
    | inl z ↦ accepted-bounds_zero z
    | inr nz ↦ (
      tokens / s.block_tokens,
      rw nz refl,
      div_mono tokens s.select_budget s.block_tokens h le,
      keep,
      inr (omega (arith, div-add-mod tokens s.block_tokens)),
    )
  ]
    where
      accepted-bounds_zero :
          (tokens == 0) ≡ true
          → (b : ℕ) × (budget_blocks (record s { runtime_select_budget = tokens }) ≡ b)
            × (b ≤ s.select_budget / s.block_tokens)
            × (s.sink_blocks + s.recent_blocks ≤ b)
            × ((tokens ≡ 0) ⊎ (b * s.block_tokens ≡ tokens))
      accepted-bounds_zero z =
          (s.select_budget / s.block_tokens, rw z refl, omega arith, k, inl (ground arith))

  -- A request budget that is accepted is 0, which restores the configured one, or whole blocks
  -- within the configured budget that hold the sink and recent blocks; nothing else changes.
  pub set_runtime_select_budget-bounds :
      (s : KvMemStore D) (tokens : ℕ) {s' : KvMemStore D}
      → 0 < s.block_tokens
      → s.sink_blocks + s.recent_blocks ≤ s.select_budget / s.block_tokens
      → set_runtime_select_budget s tokens ≡ ok s'
      → (s' ≡ record s { runtime_select_budget = tokens })
        × (budget_blocks s' ≤ s.select_budget / s.block_tokens)
        × (s.sink_blocks + s.recent_blocks ≤ budget_blocks s')
        × ((tokens ≡ 0) ⊎ (budget_blocks s' * s.block_tokens ≡ tokens))
  set_runtime_select_budget-bounds s tokens h k e =
      let (eq, tests) = accepted s tokens e in
      let (b, count, le, keep, whole) = accepted-bounds s tokens h k tests in
      rw eq (refl, rw count le, rw count keep, rw count whole)
