-- ===== src/Store/Budget/Accept.antt =====
-- The requests that the budget checks of kvmem_store.cpp accept.
use kvmem_test.Common.{
  ℕ, ◌+◌, ◌*◌, ◌/◌, ◌%◌, ◌≤◌, ◌<◌, ◌≡◌, refl, arith, pos, negsuc, false, ltb, ◌==◌, u32_mod, ok,
}
use native.Mathlib.Nat.{mul-le-mul_right}
use kvmem_test.Store.Types.{KvMemStore, KvMemKeepSource}
use kvmem_test.Store.Budget.{
  u32_max, resolve_band, keep_allocation, resolve_kvmem_keep_allocation, band_of_blocks,
  set_runtime_select_budget,
}

mul_div : (k bt : ℕ) → 0 < bt → k * bt / bt ≡ k
mul_div k bt h = grind arith

mul_mod : (k bt : ℕ) → 0 < bt → k * bt % bt ≡ 0
mul_mod k bt h = grind arith

mul_div_le : (k bt budget : ℕ) → 0 < bt → k ≤ budget / bt → k * bt ≤ budget
mul_div_le k bt budget h le = grind arith

mul_le : (k bt : ℕ) → 0 < bt → k ≤ k * bt
mul_le k bt h = grind arith

module _ {D : Type 0} where
  -- A request of `k` whole blocks, at least one, that hold the sink and recent blocks and do not
  -- exceed the configured budget is accepted, and becomes the runtime budget.
  pub set_runtime_select_budget-accepts :
      (s : KvMemStore D) (k : ℕ)
      → 0 < s.block_tokens
      → 0 < k
      → s.sink_blocks + s.recent_blocks ≤ k
      → k * s.block_tokens ≤ s.select_budget
      → set_runtime_select_budget s (k * s.block_tokens)
        ≡ ok (record s { runtime_select_budget = k * s.block_tokens })
  unfolding set_runtime_select_budget
  set_runtime_select_budget-accepts s k h one keep fits =
      let quotient = mul_div k s.block_tokens h in
      let whole = mul_mod k s.block_tokens h in
      let large : 1 * s.block_tokens ≤ k * s.block_tokens = mul-le-mul_right s.block_tokens one in
      let some_asked : (k * s.block_tokens == 0) ≡ false = ground arith in
      let within : ltb s.select_budget (k * s.block_tokens) ≡ false = ground arith in
      let a_block : ltb (k * s.block_tokens) s.block_tokens ≡ false = ground arith in
      let holds : ltb k (s.sink_blocks + s.recent_blocks) ≡ false = ground arith in
      rw (some_asked, within, a_block, whole, quotient, holds) refl

-- Explicit block counts that fit the budget together are accepted as they are.
pub resolve_kvmem_keep_allocation-accepts :
    (bt budget m n : ℕ)
    → 0 < bt
    → bt ≤ budget
    → budget < u32_mod
    → m + n ≤ budget / bt
    → resolve_kvmem_keep_allocation bt budget (pos m) (pos n) (negsuc 0) (negsuc 0)
      ≡ ok (record {
        sink_target_tokens = m * bt;
        recent_target_tokens = n * bt;
        sink_blocks = m;
        recent_blocks = n;
        sink_effective_tokens = m * bt;
        recent_effective_tokens = n * bt;
        sink_source = KvMemKeepSource.blocks;
        recent_source = KvMemKeepSource.blocks;
      })
unfolding resolve_kvmem_keep_allocation resolve_band band_of_blocks keep_allocation
resolve_kvmem_keep_allocation-accepts bt budget m n h block small fits =
    let sink = mul_div_le m bt budget h (omega arith) in
    let recent = mul_div_le n bt budget h (omega arith) in
    let sink' = mul_le m bt h in
    let recent' = mul_le n bt h in
    let some_tokens : (bt == 0) ≡ false = ground arith in
    let a_block : ltb budget bt ≡ false = ground arith in
    let sink_small : ltb u32_max m ≡ false = ground arith in
    let sink_fits : ltb u32_max (m * bt) ≡ false = ground arith in
    let recent_small : ltb u32_max n ≡ false = ground arith in
    let recent_fits : ltb u32_max (n * bt) ≡ false = ground arith in
    let sink_within : ltb (budget / bt) m ≡ false = ground arith in
    let recent_within : ltb (budget / bt) n ≡ false = ground arith in
    let both_within : ltb (budget / bt) (m + n) ≡ false = ground arith in
    rw
      (
        some_tokens, a_block, sink_small, sink_fits, recent_small, recent_fits, sink_within,
        recent_within, both_within,
      )
      refl
