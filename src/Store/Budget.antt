-- ===== src/Store/Budget.antt =====
-- Budgets of kvmem_store.cpp: `set_runtime_select_budget`, `resolve_kvmem_keep_allocation` and the
-- watermarks of the GPU pool.
pub mod Keep
pub mod Accept
pub mod Watermark
use kvmem_test.Common.{
  ℕ, ◌+◌, ◌-◌, ◌*◌, ◌/◌, ◌%◌, ℤ, pos, negsuc, Bool, true, false, not, ◌&&◌, ◌||◌, min, max, ltb,
  leb, ◌==◌, if◌then◌else◌, u32_mod, add32, is_nonneg, pos_part, Error, Result, ok, throw, throw_if,
  ◌>>=◌, ◌>>◌,
}
use kvmem_test.Store.Types.{DoubleOps, KvMemStore, KvMemKeepSource, KvMemKeepAllocation}

abbrev pub u32_max : ℕ
u32_max = 0xffff_ffff

unfoldable pub ceil_div_u32 : ℕ → ℕ → ℕ
ceil_div_u32 value divisor = if value == 0 then 0 else ((value + divisor - 1) / divisor) % u32_mod

unfoldable pub clamp_u32 : ℕ → ℕ → ℕ → ℕ
clamp_u32 value lo hi = min (max value lo) hi

unfoldable pub ceil_percent : ℕ → ℕ → ℕ
ceil_percent value percent = ((value * percent + 99) / 100) % u32_mod

-- What `resolve_band` writes: the target, the blocks, the effective tokens and the source.
pub record Band : Type 0 where
  pub target_tokens : ℕ
  pub blocks : ℕ
  pub effective_tokens : ℕ
  pub source : KvMemKeepSource

unfoldable pub band_of_blocks : ℕ → ℕ → Result Band
band_of_blocks block_tokens explicit_blocks = do
  throw_if (ltb u32_max explicit_blocks) Error.allocation_too_large
  let tokens = explicit_blocks * block_tokens
  throw_if (ltb u32_max tokens) Error.allocation_overflows
  ok (record {
    target_tokens = tokens;
    blocks = explicit_blocks;
    effective_tokens = tokens;
    source = KvMemKeepSource.blocks;
  })

unfoldable pub band_of_tokens : ℕ → ℕ → KvMemKeepSource → Result Band
unfolding ceil_div_u32
band_of_tokens block_tokens requested source = do
  throw_if (ltb u32_max requested) Error.allocation_too_large
  let blocks = ceil_div_u32 requested block_tokens
  let rounded_tokens = blocks * block_tokens
  throw_if (ltb u32_max rounded_tokens) Error.allocation_overflows
  ok (record {
    target_tokens = requested;
    blocks = blocks;
    effective_tokens = rounded_tokens;
    source = source;
  })

-- A negative explicit value means "auto".
unfoldable pub resolve_band : ℕ → ℤ → ℤ → ℕ → Result Band
unfolding band_of_blocks band_of_tokens
resolve_band block_tokens (pos explicit_blocks) explicit_tokens auto_tokens =
    band_of_blocks block_tokens explicit_blocks
resolve_band block_tokens (negsuc _) (pos explicit_tokens) auto_tokens =
    band_of_tokens block_tokens explicit_tokens KvMemKeepSource.tokens
resolve_band block_tokens (negsuc _) (negsuc _) auto_tokens =
    band_of_tokens block_tokens auto_tokens KvMemKeepSource.auto

-- The last check, and the result.
unfoldable pub keep_allocation : ℕ → Band → Band → Result KvMemKeepAllocation
keep_allocation budget_blocks sink recent =
    if ltb budget_blocks sink.blocks
      || ltb budget_blocks recent.blocks
      || ltb budget_blocks (sink.blocks + recent.blocks)
    then throw Error.keep_exceeds_budget
    else ok (record {
      sink_target_tokens = sink.target_tokens;
      recent_target_tokens = recent.target_tokens;
      sink_blocks = sink.blocks;
      recent_blocks = recent.blocks;
      sink_effective_tokens = sink.effective_tokens;
      recent_effective_tokens = recent.effective_tokens;
      sink_source = sink.source;
      recent_source = recent.source;
    })

unfoldable pub resolve_kvmem_keep_allocation : ℕ → ℕ → ℤ → ℤ → ℤ → ℤ → Result KvMemKeepAllocation
unfolding clamp_u32 ceil_percent
resolve_kvmem_keep_allocation block_tokens select_budget sink_blocks recent_blocks sink_tokens
      recent_tokens =
    do
      throw_if (block_tokens == 0) Error.zero_block_tokens
      throw_if (ltb select_budget block_tokens) Error.budget_below_block
      throw_if (is_nonneg sink_blocks && is_nonneg sink_tokens) Error.sink_blocks_and_tokens
      throw_if (is_nonneg recent_blocks && is_nonneg recent_tokens) Error.recent_blocks_and_tokens
      let auto_sink_tokens = clamp_u32 (ceil_percent select_budget 1) 1024 2048
      let auto_recent_tokens = clamp_u32 (ceil_percent select_budget 8) 4096 16384
      sink ← resolve_band block_tokens sink_blocks sink_tokens auto_sink_tokens
      recent ← resolve_band block_tokens recent_blocks recent_tokens auto_recent_tokens
      keep_allocation (select_budget / block_tokens) sink recent

module _ {D : Type 0} where
  -- A throw leaves the store as it was.
  unfoldable pub set_runtime_select_budget : KvMemStore D → ℕ → Result (KvMemStore D)
  set_runtime_select_budget s tokens =
      if tokens == 0 then ok (record s { runtime_select_budget = 0 }) else (do
        throw_if (ltb s.select_budget tokens) Error.budget_exceeds_maximum
        throw_if (ltb tokens s.block_tokens || not (tokens % s.block_tokens == 0))
            Error.budget_not_block_multiple
        throw_if (ltb (tokens / s.block_tokens) (s.sink_blocks + s.recent_blocks))
            Error.budget_below_keep
        ok (record s { runtime_select_budget = tokens }))

  module _ (o : DoubleOps D) where
    -- A ratio that is not above 0, or is above 1, counts as 1.
    unfoldable pub clamp_ratio : D → D
    clamp_ratio r = if o.le r o.zero || o.gt r o.one then o.one else r

    unfoldable pub gpu_high_watermark_tokens : KvMemStore D → ℕ → ℕ
    unfolding clamp_ratio
    gpu_high_watermark_tokens s pool_tokens =
        let r = clamp_ratio s.gpu_high_watermark in
        max (o.to_u32 (o.mul (o.of_ℕ pool_tokens) r)) s.block_tokens

    unfoldable pub gpu_low_watermark_tokens : KvMemStore D → ℕ → ℕ
    unfolding clamp_ratio gpu_high_watermark_tokens
    gpu_low_watermark_tokens s pool_tokens =
        let r = clamp_ratio s.gpu_low_watermark in
        min (max (o.to_u32 (o.mul (o.of_ℕ pool_tokens) r)) s.block_tokens)
          (gpu_high_watermark_tokens s pool_tokens)

    unfoldable pub prefill_needs_offload : KvMemStore D → ℕ → ℕ → ℕ → Bool
    prefill_needs_offload s resident_tokens incoming_tokens pool_tokens =
        let next = add32 resident_tokens incoming_tokens in
        if (incoming_tokens == 0) || (pool_tokens == 0)
        then false
        else if ltb pool_tokens next
        then true
        else ltb (gpu_high_watermark_tokens s pool_tokens) next
