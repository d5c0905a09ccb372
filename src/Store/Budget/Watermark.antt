-- ===== src/Store/Budget/Watermark.antt =====
-- The watermarks of the GPU pool and the prefill test of kvmem_store.cpp.
use kvmem_test.Common.{
  ℕ, ◌+◌, ◌≤◌, ◌<◌, ◌≡◌, arith, true, false, ◌||◌, Bool-cases, inl, inr, u32_mod, ltb, ◌⊎◌,
}
use kvmem_test.Store.Types.{DoubleOps, KvMemStore}
use kvmem_test.Store.Budget.{
  clamp_ratio, gpu_high_watermark_tokens, gpu_low_watermark_tokens, prefill_needs_offload,
}

-- What the watermarks rely on of `double`: a ratio that is above 0 and at most 1 does not enlarge a
-- count of 32 bits.
pub record ScaleLaws {D : Type 0} (o : DoubleOps D) : Type 0 where
  pub one_pos : o.le o.one o.zero ≡ false
  pub one_le : o.le o.one o.one ≡ true
  pub scale_le :
      (n : ℕ) (r : D)
      → n < u32_mod
      → o.le r o.zero ≡ false
      → o.le r o.one ≡ true
      → o.to_u32 (o.mul (o.of_ℕ n) r) ≤ n

-- The ratio can be compared with 1: it is not a NaN. A NaN passes both guards of the source, and its
-- cast to `uint32_t` is then undefined.
abbrev pub IsNumber : {D : Type 0} → DoubleOps D → D → Type 0
IsNumber o r = (o.le r o.one || o.gt r o.one) ≡ true

module _ {D : Type 0} (o : DoubleOps D) (laws : ScaleLaws o) where
  scale_clamped :
      (n : ℕ) (r : D)
      → n < u32_mod
      → IsNumber o r
      → o.to_u32 (o.mul (o.of_ℕ n) (clamp_ratio o r)) ≤ n
  unfolding clamp_ratio
  scale_clamped n r small number = elim (Bool-cases (o.le r o.zero || o.gt r o.one)) [
    | inl out ↦ rw out (laws.scale_le n o.one small laws.one_pos laws.one_le)
    | inr within ↦ rw within (laws.scale_le n r small (ground arith) (ground arith))
  ]

  -- For a pool of at least one block and less than 2^32 tokens, and ratios that are not NaN,
  -- one block ≤ low watermark ≤ high watermark ≤ pool.
  pub watermarks_ordered :
      (s : KvMemStore D) (pool : ℕ)
      → s.block_tokens ≤ pool
      → pool < u32_mod
      → IsNumber o s.gpu_high_watermark
      → IsNumber o s.gpu_low_watermark
      → (s.block_tokens ≤ gpu_low_watermark_tokens o s pool)
        × (gpu_low_watermark_tokens o s pool ≤ gpu_high_watermark_tokens o s pool)
        × (gpu_high_watermark_tokens o s pool ≤ pool)
  unfolding gpu_low_watermark_tokens gpu_high_watermark_tokens
  watermarks_ordered s pool h small high_ratio low_ratio =
      let high = scale_clamped pool s.gpu_high_watermark small high_ratio in
      (omega arith, omega arith, omega arith)

  -- If the sum of the tokens does not wrap, the ratios are not NaN, the chunk is not empty and the
  -- pool holds a block and less than 2^32 tokens, then
  -- the offload test is exactly whether the tokens pass the high watermark, and where it says no
  -- offload the tokens fit the pool.
  pub prefill_needs_offload_lem :
      (s : KvMemStore D) (resident incoming pool : ℕ)
      → resident + incoming < u32_mod
      → s.block_tokens ≤ pool
      → pool < u32_mod
      → IsNumber o s.gpu_high_watermark
      → IsNumber o s.gpu_low_watermark
      → 0 < incoming
      → 0 < pool
      → (prefill_needs_offload o s resident incoming pool
          ≡ ltb (gpu_high_watermark_tokens o s pool) (resident + incoming))
        × ((prefill_needs_offload o s resident incoming pool ≡ true) ⊎ (resident + incoming ≤ pool))
  unfolding prefill_needs_offload
  prefill_needs_offload_lem s resident incoming pool t h small high_ratio low_ratio p q =
      let high = (watermarks_ordered s pool h small high_ratio low_ratio).2 in
      (ground arith, ground arith)
