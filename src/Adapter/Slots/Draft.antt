-- ===== src/Adapter/Slots/Draft.antt =====
-- `slot_for_orig_pos` of llama-memory-kvmem.cpp against the cells of llama-kvmem-batch.cpp.
use kvmem_test.Common.{
  ℕ, ◌+◌, ◌-◌, ◌*◌, ◌/◌, ◌^◌, ◌≤◌, ◌<◌, ◌≡◌, refl, ◌∙◌, ap, ℤ, pos, true, false, some, List, ◌==◌,
  ltb, get_elem?, sub32, sub32_small, arith, u32_mod,
}
use kvmem_test.Store.Types.{KvMemBlock, KvMemStore}
use kvmem_test.Store.Table.Layout.{IsLaid}
use kvmem_test.Adapter.Slots.{slot_for_orig_pos}
use kvmem_test.Adapter.Batch.{cell_of}
use kvmem_test.Adapter.Batch.Cell.{quotient_le, rest_lt, cell_of-IsLaid, block_of-IsLaid}

module _ {D : Type 0} where
  -- For a position of a laid table whose block has a GPU slot that ends within the cache, the draft
  -- model's slot and offset are found, whatever slots are free, the offset is below the block size,
  -- and they give the cell that the batch uses for the position.
  pub slot_for_orig_pos-cell_of :
      (s : KvMemStore D) (free : List ℤ) (kv p slot : ℕ) (b : KvMemBlock D)
      → IsLaid s
      → p < s.total_tokens
      → p < 2 ^ 31
      → get_elem? s.blocks (p / s.block_tokens) ≡ some b
      → b.gpu_slot ≡ pos slot
      → slot * s.block_tokens + s.block_tokens ≤ kv
      → kv < u32_mod
      → (off : ℕ) × (slot_for_orig_pos s free s.block_tokens (pos p) ≡ some (pos slot, off))
        × (off < s.block_tokens)
        × (cell_of s s.block_tokens kv (pos p) ≡ some (slot * s.block_tokens + off))
  unfolding slot_for_orig_pos
  slot_for_orig_pos-cell_of s free kv p slot b v h small e on pool wide =
      let bt = s.block_tokens in
      let (found, start) = block_of-IsLaid s p b v h small e in
      let rest = rest_lt p bt v.positive in
      let positive = v.positive in
      let bounded = v.bounded in
      let off : sub32 p b.orig_pos_start ≡ p - p / bt * bt =
        ap (λ x. sub32 p x) start
        ∙ sub32_small p (p / bt * bt) (quotient_le p bt positive) (omega arith) in
      let some_tokens : (bt == 0) ≡ false = ground arith in
      let inside : ltb (p - p / bt * bt) bt ≡ true = ground arith in
      (
        p - p / bt * bt,
        rw (some_tokens, found, slot_for_orig_pos, e, on, off, inside) refl,
        rest,
        cell_of-IsLaid s kv p slot b v h small e on pool wide,
      )
