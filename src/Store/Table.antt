-- ===== src/Store/Table.antt =====
-- The block table of kvmem/src/host/kvmem_store.cpp: `register_append`, `truncate_to` and
-- `block_id_containing`.
pub mod Layout
pub mod Append
pub mod Truncate
pub mod Locate
pub mod History
use kvmem_test.Common.{
  ℕ, zero, suc, ◌+◌, ◌-◌, ◌/◌, ℤ, pos, negsuc, Bool, true, false, ◌&&◌, ◌||◌, Option, none, some,
  List, [], ◌∷◌, ◌++◌, ltb, leb, ◌==◌, if◌then◌else◌, length, get_elem?, add32, sub32, min,
  int32_of_bits,
}
use kvmem_test.Store.Types.{
  DoubleOps, KvMemBlock, KvMemDroppedBlock, KvMemStore, default_block, orig_pos_end, block_count,
}

module _ {D : Type 0} where
  -- `take` tokens go into the last block while it has room; what remains is returned.
  unfoldable pub extend_last : ℕ → ℕ → List (KvMemBlock D) → List (KvMemBlock D) × ℕ
  extend_last bt remaining [] = ([], remaining)
  extend_last bt remaining (b ∷ []) =
      if ltb b.n_tokens bt
      then (let take = min (bt - b.n_tokens) remaining in
          (record b { n_tokens = b.n_tokens + take } ∷ [], remaining - take))
      else (b ∷ [], remaining)
  extend_last bt remaining (b ∷ c ∷ bs) =
      let (bs', rest) = extend_last bt remaining (c ∷ bs) in (b ∷ bs', rest)

  unfoldable pub fresh_block : DoubleOps D → ℕ → ℕ → ℕ → KvMemBlock D
  unfolding default_block
  fresh_block o id start n = record (default_block o) {
    block_id = id;
    orig_pos_start = start;
    n_tokens = n;
    baked_pos = pos start;
  }

  -- One round of the loop: a new block of `n` tokens at the end.
  unfoldable pub push_block : DoubleOps D → KvMemStore D → ℕ → KvMemStore D
  unfolding fresh_block
  push_block o s n = record s {
    blocks = s.blocks ++ fresh_block o (block_count s) s.total_tokens n ∷ [];
    total_tokens = add32 s.total_tokens n;
  }

  -- The `while (remaining > 0)` loop on fuel; `none` if the fuel runs out.
  unfoldable pub append_blocks : DoubleOps D → ℕ → KvMemStore D → ℕ → Option (KvMemStore D)
  unfolding push_block
  append_blocks o zero s remaining = none
  append_blocks o (suc fuel) s remaining =
      let n = min s.block_tokens remaining in
      let rest = append_blocks o fuel (push_block o s n) (remaining - n) in
      if remaining == 0 then some s else rest

  unfoldable pub register_append : DoubleOps D → KvMemStore D → ℕ → Option (KvMemStore D)
  unfolding extend_last append_blocks
  register_append o s n_new_tokens =
      let (blocks', remaining) = extend_last s.block_tokens n_new_tokens s.blocks in
      let s' = record s {
        blocks = blocks';
        total_tokens = add32 s.total_tokens (n_new_tokens - remaining);
      } in
      if n_new_tokens == 0 then some s else append_blocks o (remaining + 1) s' remaining

  abbrev pub dropped_block : KvMemBlock D → KvMemDroppedBlock
  dropped_block b = record {
    block_id = b.block_id;
    tier = b.tier;
    gpu_slot = b.gpu_slot;
    cpu_slot = b.cpu_slot;
    nvme_slot = b.nvme_slot;
  }

  -- The loop's test at a block, once the blocks behind it are done: the loop goes on to it only if
  -- none of those stays.
  unfoldable pub pop_back :
      ℕ
      → KvMemBlock D
      → List (KvMemBlock D) × List KvMemDroppedBlock × ℕ
      → List (KvMemBlock D) × List KvMemDroppedBlock × ℕ
  pop_back token_pos b ([], dropped, total) =
      if leb token_pos b.orig_pos_start
      then ([], dropped ++ dropped_block b ∷ [], sub32 total b.n_tokens)
      else (b ∷ [], dropped, total)
  pop_back token_pos b (k ∷ ks, dropped, total) = (b ∷ k ∷ ks, dropped, total)

  -- The pop-back loop: the blocks that stay, those dropped, the last one first, and the total.
  unfoldable pub pop_past :
      ℕ → ℕ → List (KvMemBlock D) → List (KvMemBlock D) × List KvMemDroppedBlock × ℕ
  unfolding pop_back
  pop_past token_pos total [] = ([], [], total)
  pop_past token_pos total (b ∷ bs) = pop_back token_pos b (pop_past token_pos total bs)

  -- The shrink of the last block that stays.
  unfoldable pub shrink_last : ℕ → ℕ → List (KvMemBlock D) → List (KvMemBlock D) × ℕ
  shrink_last token_pos total [] = ([], total)
  shrink_last token_pos total (b ∷ []) =
      if ltb token_pos (orig_pos_end b)
      then (let keep = sub32 token_pos b.orig_pos_start in
          (record b { n_tokens = keep } ∷ [], sub32 total (sub32 b.n_tokens keep)))
      else (b ∷ [], total)
  shrink_last token_pos total (b ∷ c ∷ bs) =
      let (bs', total') = shrink_last token_pos total (c ∷ bs) in (b ∷ bs', total')

  unfoldable pub truncate_to : KvMemStore D → ℕ → KvMemStore D × List KvMemDroppedBlock
  unfolding pop_past shrink_last
  truncate_to s token_pos =
      if leb s.total_tokens token_pos
      then (s, [])
      else (let (kept, dropped, total) = pop_past token_pos s.total_tokens s.blocks in
          let (blocks', total') = shrink_last token_pos total kept in
          (record s { blocks = blocks'; total_tokens = total' }, dropped))

  abbrev pub owns : KvMemBlock D → ℕ → Bool
  owns b p = leb b.orig_pos_start p && ltb p (orig_pos_end b)

  -- The scan over all blocks.
  unfoldable pub scan_blocks : ℕ → ℕ → List (KvMemBlock D) → ℤ
  scan_blocks p i [] = negsuc 0
  scan_blocks p i (b ∷ bs) = if owns b p then int32_of_bits i else scan_blocks p (i + 1) bs

  unfoldable pub block_id_containing : KvMemStore D → ℕ → ℤ
  unfolding scan_blocks
  block_id_containing s p =
      let id = if s.block_tokens == 0 then 0 else p / s.block_tokens in
      let id' = if leb (block_count s) id then block_count s - 1 else id in
      if (block_count s == 0) || leb s.total_tokens p
      then negsuc 0
      else elim (get_elem? s.blocks id') [
        | none ↦ negsuc 0
        | some b ↦ if owns b p then int32_of_bits id' else scan_blocks p 0 s.blocks
      ]
