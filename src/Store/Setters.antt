-- ===== src/Store/Setters.antt =====
-- The metadata updates of kvmem_store.cpp: scores, tiers, slots and bake positions of one block.
use kvmem_test.Common.{
  ℕ, ℤ, negsuc, Bool, true, false, ◌&&◌, List, [], ◌∷◌, map, leb, if◌then◌else◌, modify, add32,
  add64, is_nonneg, equals_ℤ, abs_diff,
}
use kvmem_test.Store.Types.{DoubleOps, KvTier, is_gpu, KvMemBlock, KvMemStore, block_count}

abbrev pub is_ssd : KvTier → Bool
is_ssd KvTier.gpu = false
is_ssd KvTier.cpu = false
is_ssd KvTier.ssd = true

module _ {D : Type 0} where
  -- `if (block_id >= block_count()) return;`, then a change of the block.
  unfoldable pub update_block : KvMemStore D → ℕ → (KvMemBlock D → KvMemBlock D) → KvMemStore D
  update_block s block_id f =
      if leb (block_count s) block_id then s else record s { blocks = modify s.blocks block_id f }

  unfoldable pub add_scores : DoubleOps D → List (KvMemBlock D) → List D → List (KvMemBlock D)
  add_scores o [] scores = []
  add_scores o (b ∷ bs) [] = b ∷ bs
  add_scores o (b ∷ bs) (x ∷ scores) =
      let score = o.add b.profile_score x in
      record b { attn_score = score; profile_score = score } ∷ add_scores o bs scores

  unfoldable pub accumulate_attn : DoubleOps D → KvMemStore D → List D → KvMemStore D
  unfolding add_scores
  accumulate_attn o s scores = record s { blocks = add_scores o s.blocks scores }

  unfoldable pub put_scores : DoubleOps D → List (KvMemBlock D) → List D → List (KvMemBlock D)
  put_scores o [] scores = []
  put_scores o (b ∷ bs) [] =
      record b { attn_score = o.zero; retrieval_score = o.zero } ∷ put_scores o bs []
  put_scores o (b ∷ bs) (x ∷ scores) =
      record b { attn_score = x; retrieval_score = x } ∷ put_scores o bs scores

  unfoldable pub set_retrieval_scores : DoubleOps D → KvMemStore D → List D → KvMemStore D
  unfolding put_scores
  set_retrieval_scores o s scores = record s { blocks = put_scores o s.blocks scores }

  unfoldable pub set_attn_scores : DoubleOps D → KvMemStore D → List D → KvMemStore D
  unfolding set_retrieval_scores
  set_attn_scores o s scores = set_retrieval_scores o s scores

  -- Inclusive copies: clean lower copies survive while the GPU is active.
  unfoldable pub tier_inclusive : KvTier → ℤ → ℤ → KvMemBlock D → KvMemBlock D
  tier_inclusive t cpu_slot nvme_slot b =
      if is_gpu t
      then record b {
        tier = t;
        cpu_slot = if is_nonneg cpu_slot then cpu_slot else b.cpu_slot;
        nvme_slot = if is_nonneg nvme_slot then nvme_slot else b.nvme_slot;
      }
      else record b {
        tier = t;
        gpu_slot = negsuc 0;
        cpu_slot = cpu_slot;
        nvme_slot = if is_nonneg nvme_slot then nvme_slot else b.nvme_slot;
      }

  -- Exclusive copies: one authoritative copy.
  unfoldable pub tier_exclusive : KvTier → ℤ → ℤ → KvMemBlock D → KvMemBlock D
  tier_exclusive t cpu_slot nvme_slot b =
      if is_gpu t
      then record b { tier = t; cpu_slot = negsuc 0; nvme_slot = negsuc 0; ssd_clean = false }
      else record b {
        tier = t;
        gpu_slot = negsuc 0;
        cpu_slot = cpu_slot;
        nvme_slot = nvme_slot;
        ssd_clean = is_ssd t && is_nonneg nvme_slot;
      }

  unfoldable pub set_block_tier : KvMemStore D → ℕ → KvTier → ℤ → ℤ → KvMemStore D
  unfolding update_block tier_inclusive tier_exclusive
  set_block_tier s block_id t cpu_slot nvme_slot = update_block s block_id (
      if s.optimize_stage_out
      then tier_inclusive t cpu_slot nvme_slot
      else tier_exclusive t cpu_slot nvme_slot)

  unfoldable pub set_block_gpu_slot : KvMemStore D → ℕ → ℤ → KvMemStore D
  unfolding update_block
  set_block_gpu_slot s block_id slot = update_block s block_id (λ b. record b { gpu_slot = slot })

  unfoldable pub set_block_cpu_copy : KvMemStore D → ℕ → ℤ → KvMemStore D
  unfolding update_block
  set_block_cpu_copy s block_id slot = update_block s block_id (λ b. record b { cpu_slot = slot })

  unfoldable pub set_block_ssd_backing : KvMemStore D → ℕ → ℤ → Bool → KvMemStore D
  unfolding update_block
  set_block_ssd_backing s block_id slot clean =
      update_block s block_id
        (λ b. record b { nvme_slot = slot; ssd_clean = clean && is_nonneg slot })

  unfoldable pub set_block_io_in_flight : KvMemStore D → ℕ → Bool → KvMemStore D
  unfolding update_block
  set_block_io_in_flight s block_id flag =
      update_block s block_id (λ b. record b { in_flight = flag })

  unfoldable pub set_block_baked_pos : KvMemStore D → ℕ → ℤ → KvMemStore D
  unfolding update_block
  set_block_baked_pos s block_id p = update_block s block_id (λ b. record b { baked_pos = p })

  unfoldable pub rerope : ℤ → KvMemBlock D → KvMemBlock D
  rerope p b = if equals_ℤ b.baked_pos p then record b { baked_pos = p } else record b {
    baked_pos = p;
    remap_count = add32 b.remap_count 1;
    remap_abs_delta = add64 b.remap_abs_delta (abs_diff b.baked_pos p);
  }

  unfoldable pub record_block_rerope : KvMemStore D → ℕ → ℤ → KvMemStore D
  unfolding update_block rerope
  record_block_rerope s block_id p = update_block s block_id (rerope p)

  unfoldable pub clear_working_set : KvMemStore D → KvMemStore D
  clear_working_set s = record s {
    blocks = map (λ (b : KvMemBlock D). record b { in_working_set = false }) s.blocks;
  }
