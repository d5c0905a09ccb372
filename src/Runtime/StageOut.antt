-- ===== src/Runtime/StageOut.antt =====
-- `stage_out` of kvmem_runtime.cpp and what it calls: a block leaves the GPU for a slot of the host
-- tier, or of the SSD tier, or for none.
use kvmem_test.Common.{
  ℕ, ◌==◌, ℤ, pos, negsuc, Bool, true, false, not, ◌&&◌, ◌||◌, List, [], ◌∷◌, ◌++◌, Option, none,
  some, if◌then◌else◌, length, get_elem?, set, ltb, is_nonneg, Result, ok, ◌>>=◌,
}
use kvmem_test.Store.Types.{KvTier, KvMemBlock, KvMemStore}
use kvmem_test.Store.Setters.{set_block_tier, set_block_cpu_copy, set_block_ssd_backing}
use kvmem_test.Tier.Pinned.{
  PinnedKvTier, PinnedKvTierConfig, PinnedKvCachePolicy, PinnedSlotPlacement, HeatOps, find, assign,
}
use kvmem_test.Tier.Pinned as Pinned
use kvmem_test.Tier.Nvme.{
  FileOps, NvmeKvTier, NvmeKvTierConfig, NvmeSlotPlacement, enabled, is_empty, slot_index,
  write_slot, read_block,
}
use kvmem_test.Tier.Nvme as Nvme
use kvmem_test.Runtime.{
  KvMemBackend, KvMemRuntime, is_retrieval, is_cpu, bytes_of, nvme_slot_of, cpu_ptr,
}

module _ {D : Type 0} where
  -- store_.set_block_ssd_backing(evicted_block, -1, false), if a block was evicted.
  unfoldable pub forget_evicted : ℤ → KvMemStore D → KvMemStore D
  unfolding set_block_ssd_backing
  forget_evicted (pos id) s = set_block_ssd_backing s id (negsuc 0) false
  forget_evicted (negsuc _) s = s

  -- A block of the host tier goes on to the SSD tier, if it has a slot there.
  unfoldable pub demote : KvMemStore D → ℕ → KvMemBlock D → KvMemStore D
  unfolding set_block_tier
  demote s vic b =
      if is_cpu b.tier
      then set_block_tier s vic (if is_nonneg b.nvme_slot then KvTier.ssd else KvTier.cpu)
          (negsuc 0) b.nvme_slot
      else s

  unfoldable pub demote_victim : KvMemStore D → ℕ → KvMemStore D
  unfolding set_block_cpu_copy demote
  demote_victim s vic =
      let s' = set_block_cpu_copy s vic (negsuc 0) in
      elim (get_elem? s'.blocks vic) [ none ↦ s' | some b ↦ demote s' vic b ]

module _ {D F B : Type 0} where
  -- if (gpu_slot >= 0) pending_gpu_frees_.push_back(gpu_slot);
  abbrev pub free_later : ℤ → KvMemRuntime D F B → KvMemRuntime D F B
  free_later gpu_slot r = record r {
    pending_gpu_frees =
        if is_nonneg gpu_slot then r.pending_gpu_frees ++ gpu_slot ∷ [] else r.pending_gpu_frees;
  }

  -- memcpy(cpu_ptr(slot), scratch_.data(), slot_bytes_)
  abbrev pub fill_slot : ℤ → KvMemRuntime D F B → KvMemRuntime D F B
  fill_slot slot r = record r {
    cpu_arena =
        if is_empty r.scratch then r.cpu_arena else set r.cpu_arena (slot_index slot) r.scratch;
  }

  module _ (fo : FileOps F) where
    unfoldable pub spill_placed :
        KvMemRuntime D F B
        → ℕ
        → List ℕ
        → NvmeKvTier F × NvmeSlotPlacement
        → Result (KvMemRuntime D F B × Bool)
    unfolding write_slot forget_evicted set_block_ssd_backing
    spill_placed r block_id data' (t, np) =
        if is_nonneg np.slot
        then ((if is_retrieval r.store.select_method then write_slot fo t np.slot data' else ok t)
            >>= λ t'. ok (
              record r {
                nvme_tier = some t';
                store =
                    set_block_ssd_backing (forget_evicted np.evicted_block r.store) block_id np.slot
                      true;
              },
              true,
            ))
        else ok (record r { nvme_tier = some t }, false)

    unfoldable pub spill_to :
        KvMemRuntime D F B
        → ℕ
        → Option (NvmeKvTier F)
        → Option (List ℕ)
        → Result (KvMemRuntime D F B × Bool)
    unfolding spill_placed Nvme.place_block_evicting
    spill_to r block_id none bytes = ok (r, false)
    spill_to r block_id (some t) none = ok (r, false)
    spill_to r block_id (some t) (some data') =
        if not (enabled t) || (r.slot_bytes == 0)
        then ok (r, false)
        else spill_placed r block_id data' (Nvme.place_block_evicting t block_id)

    unfoldable pub spill_bytes_to_nvme :
        KvMemRuntime D F B → ℕ → Option (List ℕ) → Result (KvMemRuntime D F B × Bool)
    unfolding spill_to
    spill_bytes_to_nvme r block_id bytes = spill_to r block_id r.nvme_tier bytes

    -- The block that lost its slot of the host tier.
    unfoldable pub evict_victim : KvMemRuntime D F B → ℤ → ℤ → Result (KvMemRuntime D F B)
    unfolding spill_bytes_to_nvme cpu_ptr demote_victim
    evict_victim r (negsuc _) slot = ok r
    evict_victim r (pos vic) slot = spill_bytes_to_nvme r vic (cpu_ptr r slot) >>= λ p.
        ok (record (p.0) { store = demote_victim (p.0).store vic })

    unfoldable pub stage_out_cpu :
        KvMemRuntime D F B → ℕ → KvMemBlock D → PinnedSlotPlacement → Result (KvMemRuntime D F B)
    unfolding evict_victim set_block_tier set_block_cpu_copy
    stage_out_cpu r block_id b p = evict_victim r p.evicted_block p.slot >>= λ r₁. ok (
        free_later b.gpu_slot (record (fill_slot p.slot r₁) {
          store =
              set_block_cpu_copy (set_block_tier r₁.store block_id KvTier.cpu p.slot b.nvme_slot)
                block_id p.slot;
        }))

    -- Without a slot of the SSD tier the block only leaves the GPU.
    unfoldable pub stage_out_ssd :
        KvMemRuntime D F B → ℕ → KvMemBlock D → Result (KvMemRuntime D F B)
    unfolding spill_bytes_to_nvme set_block_tier
    stage_out_ssd r block_id b = spill_bytes_to_nvme r block_id (bytes_of r.scratch) >>= λ p.
        let s = (p.0).store in
        ok (
          free_later b.gpu_slot (record (p.0) {
            store =
                if p.1
                then set_block_tier s block_id KvTier.ssd (negsuc 0) (nvme_slot_of s block_id)
                else set_block_tier s block_id KvTier.cpu (negsuc 0) b.nvme_slot;
          }))

    unfoldable pub stage_out_placed :
        KvMemRuntime D F B
        → ℕ
        → KvMemBlock D
        → PinnedKvTier D × PinnedSlotPlacement
        → Result (KvMemRuntime D F B)
    unfolding stage_out_cpu stage_out_ssd
    stage_out_placed r block_id b (t, p) =
        let r' = record r { cpu_tier = some t } in
        if is_nonneg p.slot then stage_out_cpu r' block_id b p else stage_out_ssd r' block_id b

  module _ (h : HeatOps D) (fo : FileOps F) (bk : KvMemBackend B) where
    -- The bytes of the block on the GPU, where they have to survive.
    unfoldable pub copy_out : KvMemRuntime D F B → ℕ → KvMemBlock D → KvMemRuntime D F B
    copy_out r block_id b =
        if is_retrieval r.store.select_method
          && is_nonneg b.gpu_slot
          && ltb 0 r.slot_bytes
          && not (is_empty r.scratch)
        then record r { scratch = bk.copy_block_to_host r.backend block_id b.gpu_slot r.scratch }
        else r

    unfoldable pub stage_out_block :
        KvMemRuntime D F B
        → ℕ
        → KvMemBlock D
        → Option (PinnedKvTier D)
        → Result (KvMemRuntime D F B)
    unfolding stage_out_ssd stage_out_placed Pinned.place_block_evicting
    stage_out_block r block_id b none = stage_out_ssd fo r block_id b
    stage_out_block r block_id b (some t) =
        if ltb 0 t.slot_count && ltb 0 r.slot_bytes && ltb 0 (length r.cpu_arena)
        then stage_out_placed fo r block_id b (Pinned.place_block_evicting h t block_id)
        else stage_out_ssd fo r block_id b

    unfoldable pub stage_out : KvMemRuntime D F B → ℕ → Result (KvMemRuntime D F B)
    unfolding copy_out stage_out_block
    stage_out r block_id = elim (get_elem? r.store.blocks block_id) [
      | none ↦ ok r
      | some b ↦ let r' = copy_out r block_id b in stage_out_block r' block_id b r'.cpu_tier
    ]

    unfoldable pub stage_out_all : KvMemRuntime D F B → List ℕ → Result (KvMemRuntime D F B)
    unfolding stage_out
    stage_out_all r [] = ok r
    stage_out_all r (id ∷ ids) = stage_out r id >>= λ r'. stage_out_all r' ids
