-- ===== src/Runtime/StageIn.antt =====
-- `stage_in` of kvmem_runtime.cpp: a block enters the GPU from where its bytes are.
use kvmem_test.Common.{
  ℕ, ℤ, negsuc, not, ◌&&◌, ◌||◌, List, [], ◌∷◌, Option, none, some, if◌then◌else◌, get_elem?, ltb,
  is_nonneg, Result, ok, ◌>>=◌,
}
use kvmem_test.Store.Types.{KvTier, is_gpu, KvMemBlock}
use kvmem_test.Store.Setters.{is_ssd, set_block_tier, set_block_gpu_slot, set_block_cpu_copy}
use kvmem_test.Tier.Pinned.{
  PinnedKvTier, PinnedKvTierConfig, PinnedKvCachePolicy, PinnedSlotPlacement, HeatOps, find, assign,
}
use kvmem_test.Tier.Pinned as Pinned
use kvmem_test.Tier.Nvme.{FileOps, NvmeKvTier, enabled, is_empty, read_block}
use kvmem_test.Runtime.{KvMemBackend, KvMemRuntime, nvme_slot_of, cpu_ptr}

module _ {D F B : Type 0} where
  module _ (fo : FileOps F) (bk : KvMemBackend B) where
    -- Where the bytes of a block come from: the prefetched copy, the host tier or the SSD tier.
    unfoldable pub read_ssd :
        KvMemRuntime D F B
        → ℕ
        → KvMemBlock D
        → Option (NvmeKvTier F)
        → Result (KvMemRuntime D F B × Option (List ℕ))
    unfolding read_block
    read_ssd r block_id b none = ok (r, none)
    read_ssd r block_id b (some t) =
        if enabled t
          && (is_nonneg b.nvme_slot || is_ssd b.tier)
          && ltb 0 r.slot_bytes
          && not (is_empty r.scratch)
        then (read_block fo t block_id r.slot_bytes >>= λ p.
            ok (record r { nvme_tier = some (p.0); scratch = p.1 }, some (p.1)))
        else ok (r, none)

    unfoldable pub find_source :
        KvMemRuntime D F B → ℕ → KvMemBlock D → Result (KvMemRuntime D F B × Option (List ℕ))
    unfolding find cpu_ptr read_ssd
    find_source r block_id b = elim (find block_id r.prefetch_buf) [
      | some data' ↦ ok (r, some data')
      | none ↦
          if is_nonneg b.cpu_slot
          then ok (r, cpu_ptr r b.cpu_slot)
          else read_ssd r block_id b r.nvme_tier
    ]

    -- copy_block_from_host, if there are bytes and a slot.
    unfoldable pub copy_in : KvMemRuntime D F B → ℕ → ℤ → Option (List ℕ) → KvMemRuntime D F B
    copy_in r block_id gpu none = r
    copy_in r block_id gpu (some data') =
        if is_nonneg gpu && ltb 0 r.slot_bytes
        then record r { backend = bk.copy_block_from_host r.backend block_id gpu data' }
        else r

    unfoldable pub release_copy :
        KvMemRuntime D F B → ℕ → KvMemBlock D → Option (PinnedKvTier D) → KvMemRuntime D F B
    unfolding Pinned.release_block set_block_cpu_copy
    release_copy r block_id b none = r
    release_copy r block_id b (some t) =
        if is_nonneg b.cpu_slot
        then record r {
          cpu_tier = some (Pinned.release_block t block_id);
          store = set_block_cpu_copy r.store block_id (negsuc 0);
        }
        else r

    abbrev pub enter_gpu : KvMemRuntime D F B → ℕ → ℤ → KvMemRuntime D F B
    enter_gpu r block_id gpu = record r {
      store =
          set_block_gpu_slot
            (set_block_tier r.store block_id KvTier.gpu (negsuc 0) (nvme_slot_of r.store block_id))
            block_id gpu;
    }

    unfoldable pub stage_in_block :
        KvMemRuntime D F B → ℕ → KvMemBlock D → Result (KvMemRuntime D F B)
    unfolding find_source copy_in release_copy
    stage_in_block r block_id b =
        let (backend, gpu) = bk.alloc_gpu_slot r.backend in
        find_source (record r { backend = backend }) block_id b >>= λ p.
        let r₁ = copy_in (p.0) block_id gpu (p.1) in
        ok (enter_gpu (release_copy r₁ block_id b r₁.cpu_tier) block_id gpu)

    unfoldable pub stage_in : KvMemRuntime D F B → ℕ → Result (KvMemRuntime D F B)
    unfolding stage_in_block
    stage_in r block_id = elim (get_elem? r.store.blocks block_id) [
      | none ↦ ok r
      | some b ↦ if is_gpu b.tier && is_nonneg b.gpu_slot then ok r else stage_in_block r block_id b
    ]

    unfoldable pub stage_in_all : KvMemRuntime D F B → List ℕ → Result (KvMemRuntime D F B)
    unfolding stage_in
    stage_in_all r [] = ok r
    stage_in_all r (id ∷ ids) = stage_in r id >>= λ r'. stage_in_all r' ids
