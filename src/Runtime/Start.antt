-- ===== src/Runtime/Start.antt =====
-- The constructor of kvmem_runtime.cpp: the tiers that the configuration asks for, and their buffers.
use kvmem_test.Common.{
  ℕ, Bool, false, ◌&&◌, ◌||◌, List, [], Option, none, some, if◌then◌else◌, replicate, ltb,
}
use kvmem_test.Store.Types.{empty_plan, new_store}
use kvmem_test.Tier.Pinned.{
  PinnedKvTier, PinnedKvTierConfig, PinnedKvCachePolicy, PinnedSlotPlacement, HeatOps, find, assign,
}
use kvmem_test.Tier.Pinned as Pinned
use kvmem_test.Tier.Nvme.{
  FileOps, NvmeKvTier, NvmeKvTierConfig, NvmeSlotPlacement, enabled, is_empty, slot_index,
  write_slot, read_block,
}
use kvmem_test.Tier.Nvme as Nvme
use kvmem_test.Runtime.{KvMemRuntime, KvMemRuntimeConfig}

abbrev pub nvme_enabled : {F : Type 0} → Option (NvmeKvTier F) → Bool
nvme_enabled none = false
nvme_enabled (some t) = enabled t

abbrev pub cpu_config : ℕ → ℕ → PinnedKvTierConfig
cpu_config total_bytes slot_bytes = record {
  total_bytes = total_bytes;
  slot_bytes = slot_bytes;
  cache_policy = PinnedKvCachePolicy.legacy_lru;
  heat_half_life_epochs = 8;
}

abbrev pub nvme_config : ℕ → ℕ → NvmeKvTierConfig
nvme_config total_bytes slot_bytes = record {
  total_bytes = total_bytes;
  slot_bytes = slot_bytes;
  direct_mapped = false;
  read_only = false;
}

module _ {D : Type 0} where
  -- cpu_arena_.assign(slot_count * slot_bytes, 0), slot by slot.
  abbrev pub arena_of : ℕ → Option (PinnedKvTier D) → List (List ℕ)
  arena_of slot_bytes none = []
  arena_of slot_bytes (some t) = replicate t.slot_count (replicate slot_bytes 0)

  abbrev pub cpu_enabled : Option (PinnedKvTier D) → Bool
  cpu_enabled none = false
  cpu_enabled (some t) = ltb 0 t.slot_count

module _ {D F B : Type 0} where
  -- The constructor; `file` is what the SSD tier has opened.
  unfoldable pub new_runtime : KvMemRuntimeConfig D → B → F → KvMemRuntime D F B
  unfolding new_store Pinned.new_tier Nvme.new_tier
  new_runtime c backend file =
      let slot_bytes = c.store.estimated_block_bytes in
      let cpu =
        if ltb 0 c.cpu_bytes && ltb 0 slot_bytes
        then some (Pinned.new_tier (cpu_config c.cpu_bytes slot_bytes))
        else none in
      let nvme =
        if ltb 0 c.nvme_bytes && ltb 0 slot_bytes && c.has_nvme_dir
        then some (Nvme.new_tier (nvme_config c.nvme_bytes slot_bytes) file)
        else none in
      record {
        store = new_store c.store;
        backend = backend;
        cpu_tier = cpu;
        nvme_tier = nvme;
        last_plan = empty_plan;
        pending = false;
        slot_bytes = slot_bytes;
        cpu_arena = arena_of slot_bytes cpu;
        scratch =
            if ltb 0 slot_bytes && (cpu_enabled cpu || nvme_enabled nvme)
            then replicate slot_bytes 0
            else [];
        prefetch_buf = [];
        prefetch_error = none;
        pending_gpu_frees = [];
      }
