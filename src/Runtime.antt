-- ===== src/Runtime.antt =====
-- The executor of the plans, kvmem/src/host/kvmem_runtime.cpp: blocks move between the GPU, the
-- host-memory tier and the SSD tier. The backend and the file are parameters. The host arena is the
-- list of its slots' bytes. The reads that `start_prefetch` launches run in the order in which they
-- are launched; their first error is kept for `wait_prefetch`. Trace output is left out.
pub mod Start
pub mod StageOut
pub mod StageIn
pub mod Cadence
pub mod Staging
pub mod Leave
pub mod Enter
pub mod Residency
pub mod Selection
pub mod Total
use kvmem_test.Common.{
  ℕ, ◌==◌, ℤ, pos, negsuc, Bool, true, false, not, ◌&&◌, ◌||◌, List, [], ◌∷◌, ◌++◌, Option, none,
  some, if◌then◌else◌, length, get_elem?, set, replicate, leb, ltb, add32, is_nonneg, Error, Result,
  ok, throw, ◌>>=◌, contains,
}
use kvmem_test.Store.Types.{
  DoubleOps, KvTier, is_gpu, KvMemBlock, KvMemStore, KvMemStoreConfig, KvMemPlan, KvMemMethod,
  KvMemDroppedBlock, empty_plan, new_store, block_count,
}
use kvmem_test.Store.Table as Table
use kvmem_test.Store.Plan as Plan
use kvmem_test.Store.Budget.{prefill_needs_offload}
use kvmem_test.Store.Setters.{
  is_ssd, set_block_tier, set_block_gpu_slot, set_block_cpu_copy, set_block_ssd_backing,
}
use kvmem_test.Store.Media.{pick_topk_blocks, pick_prefill_pressure_blocks}
use kvmem_test.Tier.Pinned.{
  PinnedKvTier, PinnedKvTierConfig, PinnedKvCachePolicy, PinnedSlotPlacement, HeatOps, find, assign,
}
use kvmem_test.Tier.Pinned as Pinned
use kvmem_test.Tier.Nvme.{
  FileOps, NvmeKvTier, NvmeKvTierConfig, NvmeSlotPlacement, enabled, is_empty, slot_index,
  write_slot, read_block,
}
use kvmem_test.Tier.Nvme as Nvme

-- The virtual functions of kvmem/include/kvmem/kvmem_backend.hpp on the backend's state. A copy to
-- the host takes the bytes of the buffer and gives its new bytes.
pub record KvMemBackend (B : Type 0) : Type 0 where
  pub alloc_gpu_slot : B → B × ℤ
  pub free_gpu_slot : B → ℤ → B
  pub copy_block_to_host : B → ℕ → ℤ → List ℕ → List ℕ
  pub copy_block_from_host : B → ℕ → ℤ → List ℕ → B

pub record KvMemRuntimeConfig (D : Type 0) : Type 0 where
  pub store : KvMemStoreConfig D
  pub cpu_bytes : ℕ
  pub nvme_bytes : ℕ
  pub has_nvme_dir : Bool

pub record KvMemRuntime (D F B : Type 0) : Type 0 where
  pub store : KvMemStore D
  pub backend : B
  pub cpu_tier : Option (PinnedKvTier D)
  pub nvme_tier : Option (NvmeKvTier F)
  pub last_plan : KvMemPlan
  pub pending : Bool
  pub slot_bytes : ℕ
  pub cpu_arena : List (List ℕ)
  pub scratch : List ℕ
  pub prefetch_buf : List (ℕ × List ℕ)
  pub prefetch_error : Option Error
  pub pending_gpu_frees : List ℤ

abbrev pub is_retrieval : KvMemMethod → Bool
is_retrieval KvMemMethod.retrieval = true
is_retrieval KvMemMethod.h2o = false
is_retrieval KvMemMethod.recency = false

abbrev pub is_cpu : KvTier → Bool
is_cpu KvTier.gpu = false
is_cpu KvTier.cpu = true
is_cpu KvTier.ssd = false

-- buffer.empty() ? nullptr : buffer.data()
abbrev pub bytes_of : List ℕ → Option (List ℕ)
bytes_of [] = none
bytes_of (x ∷ xs) = some (x ∷ xs)

module _ {D : Type 0} where
  abbrev pub nvme_slot_of : KvMemStore D → ℕ → ℤ
  nvme_slot_of s id = elim (get_elem? s.blocks id) [ none ↦ negsuc 0 | some b ↦ b.nvme_slot ]

module _ {D F B : Type 0} where
  unfoldable pub cpu_ptr : KvMemRuntime D F B → ℤ → Option (List ℕ)
  cpu_ptr r (pos slot) = get_elem? r.cpu_arena slot
  cpu_ptr r (negsuc _) = none
