-- ===== src/Tests/Runs.antt =====
-- The executor on the store of five blocks, with a host tier of two slots and no SSD tier.
use kvmem_test.Common.{
  ℕ, ◌+◌, ◌≡◌, refl, List, [], ◌∷◌, pos, true, false, contains, none, some, ok, throw,
}
use kvmem_test.Store.Types.{KvTier, KvMemStore, KvMemPlan, empty_plan}
use kvmem_test.Store.Select.{sort, insert}
use kvmem_test.Store.Plan.{
  unique, drop_from, normalize, ends_after, overlap, leaves, stage_out_ids, leave_window,
  over_remap_limit, over_delta_limit, baked_out_of_range, plan_remap, move_block, count_block,
  place_block, place_id, place_blocks, start_window, set_selection,
}
use kvmem_test.Runtime.{KvMemBackend, KvMemRuntime}
use kvmem_test.Runtime.Cadence.{prepare_selection, start_prefetch, wait_prefetch, finish_reselect}
use kvmem_test.Runtime.Staging.{gpu_at}
use kvmem_test.Runtime.Residency.{Executed, finish_reselect-Executed}
use kvmem_test.Runtime.Selection.{finish_reselect-residency}
use kvmem_test.Runtime.Total.{Returns, finish_reselect-Returns, finish_reselect-prepare_selection}
use kvmem_test.Tests.{five_blocks, five_blocks-IsLaid, block}
use kvmem_test.Tests.Tiers.{counted, two_slots}
use kvmem_test.Tier.Pinned.{new_tier}
use kvmem_test.Tests.Ssd.{Bytes, memory}

-- The state of the backend is the next slot that it gives.
abbrev slots : KvMemBackend ℕ
slots = record {
  alloc_gpu_slot = λ next. (next + 1, pos next);
  free_gpu_slot = λ next slot. next;
  copy_block_to_host = λ next id slot bytes. id ∷ [];
  copy_block_from_host = λ next id slot bytes. next;
}

abbrev start : KvMemRuntime ℕ Bytes ℕ
start = record {
  store = five_blocks;
  backend = 9;
  cpu_tier = some (new_tier two_slots);
  nvme_tier = none;
  last_plan = empty_plan;
  pending = false;
  slot_bytes = 100;
  cpu_arena = (0 ∷ []) ∷ (0 ∷ []) ∷ [];
  scratch = 0 ∷ [];
  prefetch_buf = [];
  prefetch_error = none;
  pending_gpu_frees = [];
}

abbrev selected : List ℕ
selected = 1 ∷ 2 ∷ []

abbrev planned : KvMemStore ℕ × KvMemPlan
planned = elim (set_selection five_blocks selected false) [
  | ok p ↦ p
  | throw e ↦ (five_blocks, empty_plan)
]

abbrev prepared : KvMemRuntime ℕ Bytes ℕ
prepared = record start { store = planned.0; last_plan = planned.1; pending = true }

selection_prepared : prepare_selection memory start selected false ≡ ok (prepared, planned.1)
unfolding prepare_selection start_prefetch wait_prefetch sort insert unique drop_from normalize
    ends_after overlap leaves stage_out_ids leave_window over_remap_limit over_delta_limit
    baked_out_of_range plan_remap move_block count_block place_block place_id place_blocks
    start_window set_selection
selection_prepared = refl

finish_reselect-prepare_selection_example :
    (r₁ : KvMemRuntime ℕ Bytes ℕ) × (plan : KvMemPlan) × (r' : KvMemRuntime ℕ Bytes ℕ)
    × (prepare_selection memory start selected false ≡ ok (r₁, plan))
    × (finish_reselect counted memory slots r₁ ≡ ok r')
    × (gpu_at r'.store.blocks 1 ≡ contains 1 selected)
finish_reselect-prepare_selection_example =
    finish_reselect-prepare_selection counted memory slots start selected false 1
      (block 1 4 KvTier.ssd false 30) refl refl five_blocks-IsLaid refl refl

-- What `finish_reselect` returns.
abbrev finished : Returns (finish_reselect counted memory slots prepared)
finished = finish_reselect-Returns counted memory slots prepared refl refl

finish_reselect-Executed_example : Executed prepared finished.0
finish_reselect-Executed_example =
    finish_reselect-Executed counted memory slots prepared finished.0 refl finished.1

-- Block 1 was on the SSD and is requested.
finish_reselect-residency_example : gpu_at (finished.0).store.blocks 1 ≡ contains 1 selected
finish_reselect-residency_example =
    finish_reselect-residency counted memory slots start prepared finished.0 selected false
      planned.1 1 (block 1 4 KvTier.ssd false 30) five_blocks-IsLaid refl refl selection_prepared
      finished.1
