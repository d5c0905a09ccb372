-- ===== src/Runtime/Cadence.antt =====
-- The methods of kvmem_runtime.cpp that its users call: construction, growth and truncation, and the
-- two phases of a selection.
use kvmem_test.Common.{
  ℕ, ℤ, Bool, true, false, ◌&&◌, ◌||◌, List, [], ◌∷◌, Option, none, some, if◌then◌else◌, get_elem?,
  replicate, ltb, add32, is_nonneg, Error, Result, ok, throw, ◌>>=◌,
}
use kvmem_test.Store.Types.{DoubleOps, KvMemBlock, KvMemPlan, KvMemDroppedBlock, empty_plan}
use kvmem_test.Store.Table as Table
use kvmem_test.Store.Plan as Plan
use kvmem_test.Store.Budget.{prefill_needs_offload}
use kvmem_test.Store.Setters.{is_ssd}
use kvmem_test.Store.Media.{pick_topk_blocks, pick_prefill_pressure_blocks}
use kvmem_test.Tier.Pinned.{
  PinnedKvTier, PinnedKvTierConfig, PinnedKvCachePolicy, PinnedSlotPlacement, HeatOps, find, assign,
}
use kvmem_test.Tier.Pinned as Pinned
use kvmem_test.Tier.Nvme.{
  FileOps, NvmeKvTier, NvmeKvTierConfig, NvmeSlotPlacement, enabled, is_empty, slot_index,
  write_slot, read_block,
}
use kvmem_test.Tier.Nvme as Nvme
use kvmem_test.Runtime.{KvMemBackend, KvMemRuntime}
use kvmem_test.Runtime.Start.{nvme_enabled}
use kvmem_test.Runtime.StageOut.{stage_out_all}
use kvmem_test.Runtime.StageIn.{stage_in_all}

abbrev pub map_tier : {T : Type 0} → (T → T) → Option T → Option T
map_tier f none = none
map_tier f (some t) = some (f t)

-- if (!err) err = std::current_exception();
abbrev pub first_error : Option Error → Error → Option Error
first_error none e = some e
first_error (some e') e = some e'

module _ {B : Type 0} (bk : KvMemBackend B) where
  unfoldable pub free_gpu_slots : B → List ℤ → B
  free_gpu_slots b [] = b
  free_gpu_slots b (slot ∷ slots) = free_gpu_slots (bk.free_gpu_slot b slot) slots

module _ {D : Type 0} where
  -- The tokens of the blocks, for `commit_resident_selection`.
  unfoldable pub add_tokens : List (KvMemBlock D) → ℕ → List ℕ → ℕ
  add_tokens bs total [] = total
  add_tokens bs total (id ∷ ids) = elim (get_elem? bs id) [
    | none ↦ add_tokens bs total ids
    | some b ↦ add_tokens bs (add32 total b.n_tokens) ids
  ]

module _ {D F B : Type 0} where
  unfoldable pub wait_prefetch : KvMemRuntime D F B → Result (KvMemRuntime D F B)
  wait_prefetch r = elim r.prefetch_error [ none ↦ ok r | some e ↦ throw e ]

  module _ (bk : KvMemBackend B) where
    -- What a dropped block held is given back.
    unfoldable pub release_dropped : KvMemRuntime D F B → KvMemDroppedBlock → KvMemRuntime D F B
    unfolding Pinned.release_block Nvme.release_block
    release_dropped r d = record r {
      cpu_tier =
          if is_nonneg d.cpu_slot
          then map_tier (λ t. Pinned.release_block t d.block_id) r.cpu_tier
          else r.cpu_tier;
      nvme_tier =
          if is_nonneg d.nvme_slot
          then map_tier (λ t. Nvme.release_block t d.block_id) r.nvme_tier
          else r.nvme_tier;
      backend = if is_nonneg d.gpu_slot then bk.free_gpu_slot r.backend d.gpu_slot else r.backend;
    }

    unfoldable pub release_all : KvMemRuntime D F B → List KvMemDroppedBlock → KvMemRuntime D F B
    unfolding release_dropped
    release_all r [] = r
    release_all r (d ∷ ds) = release_all (release_dropped r d) ds

    unfoldable pub truncate_to :
        KvMemRuntime D F B → ℕ → Result (KvMemRuntime D F B × List KvMemDroppedBlock)
    unfolding wait_prefetch Table.truncate_to release_all
    truncate_to r token_pos = wait_prefetch r >>= λ r'.
        let (s, dropped) = Table.truncate_to r'.store token_pos in
        ok (release_all (record r' { prefetch_buf = []; store = s }) dropped, dropped)

  -- What one read of the SSD tier leaves; an error waits for `wait_prefetch`.
  unfoldable pub prefetched :
      KvMemRuntime D F B → ℕ → Result (NvmeKvTier F × List ℕ) → KvMemRuntime D F B
  unfolding assign
  prefetched r id (ok p) = record r {
    nvme_tier = some (p.0);
    prefetch_buf = assign id (p.1) r.prefetch_buf;
  }
  prefetched r id (throw e) = record r {
    prefetch_buf = assign id (replicate r.slot_bytes 0) r.prefetch_buf;
    prefetch_error = first_error r.prefetch_error e;
  }

  module _ (fo : FileOps F) where
    unfoldable pub prefetch : KvMemRuntime D F B → NvmeKvTier F → ℕ → KvMemRuntime D F B
    unfolding read_block prefetched
    prefetch r t id = prefetched r id (read_block fo t id r.slot_bytes)

    unfoldable pub prefetch_block :
        KvMemRuntime D F B → ℕ → Option (KvMemBlock D) → Option (NvmeKvTier F) → KvMemRuntime D F B
    unfolding prefetch
    prefetch_block r id none t = r
    prefetch_block r id (some b) none = r
    prefetch_block r id (some b) (some t) =
        if is_nonneg b.nvme_slot || is_ssd b.tier then prefetch r t id else r

    unfoldable pub prefetch_all : KvMemRuntime D F B → List ℕ → KvMemRuntime D F B
    unfolding prefetch_block
    prefetch_all r [] = r
    prefetch_all r (id ∷ ids) =
        prefetch_all (prefetch_block r id (get_elem? r.store.blocks id) r.nvme_tier) ids

    unfoldable pub start_prefetch : KvMemRuntime D F B → Result (KvMemRuntime D F B)
    unfolding wait_prefetch prefetch_all
    start_prefetch r = wait_prefetch r >>= λ r'.
        let r₁ = record r' { prefetch_buf = [] } in
        ok (
          if nvme_enabled r₁.nvme_tier && ltb 0 r₁.slot_bytes
          then prefetch_all r₁ r₁.last_plan.stage_in
          else r₁)

    unfoldable pub prepare_selection :
        KvMemRuntime D F B → List ℕ → Bool → Result (KvMemRuntime D F B × KvMemPlan)
    unfolding Plan.set_selection start_prefetch
    prepare_selection r selected force_raw_refresh =
        Plan.set_selection r.store selected force_raw_refresh >>= λ p.
        start_prefetch (record r { store = p.0; last_plan = p.1; pending = true }) >>= λ r'.
        ok (r', r'.last_plan)

    module _ (o : DoubleOps D) where
      abbrev pub preview_reselect : KvMemRuntime D F B → List ℕ → Result (List ℕ)
      preview_reselect r mandatory = pick_topk_blocks o r.store mandatory

      unfoldable pub prepare_reselect :
          KvMemRuntime D F B → List ℕ → Bool → Result (KvMemRuntime D F B × KvMemPlan)
      unfolding prepare_selection
      prepare_reselect r mandatory force_raw_refresh = preview_reselect r mandatory >>= λ selected.
          prepare_selection r selected force_raw_refresh

      unfoldable pub prepare_prefill_pressure :
          KvMemRuntime D F B → List ℕ → Result (KvMemRuntime D F B × KvMemPlan)
      unfolding prepare_selection
      prepare_prefill_pressure r mandatory =
          pick_prefill_pressure_blocks o r.store mandatory >>= λ selected.
          prepare_selection r selected false

      unfoldable pub maybe_offload_during_prefill :
          KvMemRuntime D F B → ℕ → ℕ → ℕ → List ℕ → Result (KvMemRuntime D F B × Bool)
      unfolding prepare_prefill_pressure prefill_needs_offload
      maybe_offload_during_prefill r incoming_tokens resident_tokens pool_tokens mandatory =
          if prefill_needs_offload o r.store resident_tokens incoming_tokens pool_tokens
          then (prepare_prefill_pressure r mandatory >>= λ p. ok (p.0, true))
          else ok (r, false)

  unfoldable pub commit_resident_selection : KvMemRuntime D F B → List ℕ → KvMemRuntime D F B × Bool
  unfolding Plan.commit_resident_selection add_tokens
  commit_resident_selection r selected =
      if r.pending then (r, false) else elim (Plan.commit_resident_selection r.store selected) [
        | none ↦ (r, false)
        | some s ↦ (
          record r {
            store = s;
            last_plan = record empty_plan { total_window_tokens = add_tokens s.blocks 0 selected };
          },
          true,
        )
      ]

  unfoldable pub register_append :
      DoubleOps D → KvMemRuntime D F B → ℕ → Option (KvMemRuntime D F B)
  unfolding Table.register_append
  register_append o r n_tokens = elim (Table.register_append o r.store n_tokens) [
    | none ↦ none
    | some s ↦ some (record r { store = s })
  ]

  module _ (h : HeatOps D) (fo : FileOps F) (bk : KvMemBackend B) where
    unfoldable pub spill_outgoing : KvMemRuntime D F B → Result (KvMemRuntime D F B)
    unfolding wait_prefetch stage_out_all
    spill_outgoing r =
        if r.pending
        then (wait_prefetch r >>= λ r'.
            stage_out_all h fo bk (record r' { pending_gpu_frees = [] }) r.last_plan.stage_out)
        else ok r

    unfoldable pub admit_incoming : KvMemRuntime D F B → Result (KvMemRuntime D F B)
    unfolding free_gpu_slots stage_in_all
    admit_incoming r =
        if r.pending
        then (stage_in_all fo bk
              (record r {
                backend = free_gpu_slots bk r.backend r.pending_gpu_frees;
                pending_gpu_frees = [];
              })
              r.last_plan.stage_in
            >>= λ r'. ok (record r' { prefetch_buf = []; pending = false }))
        else ok r

    unfoldable pub finish_reselect : KvMemRuntime D F B → Result (KvMemRuntime D F B)
    unfolding spill_outgoing admit_incoming
    finish_reselect r = spill_outgoing r >>= λ r'. admit_incoming r'
