-- ===== src/Runtime/Selection.antt =====
-- A selection that is prepared and finished: exactly the requested blocks are on the GPU.
use kvmem_test.Common.{
  ℕ, ◌≡◌, refl, sym, ◌∙◌, Bool, true, false, not, ◌&&◌, ◌||◌, List, [], ◌∷◌, map, Option, none,
  some, ltb, length, get_elem?, arith, contains, Bool-cases, Option-cases, inl, inr, Result, ok,
  throw, returned, kept, subst, zero, suc, is_nonneg,
}
use kvmem_test.Store.Types.{
  is_gpu, KvMemBlock, KvMemStore, KvMemStoreConfig, KvMemPlan, KvMemRemap, block_count,
}
use kvmem_test.Store.Setters.{is_ssd}
use kvmem_test.Store.Table.Layout.{IsLaid}
use kvmem_test.Store.Plan.{
  Window, normalize, leave_window, leaves, move_block, plan_remap, set_selection, start_window,
}
use kvmem_test.Store.Plan.Run.{
  run_block, run_ids, run_ids-some, run_ids-none, final_window, set_selection-run,
}
use kvmem_test.Store.Plan.Residency.{works, set_selection-residency}
use kvmem_test.Tier.Pinned.{HeatOps}
use kvmem_test.Tier.Nvme.{FileOps, NvmeKvTier, read_block}
use kvmem_test.Runtime.{KvMemBackend, KvMemRuntime}
use kvmem_test.Runtime.Start.{nvme_enabled}
use kvmem_test.Runtime.Cadence.{
  wait_prefetch, prefetched, prefetch, prefetch_block, prefetch_all, start_prefetch,
  prepare_selection, finish_reselect,
}
use kvmem_test.Runtime.Staging.{gpu_at, gpu_at-modify}
use kvmem_test.Runtime.Leave.{SamePlan, gpu_at-some}
use kvmem_test.Runtime.Residency.{finish_reselect-Executed, wait_prefetch_same}

combined :
    (gpu gpu₁ out entered inside wanted : Bool)
    → gpu₁ ≡ gpu
    → ((gpu && not out) || entered) ≡ wanted
    → (wanted ≡ true → inside ≡ true)
    → ((gpu₁ && not out) || (entered && inside)) ≡ wanted
combined gpu gpu₁ out entered inside true same moved h = ground (arith, h refl)
combined gpu gpu₁ out entered inside false same moved h = ground arith

module _ {D : Type 0} where
  move_block-tier :
      (rm : KvMemRemap) (p : ℕ) (b : KvMemBlock D) → is_gpu (move_block rm p b).tier ≡ is_gpu b.tier
  unfolding move_block
  move_block-tier rm p b = elim (Bool-cases rm.skip) [
    | inl e ↦ rw e refl
    | inr e ↦ elim (Bool-cases rm.raw_refresh) [ inl k ↦ rw (e, k) refl | inr k ↦ rw (e, k) refl ]
  ]

  works-inside : (bs : List (KvMemBlock D)) (j : ℕ) → works bs j ≡ true → ltb j (length bs) ≡ true
  works-inside [] j h = cc
  works-inside (b ∷ bs) zero h = ground arith
  works-inside (b ∷ bs) (suc j) h = ground (arith, works-inside bs j h)

  gpu_at-leave :
      (full : Bool) (ids : List ℕ) (bs : List (KvMemBlock D)) (j : ℕ)
      → gpu_at (map (leave_window full ids) bs) j ≡ gpu_at bs j
  unfolding leave_window
  gpu_at-leave full ids [] j = refl
  gpu_at-leave full ids (b ∷ bs) zero = elim (Bool-cases (leaves full ids b)) [
    | inl e ↦ rw e refl
    | inr e ↦ rw e refl
  ]
  gpu_at-leave full ids (b ∷ bs) (suc j) = gpu_at-leave full ids bs j

  gpu_at-run_ids :
      (c : KvMemStoreConfig D) (force : Bool) (was : List Bool) (ids : List ℕ) (w : Window D)
      (j : ℕ)
      → gpu_at (run_ids c force was ids w).table j ≡ gpu_at w.table j
  unfolding run_ids
  gpu_at-run_ids c force was [] w j = refl
  gpu_at-run_ids c force was (id ∷ ids) w j = elim (Option-cases (get_elem? w.table id)) [
    | inl e ↦ rw (run_ids-none c force was id ids w e) (gpu_at-run_ids c force was ids w j)
    | inr (b, e) ↦
        let rm = plan_remap c force id w.window_pos b in
        rw (run_ids-some c force was id ids b w e) (
          gpu_at-run_ids c force was ids (run_block c force was id b w) j
          ∙ gpu_at-modify w.table id j (move_block rm w.window_pos)
              (move_block-tier rm w.window_pos))
  ]

  -- `set_selection` moves no block to another tier.
  set_selection-tiers :
      (s s' : KvMemStore D) (selected : List ℕ) (force : Bool) (plan : KvMemPlan) (j : ℕ)
      → set_selection s selected force ≡ ok (s', plan)
      → gpu_at s'.blocks j ≡ gpu_at s.blocks j
  unfolding start_window
  set_selection-tiers s s' selected force plan j h =
      let ids = normalize (block_count s) selected in
      let done : ok (record s { blocks = (final_window s selected force).table }, _)
          ≡ ok (s', plan) =
        sym (set_selection-run s selected force) ∙ h in
      kept (λ (p : KvMemStore D × KvMemPlan). gpu_at (p.0).blocks j ≡ gpu_at s.blocks j) done
        (gpu_at-run_ids s.cfg force _ ids (start_window s ids) j
          ∙ gpu_at-leave (not s.optimize_stage_in) ids s.blocks j)

module _ {D F B : Type 0} where
  -- The store, the plan and the pending flag stay the same.
  abbrev SameRun : KvMemRuntime D F B → KvMemRuntime D F B → Type 0
  SameRun r r' = (r'.store ≡ r.store) × SamePlan r r'

  prefetched-same :
      (r : KvMemRuntime D F B) (id : ℕ) (x : Result (NvmeKvTier F × List ℕ))
      → SameRun r (prefetched r id x)
  unfolding prefetched
  prefetched-same r id (ok p) = (refl, (refl, refl))
  prefetched-same r id (throw e) = (refl, (refl, refl))

  module _ (fo : FileOps F) where
    prefetch_block-same :
        (r : KvMemRuntime D F B) (id : ℕ) (b : Option (KvMemBlock D)) (t : Option (NvmeKvTier F))
        → SameRun r (prefetch_block fo r id b t)
    unfolding prefetch_block prefetch
    prefetch_block-same r id none t = (refl, (refl, refl))
    prefetch_block-same r id (some b) none = (refl, (refl, refl))
    prefetch_block-same r id (some b) (some t) =
        elim (Bool-cases (is_nonneg b.nvme_slot || is_ssd b.tier)) [
          | inl e ↦ rw e (prefetched-same r id (read_block fo t id r.slot_bytes))
          | inr e ↦ rw e (refl, (refl, refl))
        ]

    prefetch_all-same : (ids : List ℕ) (r : KvMemRuntime D F B) → SameRun r (prefetch_all fo r ids)
    unfolding prefetch_all
    prefetch_all-same [] r = (refl, (refl, refl))
    prefetch_all-same (id ∷ ids) r =
        let r₁ = prefetch_block fo r id (get_elem? r.store.blocks id) r.nvme_tier in
        let (s, (p, q)) = prefetch_block-same r id (get_elem? r.store.blocks id) r.nvme_tier in
        let (s', (p', q')) = prefetch_all-same ids r₁ in (s' ∙ s, (p' ∙ p, q' ∙ q))

    start_prefetch-same : (r r' : KvMemRuntime D F B) → start_prefetch fo r ≡ ok r' → SameRun r r'
    unfolding start_prefetch
    start_prefetch-same r r' h =
        let (r₁, waited, h₁) = returned (wait_prefetch r) _ h in
        let same : r ≡ r₁ = wait_prefetch_same r r₁ waited in
        let r₂ = record r₁ { prefetch_buf = [] } in
        let v : SameRun r₁ r' =
          kept (SameRun r₁) h₁
            (elim (Bool-cases (nvme_enabled r₂.nvme_tier && ltb 0 r₂.slot_bytes)) [
              | inl e ↦ rw e (prefetch_all-same r₂.last_plan.stage_in r₂)
              | inr e ↦ rw e (refl, (refl, refl))
            ]) in
        subst (λ x. SameRun x r') (sym same) v

    -- What `prepare_selection` leaves.
    record Prepared (r r' : KvMemRuntime D F B) (selected : List ℕ) (force : Bool) : Type 0 where
      planned : set_selection r.store selected force ≡ ok (r'.store, r'.last_plan)
      pending : r'.pending ≡ true

    prepare_selection-Prepared :
        (r r' : KvMemRuntime D F B) (selected : List ℕ) (force : Bool) (plan : KvMemPlan)
        → prepare_selection fo r selected force ≡ ok (r', plan)
        → Prepared r r' selected force
    unfolding prepare_selection
    prepare_selection-Prepared r r' selected force plan h =
        let (p, chosen, h₁) = returned (set_selection r.store selected force) _ h in
        let r₁ = record r { store = p.0; last_plan = p.1; pending = true } in
        let (r₂, started, h₂) = returned (start_prefetch fo r₁) _ h₁ in
        let (s, (q, on)) = start_prefetch-same r₁ r₂ started in
        kept (λ (x : KvMemRuntime D F B × KvMemPlan). Prepared r (x.0) selected force) h₂
          (record { planned = rw (s, q) chosen; pending = on })

  -- Take a block of a laid table that is on the GPU if it is in the working set. If
  -- `prepare_selection` and then `finish_reselect` return, it is on the GPU exactly if it was
  -- requested.
  pub finish_reselect-residency :
      (h : HeatOps D) (fo : FileOps F) (bk : KvMemBackend B) (r r₁ r' : KvMemRuntime D F B)
      (selected : List ℕ) (force : Bool) (plan : KvMemPlan) (j : ℕ) (b : KvMemBlock D)
      → IsLaid r.store
      → get_elem? r.store.blocks j ≡ some b
      → (b.in_working_set && not (is_gpu b.tier)) ≡ false
      → prepare_selection fo r selected force ≡ ok (r₁, plan)
      → finish_reselect h fo bk r₁ ≡ ok r'
      → gpu_at r'.store.blocks j ≡ contains j selected
  finish_reselect-residency h fo bk r r₁ r' selected force plan j b v e g prepared finished =
      let p = prepare_selection-Prepared fo r r₁ selected force plan prepared in
      let x = finish_reselect-Executed h fo bk r₁ r' p.pending finished in
      let (s', plan', ran, working, moved) =
        set_selection-residency r.store selected force j b v e g in
      let same : ok (s', plan') ≡ ok (r₁.store, r₁.last_plan) = sym ran ∙ p.planned in
      let working' : works r₁.store.blocks j ≡ contains j selected =
        kept (λ (q : KvMemStore D × KvMemPlan). works (q.0).blocks j ≡ contains j selected) same
          working in
      let moved' =
        kept
          (λ (q : KvMemStore D × KvMemPlan).
            ((is_gpu b.tier && not (contains j (q.1).stage_out)) || contains j (q.1).stage_in)
            ≡ contains j selected)
          same moved in
      let before : gpu_at r₁.store.blocks j ≡ is_gpu b.tier =
        set_selection-tiers r.store r₁.store selected force r₁.last_plan j p.planned
        ∙ gpu_at-some r.store.blocks j b e in
      x.on_gpu j
      ∙ combined (is_gpu b.tier) _ (contains j r₁.last_plan.stage_out)
          (contains j r₁.last_plan.stage_in) _ (contains j selected) before moved'
          (λ k. works-inside r₁.store.blocks j (working' ∙ k))
