-- ===== src/Runtime/Residency.antt =====
-- Carrying out a plan puts exactly the selected blocks on the GPU.
use kvmem_test.Common.{
  ℕ, ◌≡◌, refl, ap, ◌∙◌, true, false, not, ◌&&◌, ◌||◌, List, [], ◌∷◌, ltb, arith, contains,
  Option-cases, inl, inr, ok, returned, kept, branches,
}
use kvmem_test.Store.Types.{block_count}
use kvmem_test.Tier.Pinned.{HeatOps}
use kvmem_test.Tier.Nvme.{FileOps}
use kvmem_test.Runtime.{KvMemBackend, KvMemRuntime}
use kvmem_test.Runtime.StageOut.{stage_out, stage_out_all}
use kvmem_test.Runtime.StageIn.{stage_in, stage_in_all}
use kvmem_test.Runtime.Cadence.{
  wait_prefetch, free_gpu_slots, spill_outgoing, admit_incoming, finish_reselect,
}
use kvmem_test.Runtime.Staging.{gpu_at}
use kvmem_test.Runtime.Leave.{SamePlan, stage_out-Left}
use kvmem_test.Runtime.Enter.{stage_in-Entered}

module _ {D F B : Type 0} where
  record AllLeft (ids : List ℕ) (r r' : KvMemRuntime D F B) : Type 0 where
    size : block_count r'.store ≡ block_count r.store
    on_gpu : (j : ℕ) → gpu_at r'.store.blocks j ≡ (gpu_at r.store.blocks j && not (contains j ids))
    plan : SamePlan r r'

  abbrev AllEntered : List ℕ → KvMemRuntime D F B → KvMemRuntime D F B → Type 0
  AllEntered ids r r' =
      (j : ℕ)
      → gpu_at r'.store.blocks j
        ≡ (gpu_at r.store.blocks j || (contains j ids && ltb j (block_count r.store)))

  -- What carrying out the plan of `r` leaves.
  pub record Executed (r r' : KvMemRuntime D F B) : Type 0 where
    pub pending : r'.pending ≡ false
    pub on_gpu :
        (j : ℕ)
        → gpu_at r'.store.blocks j ≡ (
            (gpu_at r.store.blocks j && not (contains j r.last_plan.stage_out))
            || (contains j r.last_plan.stage_in && ltb j (block_count r.store)))

  pub wait_prefetch_same : (r r' : KvMemRuntime D F B) → wait_prefetch r ≡ ok r' → r ≡ r'
  unfolding wait_prefetch
  wait_prefetch_same r r' h = elim (Option-cases r.prefetch_error) [
    | inl e ↦ kept (λ x. r ≡ x) (rw (e, wait_prefetch) at h) refl
    | inr (x, e) ↦ absurd (let thrown = rw (e, wait_prefetch) at h in cc)
  ]

  module _ (h : HeatOps D) (fo : FileOps F) (bk : KvMemBackend B) where
    stage_out_all-AllLeft :
        (ids : List ℕ) (r r' : KvMemRuntime D F B)
        → stage_out_all h fo bk r ids ≡ ok r'
        → AllLeft ids r r'
    unfolding stage_out_all
    stage_out_all-AllLeft [] r r' e =
        kept (AllLeft [] r) e
          (record { size = refl; on_gpu = λ j. ground arith; plan = (refl, refl) })
    stage_out_all-AllLeft (id ∷ ids) r r' e =
        let (r₁, first, e₁) = returned (stage_out h fo bk r id) _ e in
        let (v, (plan, pending)) = stage_out-Left h fo bk r r₁ id first in
        let w = stage_out_all-AllLeft ids r₁ r' e₁ in
        record {
          size = w.size ∙ v.size;
          on_gpu = λ j. w.on_gpu j ∙ ground (arith, v.on_gpu j);
          plan = (w.plan.0 ∙ plan, w.plan.1 ∙ pending);
        }

    stage_in_all-AllEntered :
        (ids : List ℕ) (r r' : KvMemRuntime D F B)
        → stage_in_all fo bk r ids ≡ ok r'
        → AllEntered ids r r'
    unfolding stage_in_all
    stage_in_all-AllEntered [] r r' e = kept (AllEntered [] r) e (λ j. ground arith)
    stage_in_all-AllEntered (id ∷ ids) r r' e =
        let (r₁, first, e₁) = returned (stage_in fo bk r id) _ e in
        let v = stage_in-Entered fo bk r r₁ id first in
        let w = stage_in_all-AllEntered ids r₁ r' e₁ in
        let size = v.size in λ j. w j ∙ rw size (ground (arith, v.on_gpu j))

    spill_outgoing-AllLeft :
        (r r' : KvMemRuntime D F B)
        → r.pending ≡ true
        → spill_outgoing h fo bk r ≡ ok r'
        → AllLeft r.last_plan.stage_out r r'
    unfolding spill_outgoing
    spill_outgoing-AllLeft r r' p e = elim (branches r.pending _ _ e) [
      | inr (idle, no_run) ↦ absurd (ground (arith, p, idle))
      | inl (on, e') ↦
          let (r₁, waited, e₁) = returned (wait_prefetch r) _ e' in
          let same : r ≡ r₁ = wait_prefetch_same r r₁ waited in
          let r₂ = record r { pending_gpu_frees = [] } in
          let e₂ : stage_out_all h fo bk r₂ r.last_plan.stage_out ≡ ok r' =
            ap
              (λ (x : KvMemRuntime D F B).
                stage_out_all h fo bk (record x { pending_gpu_frees = [] }) r.last_plan.stage_out)
              same
            ∙ e₁ in
          let v = stage_out_all-AllLeft r.last_plan.stage_out r₂ r' e₂ in
          record { size = v.size; on_gpu = v.on_gpu; plan = v.plan }
    ]

    admit_incoming-AllEntered :
        (r r' : KvMemRuntime D F B)
        → r.pending ≡ true
        → admit_incoming h fo bk r ≡ ok r'
        → AllEntered r.last_plan.stage_in r r' × (r'.pending ≡ false)
    unfolding admit_incoming
    admit_incoming-AllEntered r r' p e = elim (branches r.pending _ _ e) [
      | inr (idle, no_run) ↦ absurd (ground (arith, p, idle))
      | inl (on, e') ↦
          let r₁ = record r {
            backend = free_gpu_slots bk r.backend r.pending_gpu_frees;
            pending_gpu_frees = [];
          } in
          let (r₂, entered, e₁) = returned (stage_in_all fo bk r₁ r.last_plan.stage_in) _ e' in
          let v = stage_in_all-AllEntered r.last_plan.stage_in r₁ r₂ entered in
          kept
            (λ (x : KvMemRuntime D F B). AllEntered r.last_plan.stage_in r x × (x.pending ≡ false))
            e₁ (v, refl)
    ]

    -- If a selection is pending and `finish_reselect` returns, then none is pending any more, and the
    -- blocks on the GPU are those that were and are not in the plan's `stage_out`, and those of its
    -- `stage_in`.
    pub finish_reselect-Executed :
        (r r' : KvMemRuntime D F B)
        → r.pending ≡ true
        → finish_reselect h fo bk r ≡ ok r'
        → Executed r r'
    unfolding finish_reselect
    finish_reselect-Executed r r' p e =
        let (r₁, spilled, e₁) = returned (spill_outgoing h fo bk r) _ e in
        let v = spill_outgoing-AllLeft r r₁ p spilled in
        let (w, done) = admit_incoming-AllEntered r₁ r' (v.plan.1 ∙ p) e₁ in
        let size = v.size in
        let plan = v.plan.0 in
        record { pending = done; on_gpu = λ j. w j ∙ rw (plan, size, v.on_gpu j) refl }
