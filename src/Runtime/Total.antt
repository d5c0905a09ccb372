-- ===== src/Runtime/Total.antt =====
-- Without an SSD tier a selection is prepared and carried out to its end.
use kvmem_test.Common.{
  throw, contains, ℕ, ℤ, pos, negsuc, ◌≡◌, refl, ap, Bool, true, false, not, ◌&&◌, List, [], ◌∷◌,
  Option, none, some, if◌then◌else◌, ltb, get_elem?, Bool-cases, Option-cases, inl, inr, Result, ok,
  ◌>>=◌, is_nonneg,
}
use kvmem_test.Store.Types.{is_gpu, KvMemBlock}
use kvmem_test.Tier.Pinned.{PinnedKvTier, PinnedSlotPlacement, HeatOps, find}
use kvmem_test.Tier.Pinned as Pinned
use kvmem_test.Tier.Nvme.{FileOps, is_empty}
use kvmem_test.Runtime.{KvMemBackend, KvMemRuntime, is_retrieval, bytes_of, cpu_ptr}
use kvmem_test.Runtime.StageOut.{
  spill_to, spill_bytes_to_nvme, evict_victim, stage_out_cpu, stage_out_ssd, stage_out_placed,
  copy_out, stage_out_block, stage_out, stage_out_all,
}
use kvmem_test.Runtime.StageIn.{
  read_ssd, find_source, copy_in, release_copy, stage_in_block, stage_in, stage_in_all,
}
use kvmem_test.Store.Types.{KvMemPlan}
use kvmem_test.Store.Table.Layout.{IsLaid}
use kvmem_test.Store.Plan.Residency.{set_selection-residency}
use kvmem_test.Runtime.Staging.{gpu_at}
use kvmem_test.Runtime.Selection.{finish_reselect-residency}
use kvmem_test.Runtime.Start.{nvme_enabled}
use kvmem_test.Runtime.Cadence.{
  prepare_selection, start_prefetch, wait_prefetch, spill_outgoing, admit_incoming, finish_reselect,
}

module _ {D F B : Type 0} where
  -- A result without an SSD tier.
  abbrev pub Returns : Result (KvMemRuntime D F B) → Type 0
  Returns x = (r : KvMemRuntime D F B) × (x ≡ ok r) × (r.nvme_tier ≡ none)

  Returns-bind :
      (x : Result (KvMemRuntime D F B)) (next : KvMemRuntime D F B → Result (KvMemRuntime D F B))
      → Returns x
      → ((r : KvMemRuntime D F B) → r.nvme_tier ≡ none → Returns (next r))
      → Returns (x >>= next)
  Returns-bind x next (r, e, n) go = rw e (go r n)

  Returns-if :
      (b : Bool) (x y : Result (KvMemRuntime D F B))
      → Returns x
      → Returns y
      → Returns (if b then x else y)
  Returns-if true x y v w = v
  Returns-if false x y v w = w

  module _ (fo : FileOps F) where
    spill-none :
        (r : KvMemRuntime D F B) (id : ℕ) (bytes : Option (List ℕ))
        → r.nvme_tier ≡ none
        → spill_bytes_to_nvme fo r id bytes ≡ ok (r, false)
    unfolding spill_bytes_to_nvme spill_to
    spill-none r id bytes n = ap (λ t. spill_to fo r id t bytes) n

    evict_victim-Returns :
        (r : KvMemRuntime D F B) (e slot : ℤ)
        → r.nvme_tier ≡ none
        → Returns (evict_victim fo r e slot)
    unfolding evict_victim
    evict_victim-Returns r (negsuc _) slot n = (r, refl, n)
    evict_victim-Returns r (pos vic) slot n = rw (spill-none r vic (cpu_ptr r slot) n) (_, refl, n)

    stage_out_cpu-Returns :
        (r : KvMemRuntime D F B) (id : ℕ) (b : KvMemBlock D) (p : PinnedSlotPlacement)
        → r.nvme_tier ≡ none
        → Returns (stage_out_cpu fo r id b p)
    unfolding stage_out_cpu
    stage_out_cpu-Returns r id b p n =
        Returns-bind _ _ (evict_victim-Returns r p.evicted_block p.slot n) (λ r₁ n₁. (_, refl, n₁))

    stage_out_ssd-Returns :
        (r : KvMemRuntime D F B) (id : ℕ) (b : KvMemBlock D)
        → r.nvme_tier ≡ none
        → Returns (stage_out_ssd fo r id b)
    unfolding stage_out_ssd
    stage_out_ssd-Returns r id b n = rw (spill-none r id (bytes_of r.scratch) n) (_, refl, n)

  module _ (h : HeatOps D) (fo : FileOps F) (bk : KvMemBackend B) where
    stage_out_block-Returns :
        (r : KvMemRuntime D F B) (id : ℕ) (b : KvMemBlock D) (t : Option (PinnedKvTier D))
        → r.nvme_tier ≡ none
        → Returns (stage_out_block h fo bk r id b t)
    unfolding stage_out_block stage_out_placed
    stage_out_block-Returns r id b none n = stage_out_ssd-Returns fo r id b n
    stage_out_block-Returns r id b (some t) n =
        let (t', p) = Pinned.place_block_evicting h t id in
        let r₁ = record r { cpu_tier = some t' } in
        Returns-if _ _ _
          (Returns-if (is_nonneg p.slot) _ _ (stage_out_cpu-Returns fo r₁ id b p n)
            (stage_out_ssd-Returns fo r₁ id b n))
          (stage_out_ssd-Returns fo r id b n)

    copy_out-none :
        (r : KvMemRuntime D F B) (id : ℕ) (b : KvMemBlock D)
        → r.nvme_tier ≡ none
        → (copy_out h fo bk r id b).nvme_tier ≡ none
    unfolding copy_out
    copy_out-none r id b n =
        elim (Bool-cases (
          is_retrieval r.store.select_method
          && is_nonneg b.gpu_slot
          && ltb 0 r.slot_bytes
          && not (is_empty r.scratch))) [ inl e ↦ rw e n | inr e ↦ rw e n ]

    stage_out-Returns :
        (r : KvMemRuntime D F B) (id : ℕ) → r.nvme_tier ≡ none → Returns (stage_out h fo bk r id)
    unfolding stage_out
    stage_out-Returns r id n = elim (Option-cases (get_elem? r.store.blocks id)) [
      | inl e ↦ rw (e, stage_out) (r, refl, n)
      | inr (b, e) ↦
          let r₁ = copy_out h fo bk r id b in
          rw (e, stage_out) (stage_out_block-Returns r₁ id b r₁.cpu_tier (copy_out-none r id b n))
    ]

    stage_out_all-Returns :
        (ids : List ℕ) (r : KvMemRuntime D F B)
        → r.nvme_tier ≡ none
        → Returns (stage_out_all h fo bk r ids)
    unfolding stage_out_all
    stage_out_all-Returns [] r n = (r, refl, n)
    stage_out_all-Returns (id ∷ ids) r n =
        Returns-bind _ _ (stage_out-Returns r id n) (λ r₁ n₁. stage_out_all-Returns ids r₁ n₁)

  module _ (fo : FileOps F) (bk : KvMemBackend B) where
    find_source-none :
        (r : KvMemRuntime D F B) (id : ℕ) (b : KvMemBlock D)
        → r.nvme_tier ≡ none
        → (bytes : Option (List ℕ)) × (find_source fo bk r id b ≡ ok (r, bytes))
    unfolding find_source
    find_source-none r id b n = elim (Option-cases (find id r.prefetch_buf)) [
      | inr (data', e) ↦ rw (e, find_source) (some data', refl)
      | inl e ↦ elim (Bool-cases (is_nonneg b.cpu_slot)) [
        | inl host ↦ rw (e, find_source, host) (cpu_ptr r b.cpu_slot, refl)
        | inr away ↦ rw (e, find_source, away) (none, ap (λ t. read_ssd fo bk r id b t) n)
      ]
    ]

    copy_in-none :
        (r : KvMemRuntime D F B) (id : ℕ) (gpu : ℤ) (bytes : Option (List ℕ))
        → r.nvme_tier ≡ none
        → (copy_in fo bk r id gpu bytes).nvme_tier ≡ none
    unfolding copy_in
    copy_in-none r id gpu none n = n
    copy_in-none r id gpu (some data') n = elim (Bool-cases (is_nonneg gpu && ltb 0 r.slot_bytes)) [
      | inl e ↦ rw e n
      | inr e ↦ rw e n
    ]

    release_copy-none :
        (r : KvMemRuntime D F B) (id : ℕ) (b : KvMemBlock D) (t : Option (PinnedKvTier D))
        → r.nvme_tier ≡ none
        → (release_copy fo bk r id b t).nvme_tier ≡ none
    unfolding release_copy
    release_copy-none r id b none n = n
    release_copy-none r id b (some t) n = elim (Bool-cases (is_nonneg b.cpu_slot)) [
      | inl e ↦ rw e n
      | inr e ↦ rw e n
    ]

    stage_in_block-Returns :
        (r : KvMemRuntime D F B) (id : ℕ) (b : KvMemBlock D)
        → r.nvme_tier ≡ none
        → Returns (stage_in_block fo bk r id b)
    unfolding stage_in_block
    stage_in_block-Returns r id b n =
        let r₀ = record r { backend = (bk.alloc_gpu_slot r.backend).0 } in
        let gpu = (bk.alloc_gpu_slot r.backend).1 in
        let (bytes, e) = find_source-none r₀ id b n in
        let r₁ = copy_in fo bk r₀ id gpu bytes in
        rw e (_, refl, release_copy-none r₁ id b r₁.cpu_tier (copy_in-none r₀ id gpu bytes n))

    stage_in-Returns :
        (r : KvMemRuntime D F B) (id : ℕ) → r.nvme_tier ≡ none → Returns (stage_in fo bk r id)
    unfolding stage_in
    stage_in-Returns r id n = elim (Option-cases (get_elem? r.store.blocks id)) [
      | inl e ↦ rw (e, stage_in) (r, refl, n)
      | inr (b, e) ↦
          rw (e, stage_in)
            (Returns-if (is_gpu b.tier && is_nonneg b.gpu_slot) _ _ (r, refl, n)
              (stage_in_block-Returns r id b n))
    ]

    stage_in_all-Returns :
        (ids : List ℕ) (r : KvMemRuntime D F B)
        → r.nvme_tier ≡ none
        → Returns (stage_in_all fo bk r ids)
    unfolding stage_in_all
    stage_in_all-Returns [] r n = (r, refl, n)
    stage_in_all-Returns (id ∷ ids) r n =
        Returns-bind _ _ (stage_in-Returns r id n) (λ r₁ n₁. stage_in_all-Returns ids r₁ n₁)

  -- Without an SSD tier and without a failed read, `finish_reselect` returns.
  pub finish_reselect-Returns :
      (h : HeatOps D) (fo : FileOps F) (bk : KvMemBackend B) (r : KvMemRuntime D F B)
      → r.nvme_tier ≡ none
      → r.prefetch_error ≡ none
      → Returns (finish_reselect h fo bk r)
  unfolding finish_reselect spill_outgoing admit_incoming wait_prefetch
  finish_reselect-Returns h fo bk r n e =
      Returns-bind _ _
        (Returns-if r.pending _ _
          (rw (e, wait_prefetch) (stage_out_all-Returns h fo bk r.last_plan.stage_out _ n))
          (r, refl, n))
        (λ r₁ n₁.
          Returns-if r₁.pending _ _
            (Returns-bind _ _ (stage_in_all-Returns fo bk r₁.last_plan.stage_in _ n₁)
              (λ r₂ n₂. (_, refl, n₂)))
            (r₁, refl, n₁))

  -- Without an SSD tier no read is started ahead.
  start_prefetch-none :
      (fo : FileOps F) (r : KvMemRuntime D F B)
      → r.nvme_tier ≡ none
      → r.prefetch_error ≡ none
      → (r' : KvMemRuntime D F B) × (start_prefetch fo r ≡ ok r')
        × (r'.nvme_tier ≡ none)
        × (r'.prefetch_error ≡ none)
  unfolding start_prefetch wait_prefetch
  start_prefetch-none fo r n e =
      let waited : wait_prefetch r ≡ ok r =
        ap (λ x. elim x [ none ↦ ok r | some error ↦ throw error ]) e in
      let off : (nvme_enabled r.nvme_tier && ltb 0 r.slot_bytes) ≡ false =
        ap (λ t. nvme_enabled t && ltb 0 r.slot_bytes) n in
      (record r { prefetch_buf = [] }, rw (waited, start_prefetch, off) refl, n, e)

  -- Without an SSD tier and without a failed read, on a laid table, `prepare_selection` and then
  -- `finish_reselect` return, and a block that was on the GPU if it was in the working set is on the
  -- GPU exactly if it was requested.
  pub finish_reselect-prepare_selection :
      (h : HeatOps D) (fo : FileOps F) (bk : KvMemBackend B) (r : KvMemRuntime D F B)
      (selected : List ℕ) (force : Bool) (j : ℕ) (b : KvMemBlock D)
      → r.nvme_tier ≡ none
      → r.prefetch_error ≡ none
      → IsLaid r.store
      → get_elem? r.store.blocks j ≡ some b
      → (b.in_working_set && not (is_gpu b.tier)) ≡ false
      → (r₁ : KvMemRuntime D F B) × (plan : KvMemPlan) × (r' : KvMemRuntime D F B)
        × (prepare_selection fo r selected force ≡ ok (r₁, plan))
        × (finish_reselect h fo bk r₁ ≡ ok r')
        × (gpu_at r'.store.blocks j ≡ contains j selected)
  unfolding prepare_selection
  finish_reselect-prepare_selection h fo bk r selected force j b n err v e g =
      let (s', plan, ran, _, _) = set_selection-residency r.store selected force j b v e g in
      let r₀ = record r { store = s'; last_plan = plan; pending = true } in
      let (r₁, started, n₁, err₁) = start_prefetch-none fo r₀ n err in
      let prepared : prepare_selection fo r selected force ≡ ok (r₁, r₁.last_plan) =
        rw (ran, prepare_selection) (rw started refl) in
      let (r', finished, _) = finish_reselect-Returns h fo bk r₁ n₁ err₁ in
      (
        r₁,
        r₁.last_plan,
        r',
        prepared,
        finished,
        finish_reselect-residency h fo bk r r₁ r' selected force r₁.last_plan j b v e g prepared
            finished,
      )
