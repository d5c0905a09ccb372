-- ===== src/Runtime/Leave.antt =====
-- A stage-out takes its block off the GPU and leaves the others where they are.
use kvmem_test.Common.{
  ℕ, zero, suc, branches, ℤ, pos, negsuc, ◌≡◌, refl, ap, ◌∙◌, Bool, true, false, not, ◌&&◌, ◌||◌,
  List, [], ◌∷◌, Option, none, some, if◌then◌else◌, ◌==◌, ltb, length, get_elem?, is_nonneg, arith,
  Bool-cases, Option-cases, inl, inr, ok, returned, kept, subst,
}
use kvmem_test.Store.Types.{KvTier, is_gpu, KvMemBlock, KvMemStore}
use kvmem_test.Store.Setters.{set_block_tier, set_block_cpu_copy, set_block_ssd_backing}
use kvmem_test.Tier.Pinned.{PinnedKvTier, PinnedSlotPlacement, HeatOps}
use kvmem_test.Tier.Pinned as Pinned
use kvmem_test.Tier.Nvme.{FileOps, NvmeKvTier, NvmeSlotPlacement, enabled, is_empty, write_slot}
use kvmem_test.Tier.Nvme as Nvme
use kvmem_test.Runtime.{
  KvMemBackend, KvMemRuntime, is_retrieval, is_cpu, cpu_ptr, bytes_of, nvme_slot_of,
}
use kvmem_test.Runtime.StageOut.{
  forget_evicted, demote, demote_victim, spill_placed, spill_to, spill_bytes_to_nvme, evict_victim,
  stage_out_cpu, stage_out_ssd, stage_out_placed, copy_out, stage_out_block, stage_out,
}
use kvmem_test.Runtime.Staging.{
  gpu_at, SameGpu, Left, SameGpu-refl, SameGpu-trans, SameGpu-Left, Left-SameGpu,
  update_block-SameGpu, set_block_tier-Left,
}

not_cpu : (t : KvTier) → is_cpu t ≡ true → is_gpu t ≡ false
not_cpu KvTier.gpu h = cc
not_cpu KvTier.cpu h = refl
not_cpu KvTier.ssd h = cc

module _ {D : Type 0} where
  ssd_backing-SameGpu :
      (s : KvMemStore D) (id : ℕ) (slot : ℤ) (clean : Bool)
      → SameGpu s (set_block_ssd_backing s id slot clean)
  unfolding set_block_ssd_backing
  ssd_backing-SameGpu s id slot clean = update_block-SameGpu s id _ (λ b. refl)

  pub cpu_copy-SameGpu :
      (s : KvMemStore D) (id : ℕ) (slot : ℤ) → SameGpu s (set_block_cpu_copy s id slot)
  unfolding set_block_cpu_copy
  cpu_copy-SameGpu s id slot = update_block-SameGpu s id _ (λ b. refl)

  forget_evicted-SameGpu : (e : ℤ) (s : KvMemStore D) → SameGpu s (forget_evicted e s)
  unfolding forget_evicted
  forget_evicted-SameGpu (pos id) s = ssd_backing-SameGpu s id (negsuc 0) false
  forget_evicted-SameGpu (negsuc _) s = SameGpu-refl s

  -- A block that is not on the GPU stays off it.
  pub gpu_at-some :
      (bs : List (KvMemBlock D)) (id : ℕ) (b : KvMemBlock D)
      → get_elem? bs id ≡ some b
      → gpu_at bs id ≡ is_gpu b.tier
  gpu_at-some [] id b e = cc
  gpu_at-some (c ∷ bs) zero b e =
      let same : c ≡ b = cc in ap (λ (x : KvMemBlock D). is_gpu x.tier) same
  gpu_at-some (c ∷ bs) (suc id) b e = gpu_at-some bs id b e

  Left-absent :
      (id : ℕ) (s s' : KvMemStore D) → gpu_at s.blocks id ≡ false → Left id s s' → SameGpu s s'
  Left-absent id s s' h v = record {
    size = v.size;
    on_gpu = λ j. v.on_gpu j ∙ elim (Bool-cases (id == j)) [
      | inl e ↦
          let same : id ≡ j = ground arith in rw e (let off = rw same at h in ground (arith, off))
      | inr e ↦ rw e (ground arith)
    ];
  }

  demote-SameGpu :
      (s : KvMemStore D) (vic : ℕ) (b : KvMemBlock D)
      → get_elem? s.blocks vic ≡ some b
      → SameGpu s (demote s vic b)
  unfolding demote
  demote-SameGpu s vic b e = elim (Bool-cases (is_cpu b.tier)) [
    | inr h ↦ rw h (SameGpu-refl s)
    | inl h ↦ rw h (
        Left-absent vic s _ (gpu_at-some s.blocks vic b e ∙ not_cpu b.tier h) (
          set_block_tier-Left s vic (if is_nonneg b.nvme_slot then KvTier.ssd else KvTier.cpu)
            (negsuc 0) b.nvme_slot (ground arith)))
  ]

  demote_victim-SameGpu : (s : KvMemStore D) (vic : ℕ) → SameGpu s (demote_victim s vic)
  unfolding demote_victim
  demote_victim-SameGpu s vic =
      let s' = set_block_cpu_copy s vic (negsuc 0) in
      let v = cpu_copy-SameGpu s vic (negsuc 0) in
      elim (Option-cases (get_elem? s'.blocks vic)) [
        | inl e ↦ rw (e, demote_victim) v
        | inr (b, e) ↦ rw (e, demote_victim) (SameGpu-trans s s' _ v (demote-SameGpu s' vic b e))
      ]

  Left-none : (id : ℕ) (s : KvMemStore D) → get_elem? s.blocks id ≡ none → Left id s s
  Left-none id s e = record {
    size = refl;
    on_gpu = λ j. elim (Bool-cases (id == j)) [
      | inl h ↦
          let same : id ≡ j = ground arith in
          let off : gpu_at s.blocks j ≡ false = gpu_at-none s.blocks j (rw same at e) in
          ground (arith, off)
      | inr h ↦ ground arith
    ];
  }
    where
      gpu_at-none : (bs : List (KvMemBlock D)) (j : ℕ) → get_elem? bs j ≡ none → gpu_at bs j ≡ false
      gpu_at-none [] j e = refl
      gpu_at-none (b ∷ bs) zero e = cc
      gpu_at-none (b ∷ bs) (suc j) e = gpu_at-none bs j e

module _ {D F B : Type 0} where
  -- The plan that is carried out stays the same.
  abbrev pub SamePlan : KvMemRuntime D F B → KvMemRuntime D F B → Type 0
  SamePlan r r' = (r'.last_plan ≡ r.last_plan) × (r'.pending ≡ r.pending)

  abbrev Keeps : KvMemRuntime D F B → KvMemRuntime D F B → Type 0
  Keeps r r' = SameGpu r.store r'.store × SamePlan r r'

  abbrev KeepsFirst : KvMemRuntime D F B → KvMemRuntime D F B × Bool → Type 0
  KeepsFirst r p = Keeps r (p.0)

  abbrev pub LeftRun : ℕ → KvMemRuntime D F B → KvMemRuntime D F B → Type 0
  LeftRun id r r' = Left id r.store r'.store × SamePlan r r'

  module _ (fo : FileOps F) where
    spill_placed-SameGpu :
        (r : KvMemRuntime D F B) (id : ℕ) (data' : List ℕ) (p : NvmeKvTier F × NvmeSlotPlacement)
        (q : KvMemRuntime D F B × Bool)
        → spill_placed fo r id data' p ≡ ok q
        → Keeps r (q.0)
    unfolding spill_placed
    spill_placed-SameGpu r id data' (t, np) q h = elim (branches (is_nonneg np.slot) _ _ h) [
      | inr (full, h') ↦ kept (KeepsFirst r) h' (SameGpu-refl r.store, (refl, refl))
      | inl (placed, h') ↦
          let (t', wrote, h₁) =
            returned
              (if is_retrieval r.store.select_method then write_slot fo t np.slot data' else ok t) _
              h' in
          kept (KeepsFirst r) h₁ (
            SameGpu-trans r.store (forget_evicted np.evicted_block r.store) _
                (forget_evicted-SameGpu np.evicted_block r.store)
                (ssd_backing-SameGpu (forget_evicted np.evicted_block r.store) id np.slot true),
            (refl, refl),
          )
    ]

    spill_to-SameGpu :
        (r : KvMemRuntime D F B) (id : ℕ) (t : Option (NvmeKvTier F)) (bytes : Option (List ℕ))
        (q : KvMemRuntime D F B × Bool)
        → spill_to fo r id t bytes ≡ ok q
        → Keeps r (q.0)
    unfolding spill_to
    spill_to-SameGpu r id none bytes q h =
        kept (KeepsFirst r) h (SameGpu-refl r.store, (refl, refl))
    spill_to-SameGpu r id (some t) none q h =
        kept (KeepsFirst r) h (SameGpu-refl r.store, (refl, refl))
    spill_to-SameGpu r id (some t) (some data') q h =
        elim (Bool-cases (not (enabled t) || (r.slot_bytes == 0))) [
          | inl off ↦ kept (KeepsFirst r) (rw off at h) (SameGpu-refl r.store, (refl, refl))
          | inr on ↦ spill_placed-SameGpu r id data' (Nvme.place_block_evicting t id) q (rw on at h)
        ]

    evict_victim-SameGpu :
        (r r' : KvMemRuntime D F B) (e slot : ℤ) → evict_victim fo r e slot ≡ ok r' → Keeps r r'
    unfolding evict_victim spill_bytes_to_nvme
    evict_victim-SameGpu r r' (negsuc _) slot h =
        kept (Keeps r) h (SameGpu-refl r.store, (refl, refl))
    evict_victim-SameGpu r r' (pos vic) slot h =
        let (p, spilled, h₁) = returned (spill_bytes_to_nvme fo r vic (cpu_ptr r slot)) _ h in
        let (v, same) = spill_to-SameGpu r vic r.nvme_tier (cpu_ptr r slot) p spilled in
        kept (Keeps r) h₁
          (SameGpu-trans r.store (p.0).store _ v (demote_victim-SameGpu (p.0).store vic), same)

    stage_out_cpu-Left :
        (r r' : KvMemRuntime D F B) (id : ℕ) (b : KvMemBlock D) (p : PinnedSlotPlacement)
        → stage_out_cpu fo r id b p ≡ ok r'
        → LeftRun id r r'
    unfolding stage_out_cpu
    stage_out_cpu-Left r r' id b p h =
        let (r₁, evicted, h₁) = returned (evict_victim fo r p.evicted_block p.slot) _ h in
        let (v, same) = evict_victim-SameGpu r r₁ p.evicted_block p.slot evicted in
        let s = set_block_tier r₁.store id KvTier.cpu p.slot b.nvme_slot in
        kept (LeftRun id r) h₁ (
          SameGpu-Left id r.store r₁.store _ v (
              Left-SameGpu id r₁.store s _
                (set_block_tier-Left r₁.store id KvTier.cpu p.slot b.nvme_slot refl)
                (cpu_copy-SameGpu s id p.slot)),
          same,
        )

    stage_out_ssd-Left :
        (r r' : KvMemRuntime D F B) (id : ℕ) (b : KvMemBlock D)
        → stage_out_ssd fo r id b ≡ ok r'
        → LeftRun id r r'
    unfolding stage_out_ssd spill_bytes_to_nvme
    stage_out_ssd-Left r r' id b h =
        let (p, spilled, h₁) = returned (spill_bytes_to_nvme fo r id (bytes_of r.scratch)) _ h in
        let s = (p.0).store in
        let (v, same) = spill_to-SameGpu r id r.nvme_tier (bytes_of r.scratch) p spilled in
        kept (LeftRun id r) h₁ (
          SameGpu-Left id r.store s _ v (elim (Bool-cases (p.1)) [
            | inl k ↦ rw k (set_block_tier-Left s id KvTier.ssd (negsuc 0) (nvme_slot_of s id) refl)
            | inr k ↦ rw k (set_block_tier-Left s id KvTier.cpu (negsuc 0) b.nvme_slot refl)
          ]),
          same,
        )

  module _ (h : HeatOps D) (fo : FileOps F) (bk : KvMemBackend B) where
    stage_out_block-Left :
        (r r' : KvMemRuntime D F B) (id : ℕ) (b : KvMemBlock D) (t : Option (PinnedKvTier D))
        → stage_out_block h fo bk r id b t ≡ ok r'
        → LeftRun id r r'
    unfolding stage_out_block stage_out_placed
    stage_out_block-Left r r' id b none e = stage_out_ssd-Left fo r r' id b e
    stage_out_block-Left r r' id b (some t) e =
        elim (branches (ltb 0 t.slot_count && ltb 0 r.slot_bytes && ltb 0 (length r.cpu_arena)) _ _
          e) [
            | inr (off, e') ↦ stage_out_ssd-Left fo r r' id b e'
            | inl (on, e') ↦
                let p = Pinned.place_block_evicting h t id in
                elim (branches (is_nonneg p.1.slot) _ _ e') [
                  | inl (placed, e₁) ↦
                      stage_out_cpu-Left fo (record r { cpu_tier = some (p.0) }) r' id b p.1 e₁
                  | inr (full, e₁) ↦
                      stage_out_ssd-Left fo (record r { cpu_tier = some (p.0) }) r' id b e₁
                ]
          ]

    copy_out_same :
        (r : KvMemRuntime D F B) (id : ℕ) (b : KvMemBlock D)
        → ((copy_out h fo bk r id b).store ≡ r.store) × SamePlan r (copy_out h fo bk r id b)
    unfolding copy_out
    copy_out_same r id b =
        elim (Bool-cases (
          is_retrieval r.store.select_method
          && is_nonneg b.gpu_slot
          && ltb 0 r.slot_bytes
          && not (is_empty r.scratch))) [
            | inl e ↦ rw e (refl, (refl, refl))
            | inr e ↦ rw e (refl, (refl, refl))
          ]

    pub stage_out-Left :
        (r r' : KvMemRuntime D F B) (id : ℕ) → stage_out h fo bk r id ≡ ok r' → LeftRun id r r'
    unfolding stage_out
    stage_out-Left r r' id e = elim (Option-cases (get_elem? r.store.blocks id)) [
      | inl gone ↦
          kept (LeftRun id r) (rw (gone, stage_out) at e) (Left-none id r.store gone, (refl, refl))
      | inr (b, here) ↦
          let r₁ = copy_out h fo bk r id b in
          let (same, (plan, pending)) = copy_out_same r id b in
          let (v, (plan', pending')) =
            stage_out_block-Left r₁ r' id b r₁.cpu_tier (rw (here, stage_out) at e) in
          (subst (λ s. Left id s r'.store) same v, (plan' ∙ plan, pending' ∙ pending))
    ]
