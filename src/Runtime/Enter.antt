-- ===== src/Runtime/Enter.antt =====
-- A stage-in brings its block onto the GPU and leaves the others where they are.
use kvmem_test.Common.{
  ℕ, zero, suc, branches, ℤ, negsuc, ◌≡◌, refl, ◌∙◌, true, false, not, ◌&&◌, ◌||◌, List, [], ◌∷◌,
  Option, none, some, ◌==◌, ltb, length, get_elem?, is_nonneg, arith, Bool-cases, Option-cases, inl,
  inr, ok, returned, kept,
}
use kvmem_test.Store.Types.{KvTier, is_gpu, KvMemBlock, KvMemStore, block_count}
use kvmem_test.Store.Setters.{is_ssd, set_block_tier, set_block_gpu_slot}
use kvmem_test.Tier.Pinned.{PinnedKvTier, find}
use kvmem_test.Tier.Nvme.{FileOps, NvmeKvTier, enabled, is_empty, read_block}
use kvmem_test.Runtime.{KvMemBackend, KvMemRuntime, nvme_slot_of}
use kvmem_test.Runtime.StageIn.{
  read_ssd, find_source, copy_in, release_copy, stage_in_block, stage_in,
}
use kvmem_test.Runtime.Staging.{
  gpu_at, SameGpu, Entered, SameGpu-refl, update_block-SameGpu, set_block_tier-Entered,
}
use kvmem_test.Runtime.Leave.{cpu_copy-SameGpu, gpu_at-some}

module _ {D : Type 0} where
  SameGpu-Entered : (id : ℕ) (s t u : KvMemStore D) → SameGpu s t → Entered id t u → Entered id s u
  SameGpu-Entered id s t u v w =
      let size = v.size in
      record { size = w.size ∙ v.size; on_gpu = λ j. w.on_gpu j ∙ ground (arith, v.on_gpu j, size) }

  Entered-SameGpu : (id : ℕ) (s t u : KvMemStore D) → Entered id s t → SameGpu t u → Entered id s u
  Entered-SameGpu id s t u v w = record {
    size = w.size ∙ v.size;
    on_gpu = λ j. w.on_gpu j ∙ v.on_gpu j;
  }

  gpu_slot-SameGpu :
      (s : KvMemStore D) (id : ℕ) (slot : ℤ) → SameGpu s (set_block_gpu_slot s id slot)
  unfolding set_block_gpu_slot
  gpu_slot-SameGpu s id slot = update_block-SameGpu s id _ (λ b. refl)

  -- Nothing enters where there is no block, and a block on the GPU stays there.
  Entered-same :
      (id : ℕ) (s : KvMemStore D)
      → (ltb id (block_count s) ≡ true → gpu_at s.blocks id ≡ true)
      → Entered id s s
  Entered-same id s h = record {
    size = refl;
    on_gpu = λ j. elim (Bool-cases (id == j)) [
      | inl e ↦
          let same : id ≡ j = ground arith in
          elim (Bool-cases (ltb j (block_count s))) [
            | inl inside ↦
                let on = h (rw same inside) in
                let on' = rw same at on in ground (arith, on', inside)
            | inr out ↦ ground arith
          ]
      | inr e ↦ ground arith
    ];
  }

  none-out : (bs : List (KvMemBlock D)) (j : ℕ) → get_elem? bs j ≡ none → ltb j (length bs) ≡ false
  none-out [] j e = ground arith
  none-out (b ∷ bs) zero e = cc
  none-out (b ∷ bs) (suc j) e = ground (arith, none-out bs j e)

module _ {D F B : Type 0} (fo : FileOps F) (bk : KvMemBackend B) where
  abbrev Same : KvMemRuntime D F B → KvMemRuntime D F B × Option (List ℕ) → Type 0
  Same r x = (x.0).store ≡ r.store

  read_ssd_store :
      (r : KvMemRuntime D F B) (id : ℕ) (b : KvMemBlock D) (t : Option (NvmeKvTier F))
      (p : KvMemRuntime D F B × Option (List ℕ))
      → read_ssd fo bk r id b t ≡ ok p
      → (p.0).store ≡ r.store
  unfolding read_ssd
  read_ssd_store r id b none p h = kept (Same r) h refl
  read_ssd_store r id b (some t) p h =
      elim (branches
        (enabled t
          && (is_nonneg b.nvme_slot || is_ssd b.tier)
          && ltb 0 r.slot_bytes
          && not (is_empty r.scratch))
        _ _ h) [
          | inr (off, h') ↦ kept (Same r) h' refl
          | inl (on, h') ↦
              let (q, read, h₁) = returned (read_block fo t id r.slot_bytes) _ h' in
              kept (Same r) h₁ refl
        ]

  find_source_store :
      (r : KvMemRuntime D F B) (id : ℕ) (b : KvMemBlock D)
      (p : KvMemRuntime D F B × Option (List ℕ))
      → find_source fo bk r id b ≡ ok p
      → (p.0).store ≡ r.store
  unfolding find_source
  find_source_store r id b p h = elim (Option-cases (find id r.prefetch_buf)) [
    | inr (data', e) ↦ kept (Same r) (rw (e, find_source) at h) refl
    | inl e ↦ elim (branches (is_nonneg b.cpu_slot) _ _ (rw (e, find_source) at h)) [
      | inl (host, h') ↦ kept (Same r) h' refl
      | inr (away, h') ↦ read_ssd_store r id b r.nvme_tier p h'
    ]
  ]

  copy_in_store :
      (r : KvMemRuntime D F B) (id : ℕ) (gpu : ℤ) (bytes : Option (List ℕ))
      → (copy_in fo bk r id gpu bytes).store ≡ r.store
  unfolding copy_in
  copy_in_store r id gpu none = refl
  copy_in_store r id gpu (some data') = elim (Bool-cases (is_nonneg gpu && ltb 0 r.slot_bytes)) [
    | inl e ↦ rw e refl
    | inr e ↦ rw e refl
  ]

  release_copy-SameGpu :
      (r : KvMemRuntime D F B) (id : ℕ) (b : KvMemBlock D) (t : Option (PinnedKvTier D))
      → SameGpu r.store (release_copy fo bk r id b t).store
  unfolding release_copy
  release_copy-SameGpu r id b none = SameGpu-refl r.store
  release_copy-SameGpu r id b (some t) = elim (Bool-cases (is_nonneg b.cpu_slot)) [
    | inl e ↦ rw e (cpu_copy-SameGpu r.store id (negsuc 0))
    | inr e ↦ rw e (SameGpu-refl r.store)
  ]

  stage_in_block-Entered :
      (r r' : KvMemRuntime D F B) (id : ℕ) (b : KvMemBlock D)
      → stage_in_block fo bk r id b ≡ ok r'
      → Entered id r.store r'.store
  unfolding stage_in_block
  stage_in_block-Entered r r' id b h =
      let gpu = (bk.alloc_gpu_slot r.backend).1 in
      let r₀ = record r { backend = (bk.alloc_gpu_slot r.backend).0 } in
      let (p, found, h₁) = returned (find_source fo bk r₀ id b) _ h in
      let r₁ = copy_in fo bk (p.0) id gpu (p.1) in
      let r₂ = release_copy fo bk r₁ id b r₁.cpu_tier in
      let same : r₁.store ≡ r.store =
        copy_in_store (p.0) id gpu (p.1) ∙ find_source_store r₀ id b p found in
      let v : SameGpu r.store r₂.store = rw (← same) (release_copy-SameGpu r₁ id b r₁.cpu_tier) in
      let s = set_block_tier r₂.store id KvTier.gpu (negsuc 0) (nvme_slot_of r₂.store id) in
      kept (λ (x : KvMemRuntime D F B). Entered id r.store x.store) h₁
        (SameGpu-Entered id r.store r₂.store _ v (
          Entered-SameGpu id r₂.store s _
            (set_block_tier-Entered r₂.store id KvTier.gpu (negsuc 0) (nvme_slot_of r₂.store id)
              refl)
            (gpu_slot-SameGpu s id gpu)))

  pub stage_in-Entered :
      (r r' : KvMemRuntime D F B) (id : ℕ)
      → stage_in fo bk r id ≡ ok r'
      → Entered id r.store r'.store
  unfolding stage_in
  stage_in-Entered r r' id h = elim (Option-cases (get_elem? r.store.blocks id)) [
    | inl gone ↦
        kept (λ (x : KvMemRuntime D F B). Entered id r.store x.store) (rw (gone, stage_in) at h)
          (Entered-same id r.store
            (λ inside. absurd (let out = none-out r.store.blocks id gone in cc)))
    | inr (b, here) ↦
        elim (branches (is_gpu b.tier && is_nonneg b.gpu_slot) _ _ (rw (here, stage_in) at h)) [
          | inl (already, h') ↦
              kept (λ (x : KvMemRuntime D F B). Entered id r.store x.store) h'
                (Entered-same id r.store
                  (λ inside. gpu_at-some r.store.blocks id b here ∙ ground arith))
          | inr (away, h') ↦ stage_in_block-Entered r r' id b h'
        ]
  ]
