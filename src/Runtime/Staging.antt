-- ===== src/Runtime/Staging.antt =====
-- Which blocks are on the GPU after stage-outs and stage-ins.
use kvmem_test.Common.{
  ℕ, zero, suc, ℤ, ◌≡◌, refl, sym, ap, ◌∙◌, Bool, true, false, not, ◌&&◌, ◌||◌, List, [], ◌∷◌,
  if◌then◌else◌, ◌==◌, leb, ltb, length, modify, length-modify, arith, Bool-cases, inl, inr,
}
use kvmem_test.Store.Types.{KvTier, is_gpu, KvMemBlock, KvMemStore, block_count}
use kvmem_test.Store.Setters.{update_block, tier_inclusive, tier_exclusive, set_block_tier}

module _ {D : Type 0} where
  -- Whether block `j` is on the GPU.
  abbrev pub gpu_at : List (KvMemBlock D) → ℕ → Bool
  gpu_at [] j = false
  gpu_at (b ∷ bs) zero = is_gpu b.tier
  gpu_at (b ∷ bs) (suc j) = gpu_at bs j

  pub gpu_at-modify :
      (bs : List (KvMemBlock D)) (id j : ℕ) (f : KvMemBlock D → KvMemBlock D)
      → ((b : KvMemBlock D) → is_gpu (f b).tier ≡ is_gpu b.tier)
      → gpu_at (modify bs id f) j ≡ gpu_at bs j
  gpu_at-modify [] id j f h = refl
  gpu_at-modify (b ∷ bs) zero zero f h = h b
  gpu_at-modify (b ∷ bs) zero (suc j) f h = refl
  gpu_at-modify (b ∷ bs) (suc id) zero f h = refl
  gpu_at-modify (b ∷ bs) (suc id) (suc j) f h = gpu_at-modify bs id j f h

  gpu_at-modify_out :
      (bs : List (KvMemBlock D)) (id j : ℕ) (f : KvMemBlock D → KvMemBlock D)
      → ((b : KvMemBlock D) → is_gpu (f b).tier ≡ false)
      → gpu_at (modify bs id f) j ≡ (gpu_at bs j && not (id == j))
  gpu_at-modify_out [] id j f h = refl
  gpu_at-modify_out (b ∷ bs) zero zero f h = ground (arith, h b)
  gpu_at-modify_out (b ∷ bs) zero (suc j) f h = ground arith
  gpu_at-modify_out (b ∷ bs) (suc id) zero f h = ground arith
  gpu_at-modify_out (b ∷ bs) (suc id) (suc j) f h = ground (arith, gpu_at-modify_out bs id j f h)

  gpu_at-modify_in :
      (bs : List (KvMemBlock D)) (id j : ℕ) (f : KvMemBlock D → KvMemBlock D)
      → ((b : KvMemBlock D) → is_gpu (f b).tier ≡ true)
      → gpu_at (modify bs id f) j ≡ (gpu_at bs j || ((id == j) && ltb j (length bs)))
  gpu_at-modify_in [] id j f h = ground arith
  gpu_at-modify_in (b ∷ bs) zero zero f h = ground (arith, h b)
  gpu_at-modify_in (b ∷ bs) zero (suc j) f h = ground arith
  gpu_at-modify_in (b ∷ bs) (suc id) zero f h = ground arith
  gpu_at-modify_in (b ∷ bs) (suc id) (suc j) f h = ground (arith, gpu_at-modify_in bs id j f h)

  gpu_at-out_of_range :
      (bs : List (KvMemBlock D)) (j : ℕ) → (ltb j (length bs)) ≡ false → gpu_at bs j ≡ false
  gpu_at-out_of_range [] j h = refl
  gpu_at-out_of_range (b ∷ bs) zero h = absurd (ground arith)
  gpu_at-out_of_range (b ∷ bs) (suc j) h = gpu_at-out_of_range bs j (ground arith)

  -- The same number of blocks, and the same of them on the GPU.
  pub record SameGpu (s s' : KvMemStore D) : Type 0 where
    pub size : block_count s' ≡ block_count s
    pub on_gpu : (j : ℕ) → gpu_at s'.blocks j ≡ gpu_at s.blocks j

  -- One block has left the GPU.
  pub record Left (id : ℕ) (s s' : KvMemStore D) : Type 0 where
    pub size : block_count s' ≡ block_count s
    pub on_gpu : (j : ℕ) → gpu_at s'.blocks j ≡ (gpu_at s.blocks j && not (id == j))

  -- One block has entered the GPU.
  pub record Entered (id : ℕ) (s s' : KvMemStore D) : Type 0 where
    pub size : block_count s' ≡ block_count s
    pub on_gpu :
        (j : ℕ) → gpu_at s'.blocks j ≡ (gpu_at s.blocks j || ((id == j) && ltb j (block_count s)))

  pub SameGpu-refl : (s : KvMemStore D) → SameGpu s s
  SameGpu-refl s = record { size = refl; on_gpu = λ j. refl }

  pub SameGpu-trans : (s t u : KvMemStore D) → SameGpu s t → SameGpu t u → SameGpu s u
  SameGpu-trans s t u v w = record { size = w.size ∙ v.size; on_gpu = λ j. w.on_gpu j ∙ v.on_gpu j }

  pub SameGpu-Left : (id : ℕ) (s t u : KvMemStore D) → SameGpu s t → Left id t u → Left id s u
  SameGpu-Left id s t u v w = record {
    size = w.size ∙ v.size;
    on_gpu = λ j. w.on_gpu j ∙ ap (λ g. g && not (id == j)) (v.on_gpu j);
  }

  pub Left-SameGpu : (id : ℕ) (s t u : KvMemStore D) → Left id s t → SameGpu t u → Left id s u
  Left-SameGpu id s t u v w = record {
    size = w.size ∙ v.size;
    on_gpu = λ j. w.on_gpu j ∙ v.on_gpu j;
  }

  update_block_lem :
      (s : KvMemStore D) (id : ℕ) (f : KvMemBlock D → KvMemBlock D)
      → (update_block s id f).blocks ≡ modify s.blocks id f
  unfolding update_block
  update_block_lem s id f = elim (Bool-cases (leb (block_count s) id)) [
    | inl out ↦ rw out (sym (modify_out s.blocks id f out))
    | inr inside ↦ rw inside refl
  ]
    where
      modify_out :
          (bs : List (KvMemBlock D)) (id : ℕ) (f : KvMemBlock D → KvMemBlock D)
          → leb (length bs) id ≡ true
          → modify bs id f ≡ bs
      modify_out [] id f h = refl
      modify_out (b ∷ bs) zero f h = absurd (ground arith)
      modify_out (b ∷ bs) (suc id) f h = ap (λ xs. b ∷ xs) (modify_out bs id f (ground arith))

  pub update_block-SameGpu :
      (s : KvMemStore D) (id : ℕ) (f : KvMemBlock D → KvMemBlock D)
      → ((b : KvMemBlock D) → is_gpu (f b).tier ≡ is_gpu b.tier)
      → SameGpu s (update_block s id f)
  update_block-SameGpu s id f h = record {
    size = ap length (update_block_lem s id f) ∙ length-modify s.blocks id f;
    on_gpu =
        λ j. ap (λ bs. gpu_at bs j) (update_block_lem s id f) ∙ gpu_at-modify s.blocks id j f h;
  }

  pub set_block_tier-Left :
      (s : KvMemStore D) (id : ℕ) (t : KvTier) (cpu_slot nvme_slot : ℤ)
      → is_gpu t ≡ false
      → Left id s (set_block_tier s id t cpu_slot nvme_slot)
  unfolding set_block_tier tier_inclusive tier_exclusive
  set_block_tier-Left s id t cpu_slot nvme_slot h =
      let f =
        (if s.optimize_stage_out
          then tier_inclusive t cpu_slot nvme_slot
          else tier_exclusive t cpu_slot nvme_slot) in
      record {
        size = ap length (update_block_lem s id f) ∙ length-modify s.blocks id f;
        on_gpu = λ j.
            ap (λ bs. gpu_at bs j) (update_block_lem s id f)
            ∙ gpu_at-modify_out s.blocks id j f (λ b. ground (arith, h));
      }

  pub set_block_tier-Entered :
      (s : KvMemStore D) (id : ℕ) (t : KvTier) (cpu_slot nvme_slot : ℤ)
      → is_gpu t ≡ true
      → Entered id s (set_block_tier s id t cpu_slot nvme_slot)
  unfolding set_block_tier tier_inclusive tier_exclusive
  set_block_tier-Entered s id t cpu_slot nvme_slot h =
      let f =
        (if s.optimize_stage_out
          then tier_inclusive t cpu_slot nvme_slot
          else tier_exclusive t cpu_slot nvme_slot) in
      record {
        size = ap length (update_block_lem s id f) ∙ length-modify s.blocks id f;
        on_gpu = λ j.
            ap (λ bs. gpu_at bs j) (update_block_lem s id f)
            ∙ gpu_at-modify_in s.blocks id j f (λ b. ground (arith, h));
      }
