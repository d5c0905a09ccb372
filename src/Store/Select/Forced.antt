-- ===== src/Store/Select/Forced.antt =====
-- The forced blocks of `pick_topk_ungrouped`: sink, mandatory and recent blocks are selected as far
-- as the budget holds them, in that order of priority.
use kvmem_test.Common.{
  ℕ, ◌+◌, ◌-◌, ◌≤◌, ◌<◌, ◌≡◌, true, ◌||◌, List, min, ltb, leb, ◌==◌, length, range, arith,
  Bool-cases, inl, inr, ◌⊎◌, length-range,
}
use kvmem_test.Store.Types.{DoubleOps, KvMemBlock, KvMemStore, block_count, budget_blocks}
use kvmem_test.Store.Select.{
  Kept, none_kept, keep_front, keep_back, candidates, best, better, take_top, keep_forced,
  quota_fill, top_fill, topk_kept, pick_topk_ungrouped, is_quota, retrieval_quota, profile_quota,
}
use kvmem_test.Store.Select.Flags.{is_kept, keep_all_mono, none_kept-Counted}
use kvmem_test.Common.{contains}
use kvmem_test.Store.Select.Loops.{keep_front-Keeps, keep_back-Keeps}
use kvmem_test.Store.Select.Ids.{contains-kept_ids, contains-range}

module _ {D : Type 0} (o : DoubleOps D) where
  take_top_mono :
      (s : KvMemStore D) (budget quota : ℕ) (score : KvMemBlock D → D) (k : Kept) (j : ℕ)
      → is_kept k j ≡ true
      → is_kept (take_top o s budget quota score k) j ≡ true
  unfolding take_top
  take_top_mono s budget quota score k j h =
      let cs = candidates k in
      let need = min (min quota (budget - k.count)) (length cs) in
      elim (Bool-cases (leb budget k.count || (quota == 0) || (length cs == 0))) [
        | inl stop ↦ rw stop h
        | inr go ↦ rw go (keep_all_mono (best (better o score s.blocks) need cs) k j h)
      ]

  quota_fill_mono :
      (s : KvMemStore D) (budget : ℕ) (k : Kept) (j : ℕ)
      → is_kept k j ≡ true
      → is_kept (quota_fill o s budget k) j ≡ true
  unfolding quota_fill
  quota_fill_mono s budget k j h =
      let r = retrieval_quota o s (budget - k.count) in
      let p = profile_quota o s (budget - k.count) in
      let k₁ = take_top o s budget r (λ b. b.retrieval_score) k in
      let h₁ = take_top_mono s budget r (λ b. b.retrieval_score) k j h in
      let k₂ = take_top o s budget p (λ b. b.profile_score) k₁ in
      let h₂ = take_top_mono s budget p (λ b. b.profile_score) k₁ j h₁ in
      elim (Bool-cases (ltb k₂.count budget)) [
        | inl room ↦
            rw room (take_top_mono s budget (budget - k₂.count) (λ b. b.attn_score) k₂ j h₂)
        | inr full ↦ rw full h₂
      ]

  pub topk_kept_mono :
      (s : KvMemStore D) (mandatory : List ℕ) (j : ℕ)
      → is_kept (keep_forced o s mandatory) j ≡ true
      → is_kept (topk_kept o s mandatory) j ≡ true
  unfolding topk_kept top_fill
  topk_kept_mono s mandatory j h =
      let k = keep_forced o s mandatory in
      let budget = budget_blocks s in
      let quota = quota_fill_mono s budget k j h in
      let top =
        keep_all_mono
          (best (better o (λ b. b.attn_score) s.blocks) (budget - k.count) (candidates k)) k j h in
      elim (Bool-cases (ltb k.count budget)) [
        | inl room ↦ elim (Bool-cases (is_quota o s.select_policy)) [
          | inl q ↦ rw (room, q) quota
          | inr t ↦ rw (room, t) top
        ]
        | inr full ↦ rw full h
      ]

  keep_forced-forced :
      (s : KvMemStore D) (mandatory : List ℕ) (j : ℕ)
      → j < block_count s
      → (s.sink_blocks ≤ budget_blocks s
          → j < s.sink_blocks
          → is_kept (keep_forced o s mandatory) j ≡ true)
        × (s.sink_blocks + length mandatory ≤ budget_blocks s
            → contains j mandatory ≡ true
            → is_kept (keep_forced o s mandatory) j ≡ true)
        × (s.sink_blocks + length mandatory + s.recent_blocks ≤ budget_blocks s
            → block_count s ≤ j + s.recent_blocks
            → is_kept (keep_forced o s mandatory) j ≡ true)
  unfolding keep_forced none_kept
  keep_forced-forced s mandatory j h =
      let n = block_count s in
      let budget = budget_blocks s in
      let sink = min s.sink_blocks n in
      let recent = min s.recent_blocks n in
      let p = keep_front-Keeps budget n (range 0 sink) (none_kept n) (none_kept-Counted n) in
      let k₁ = keep_front budget (range 0 sink) (none_kept n) in
      let q = keep_back-Keeps budget n mandatory k₁ p.counted in
      let k₂ = keep_back budget mandatory k₁ in
      let r = keep_back-Keeps budget n (range (n - recent) recent) k₂ q.counted in
      let len = length-range 0 sink in
      let slow₁ = p.slow in
      let slow₂ = q.slow in
      (
        λ fits sunk.
            r.mono j (q.mono j (p.all (omega arith) j h (ground (arith, contains-range j 0 sink)))),
        λ fits c. r.mono j (q.all (omega arith) j h c),
        λ fits late.
            r.all (omega (arith, length-range (n - recent) recent)) j h
              (ground (arith, contains-range j (n - recent) recent)),
      )

  -- Why a block is forced: it is in the sink and the budget holds the sink; it is mandatory and the
  -- budget holds the sink and the mandatory list; or it is recent and the budget holds all three.
  abbrev pub IsForced : KvMemStore D → List ℕ → ℕ → Type 0
  IsForced s mandatory j =
      ((s.sink_blocks ≤ budget_blocks s) × (j < s.sink_blocks))
      ⊎ ((s.sink_blocks + length mandatory ≤ budget_blocks s) × (contains j mandatory ≡ true))
      ⊎ ((s.sink_blocks + length mandatory + s.recent_blocks ≤ budget_blocks s)
          × (block_count s ≤ j + s.recent_blocks))

  -- With a positive budget, `pick_topk_ungrouped` selects every block of the table that is forced:
  -- sink blocks if the budget holds the sink, mandatory ones if it also holds the mandatory list,
  -- recent ones if it holds all three.
  pub pick_topk_ungrouped-forced :
      (s : KvMemStore D) (mandatory : List ℕ) (j : ℕ)
      → 0 < budget_blocks s
      → j < block_count s
      → IsForced s mandatory j
      → contains j (pick_topk_ungrouped o s mandatory) ≡ true
  unfolding pick_topk_ungrouped
  pick_topk_ungrouped-forced s mandatory j pos h forced =
      let n = block_count s in
      let k = topk_kept o s mandatory in
      elim (Bool-cases ((budget_blocks s == 0) || leb n (budget_blocks s))) [
        | inl few ↦ rw few (ground (arith, contains-range j 0 n))
        | inr many ↦
            let (sink, mand, recent) = keep_forced-forced s mandatory j h in
            rw (many, contains-kept_ids j k)
              (topk_kept_mono s mandatory j (elim forced [
                | inl (a, b) ↦ sink a b
                | inr (inl (a, b)) ↦ mand a b
                | inr (inr (a, b)) ↦ recent a b
              ]))
      ]
