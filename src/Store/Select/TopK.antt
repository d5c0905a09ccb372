-- ===== src/Store/Select/TopK.antt =====
-- `pick_topk_ungrouped` and `pick_prefill_ungrouped`: the budget is used exactly, and the forced
-- blocks are among the selected.
use kvmem_test.Common.{
  ℕ, ◌+◌, ◌-◌, ◌≤◌, ◌<◌, ◌≡◌, Bool, ◌||◌, List, ◌++◌, length-append, min, ltb, leb, ◌==◌, length,
  range, arith, ltb_false→le, Bool-cases, inl, inr, length-range,
}
use kvmem_test.Store.Types.{
  DoubleOps, KvMemBlock, KvMemStore, block_count, budget_blocks, prefill_budget_blocks,
}
use kvmem_test.Store.Select.{
  Kept, none_kept, keep_front, keep_back, keep_all, candidates, best, better, take_top, keep_forced,
  quota_fill, top_fill, topk_kept, pick_topk_ungrouped, prefill_kept, retrieval_quota,
  profile_quota, is_quota,
}
use kvmem_test.Store.Select.Flags.{Counted, none_kept-Counted, contains-append}
use kvmem_test.Store.Select.Loops.{Keeps, Keeps-then, keep_front-Keeps, keep_back-Keeps}
use kvmem_test.Store.Select.Ids.{
  IsSelection, kept_ids-IsSelection, length-kept_ids, length-candidates, range-IsSelection,
}
use kvmem_test.Store.Select.Order.{keep_all-count, Fresh-best, length-best, candidates-Fresh}

-- What is kept whatever the scores: the sink, the mandatory blocks and the recent ones.
abbrev pub forced_ids : {D : Type 0} → KvMemStore D → List ℕ → List ℕ
forced_ids s mandatory =
    let n = block_count s in
    range 0 (min s.sink_blocks n)
    ++ (mandatory ++ range (n - min s.recent_blocks n) (min s.recent_blocks n))

-- The same while a long prefill is under memory pressure: the sink, the mandatory blocks and then
-- all blocks, the newest first.
abbrev pub pressure_ids : {D : Type 0} → KvMemStore D → List ℕ → List ℕ
pressure_ids s mandatory =
    let n = block_count s in
    range 0 (min s.sink_blocks (min (prefill_budget_blocks s) n)) ++ (mandatory ++ range 0 n)

-- Three loops in a row.
three_loops-Keeps :
    (budget n : ℕ) (xs ys zs : List ℕ)
    → Keeps budget n
        (xs ++ (ys ++ zs))
        (none_kept n)
        (keep_back budget zs (keep_back budget ys (keep_front budget xs (none_kept n))))
three_loops-Keeps budget n xs ys zs =
    let p = keep_front-Keeps budget n xs (none_kept n) (none_kept-Counted n) in
    let q = keep_back-Keeps budget n ys _ p.counted in
    let r = keep_back-Keeps budget n zs _ q.counted in
    Keeps-then budget n xs (ys ++ zs) (xs ++ (ys ++ zs)) _ _ _
      (λ j. contains-append j xs (ys ++ zs)) (length-append xs (ys ++ zs)) p
      (Keeps-then budget n ys zs (ys ++ zs) _ _ _ (λ j. contains-append j ys zs)
        (length-append ys zs) q r)

module _ {D : Type 0} (o : DoubleOps D) where
  pub keep_forced-Keeps :
      (s : KvMemStore D) (mandatory : List ℕ)
      → Keeps
          (budget_blocks s)
          (block_count s)
          (forced_ids s mandatory)
          (none_kept (block_count s))
          (keep_forced o s mandatory)
  unfolding keep_forced
  keep_forced-Keeps s mandatory =
      three_loops-Keeps (budget_blocks s) (block_count s)
        (range 0 (min s.sink_blocks (block_count s))) mandatory _

  pub prefill_kept-Keeps :
      (s : KvMemStore D) (mandatory : List ℕ)
      → Keeps
          (prefill_budget_blocks s)
          (block_count s)
          (pressure_ids s mandatory)
          (none_kept (block_count s))
          (prefill_kept o s mandatory)
  unfolding prefill_kept
  prefill_kept-Keeps s mandatory =
      three_loops-Keeps (prefill_budget_blocks s) (block_count s)
        (range 0 (min s.sink_blocks (min (prefill_budget_blocks s) (block_count s)))) mandatory _

  -- Keeping the best `need` candidates advances the counter by `need`, if there are so many.
  pub keep_best-count :
      (n need : ℕ) (less : ℕ → ℕ → Bool) (k : Kept)
      → Counted n k
      → Counted n (keep_all (best less need (candidates k)) k)
        × ((keep_all (best less need (candidates k)) k).count ≡ k.count + min need (n - k.count))
  keep_best-count n need less k v =
      let (w, c) =
        keep_all-count n (best less need (candidates k)) k v
          (Fresh-best less k.flags need (candidates k) (candidates-Fresh k)) in
      (w, omega (arith, c, length-best less need (candidates k), length-candidates n k v))

  pub take_top-count :
      (s : KvMemStore D) (n budget quota : ℕ) (score : KvMemBlock D → D) (k : Kept)
      → Counted n k
      → Counted n (take_top o s budget quota score k)
        × ((take_top o s budget quota score k).count
            ≡ k.count + min (min quota (budget - k.count)) (n - k.count))
  unfolding take_top
  take_top-count s n budget quota score k v =
      let len = length-candidates n k v in
      let need = min (min quota (budget - k.count)) (length (candidates k)) in
      let (w, c) = keep_best-count n need (better o score s.blocks) k v in
      elim (Bool-cases (leb budget k.count || (quota == 0) || (length (candidates k) == 0))) [
        | inl stop ↦ rw stop (v, ground arith)
        | inr go ↦ rw go (w, omega arith)
      ]

  quota_fill-count :
      (s : KvMemStore D) (n budget : ℕ) (k : Kept)
      → Counted n k
      → k.count ≤ budget
      → budget ≤ n
      → Counted n (quota_fill o s budget k) × ((quota_fill o s budget k).count ≡ budget)
  unfolding quota_fill
  quota_fill-count s n budget k v h le =
      let remaining = budget - k.count in
      let k₁ = take_top o s budget (retrieval_quota o s remaining) (λ b. b.retrieval_score) k in
      let (v₁, c₁) =
        take_top-count s n budget (retrieval_quota o s remaining) (λ b. b.retrieval_score) k v in
      let k₂ = take_top o s budget (profile_quota o s remaining) (λ b. b.profile_score) k₁ in
      let (v₂, c₂) =
        take_top-count s n budget (profile_quota o s remaining) (λ b. b.profile_score) k₁ v₁ in
      let (v₃, c₃) = take_top-count s n budget (budget - k₂.count) (λ b. b.attn_score) k₂ v₂ in
      elim (Bool-cases (ltb k₂.count budget)) [
        | inl room ↦ rw room (v₃, omega arith)
        | inr full ↦ rw full (v₂, omega (arith, ltb_false→le _ _ full))
      ]

  top_fill-count :
      (s : KvMemStore D) (n budget : ℕ) (k : Kept)
      → Counted n k
      → k.count ≤ budget
      → budget ≤ n
      → Counted n (top_fill o s budget k) × ((top_fill o s budget k).count ≡ budget)
  unfolding top_fill
  top_fill-count s n budget k v h le =
      let (w, c) =
        keep_best-count n (budget - k.count) (better o (λ b. b.attn_score) s.blocks) k v in
      (w, omega arith)

  pub topk_kept-count :
      (s : KvMemStore D) (mandatory : List ℕ)
      → budget_blocks s < block_count s
      → Counted (block_count s) (topk_kept o s mandatory)
        × ((topk_kept o s mandatory).count ≡ budget_blocks s)
  unfolding topk_kept none_kept
  topk_kept-count s mandatory h =
      let n = block_count s in
      let budget = budget_blocks s in
      let forced = keep_forced-Keeps s mandatory in
      let k = keep_forced o s mandatory in
      let bounded = forced.bounded (omega arith) in
      let quota = quota_fill-count s n budget k forced.counted bounded (omega arith) in
      let top = top_fill-count s n budget k forced.counted bounded (omega arith) in
      elim (Bool-cases (ltb k.count budget)) [
        | inl room ↦ elim (Bool-cases (is_quota o s.select_policy)) [
          | inl q ↦ rw (room, q) quota
          | inr t ↦ rw (room, t) top
        ]
        | inr full ↦ rw full (forced.counted, omega (arith, ltb_false→le _ _ full))
      ]

  -- With a positive budget, `pick_topk_ungrouped` selects ascending block numbers in range, and
  -- exactly as many as the budget, or all blocks if they are fewer, under both policies.
  pub pick_topk_ungrouped-fills :
      (s : KvMemStore D) (mandatory : List ℕ)
      → 0 < budget_blocks s
      → IsSelection (block_count s) (pick_topk_ungrouped o s mandatory)
        × (length (pick_topk_ungrouped o s mandatory) ≡ min (block_count s) (budget_blocks s))
  unfolding pick_topk_ungrouped
  pick_topk_ungrouped-fills s mandatory h =
      let n = block_count s in
      elim (Bool-cases ((budget_blocks s == 0) || leb n (budget_blocks s))) [
        | inl few ↦ rw few (range-IsSelection n, ground (arith, length-range 0 n))
        | inr many ↦
            let less : budget_blocks s < n = ground arith in
            let (v, c) = topk_kept-count s mandatory less in
            rw many (
              kept_ids-IsSelection n _ v,
              omega (arith, length-kept_ids n (topk_kept o s mandatory) v),
            )
      ]
