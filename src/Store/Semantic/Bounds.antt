-- ===== src/Store/Semantic/Bounds.antt =====
-- The semantic selection stays within the budget.
use kvmem_test.Common.{
  ℕ, ◌+◌, ◌-◌, ◌≤◌, ◌<◌, ◌≡◌, refl, Bool, true, ◌||◌, List, [], ◌∷◌, ltb, leb, ◌==◌, length, set,
  range, arith, length-range, Bool-cases, inl, inr, ok,
}
use kvmem_test.Store.Types.{DoubleOps, KvMemStore, block_count, budget_blocks}
use kvmem_test.Store.Select.{Kept, keep, keep_all, kept_ids, keep_forced}
use kvmem_test.Store.Select.Flags.{Counted, get_or-set, keep-Counted}
use kvmem_test.Store.Select.Ids.{
  IsSelection, kept_ids-IsSelection, length-kept_ids, range-IsSelection,
}
use kvmem_test.Store.Select.TopK.{keep_forced-Keeps}
use kvmem_test.Store.Semantic.{
  Candidate, count_new, blocks_of, select_groups, group_candidates, sort_candidates, semantic_kept,
  semantic_ids, pick_semantic_groups,
}

count_new-set :
    (fs : List Bool) (i : ℕ) (ids : List ℕ) → count_new (set fs i true) ids ≤ count_new fs ids
unfolding count_new
count_new-set fs i [] = omega arith
count_new-set fs i (id ∷ ids) = ground (arith, count_new-set fs i ids, get_or-set fs i id)

keep-new :
    (id : ℕ) (ids : List ℕ) (k : Kept)
    → (keep id k).count + count_new (keep id k).flags ids ≤ k.count + count_new k.flags (id ∷ ids)
unfolding keep count_new
keep-new id ids k = ground (arith, count_new-set k.flags id ids)

pub keep_all-budget :
    (n : ℕ) (ids : List ℕ) (k : Kept)
    → Counted n k
    → Counted n (keep_all ids k) × ((keep_all ids k).count ≤ k.count + count_new k.flags ids)
unfolding keep_all count_new
keep_all-budget n [] k v = (v, omega arith)
keep_all-budget n (id ∷ ids) k v =
    let (w, le) = keep_all-budget n ids (keep id k) (keep-Counted n id k v) in
    (w, omega (arith, le, keep-new id ids k))

module _ {D : Type 0} where
  select_groups-budget :
      (n budget : ℕ) (cs : List (Candidate D)) (k : Kept)
      → Counted n k
      → k.count ≤ budget
      → Counted n (select_groups budget cs k) × ((select_groups budget cs k).count ≤ budget)
  unfolding select_groups
  select_groups-budget n budget [] k v h = (v, h)
  select_groups-budget n budget (c ∷ cs) k v h =
      elim (Bool-cases (ltb (budget - k.count) (count_new k.flags (blocks_of c)))) [
        | inl over ↦ rw over (select_groups-budget n budget cs k v h)
        | inr fits ↦
            let (w, le) = keep_all-budget n (blocks_of c) k v in
            let within : (keep_all (blocks_of c) k).count ≤ budget = ground arith in
            elim (Bool-cases ((keep_all (blocks_of c) k).count == budget)) [
              | inl full ↦ rw (fits, full) (w, within)
              | inr more ↦
                  rw (fits, more)
                    (select_groups-budget n budget cs (keep_all (blocks_of c) k) w within)
            ]
      ]

  module _ (o : DoubleOps D) where
    -- With a positive budget and as many scores as groups, `pick_semantic_groups` returns ascending
    -- block numbers in range, at most as many as the budget.
    pub pick_semantic_groups-budget :
        (s : KvMemStore D) (groups : List (ℕ × ℕ)) (scores : List D) (mandatory : List ℕ)
        → 0 < budget_blocks s
        → length groups ≡ length scores
        → (ids : List ℕ) × (pick_semantic_groups o s groups scores mandatory ≡ ok ids)
          × IsSelection (block_count s) ids
          × (length ids ≤ budget_blocks s)
    unfolding pick_semantic_groups semantic_ids semantic_kept
    pick_semantic_groups-budget s groups scores mandatory h e =
        let n = block_count s in
        elim (Bool-cases (n == 0)) [
          | inl empty ↦ rw empty ([], refl, record { ascending = tt; in_range = tt }, omega arith)
          | inr some_blocks ↦
              let same : (length groups == length scores) ≡ true = ground arith in
              rw (some_blocks, same)
                (elim (Bool-cases ((budget_blocks s == 0) || leb n (budget_blocks s))) [
                  | inl few ↦
                      rw few
                        (range 0 n, refl, range-IsSelection n, ground (arith, length-range 0 n))
                  | inr many ↦
                      let forced = keep_forced-Keeps o s mandatory in
                      let (v, le) =
                        select_groups-budget n (budget_blocks s)
                          (sort_candidates o (group_candidates s 0 groups scores))
                          (keep_forced o s mandatory) forced.counted
                          (forced.bounded (omega arith)) in
                      rw many (
                        kept_ids (semantic_kept o s groups scores mandatory),
                        refl,
                        kept_ids-IsSelection n _ v,
                        omega (arith, length-kept_ids n _ v),
                      )
                ])
        ]
