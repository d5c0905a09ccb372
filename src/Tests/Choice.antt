-- ===== src/Tests/Choice.antt =====
-- The selectors and the selection plan at the store of five blocks.
use kvmem_test.Common.{
  ℕ, ◌≤◌, ◌≡◌, ◌⊎◌, refl, true, false, not, ◌&&◌, ◌||◌, [], ◌∷◌, min, length, contains, arith, inl,
  inr, All, ok,
}
use kvmem_test.Store.Types.{KvTier, KvMemStore, KvMemPlan, is_gpu}
use kvmem_test.Store.Select.{pick_topk_ungrouped, pick_prefill_ungrouped, is_quota, keep_forced}
use kvmem_test.Store.Select.Ids.{IsSelection}
use kvmem_test.Store.Select.TopK.{pick_topk_ungrouped-fills}
use kvmem_test.Store.Select.Forced.{pick_topk_ungrouped-forced}
use kvmem_test.Store.Select.Prefill.{pick_prefill_ungrouped-fills, pick_prefill_ungrouped-newest}
use kvmem_test.Store.Select.Optimal.{attn_of, pick_topk_ungrouped-optimal}
use kvmem_test.Store.Plan.{normalize, set_selection}
use kvmem_test.Store.Plan.Pack.{Packed, set_selection-Packed}
use kvmem_test.Store.Plan.Residency.{works, set_selection-residency}
use kvmem_test.Store.Plan.Drift.{HasDriftBound, set_selection-HasDriftBound}
use kvmem_test.Common.{List}
use kvmem_test.Store.Semantic.{pick_semantic_groups}
use kvmem_test.Store.Semantic.Bounds.{pick_semantic_groups-budget}
use kvmem_test.Tests.{hundredths, five_blocks, block, hundredths-OrderLaws, five_blocks-IsLaid}

pick_topk_ungrouped-fills_example :
    IsSelection 5 (pick_topk_ungrouped hundredths five_blocks (3 ∷ []))
    × (length (pick_topk_ungrouped hundredths five_blocks (3 ∷ [])) ≡ min 5 3)
pick_topk_ungrouped-fills_example =
    pick_topk_ungrouped-fills hundredths five_blocks (3 ∷ []) (omega arith)

pick_topk_ungrouped-forced_example :
    contains 3 (pick_topk_ungrouped hundredths five_blocks (3 ∷ [])) ≡ true
pick_topk_ungrouped-forced_example =
    pick_topk_ungrouped-forced hundredths five_blocks (3 ∷ []) 3 (omega arith) (omega arith)
      (inr (inl (omega arith, refl)))

pick_prefill_ungrouped-fills_example :
    IsSelection 5 (pick_prefill_ungrouped hundredths five_blocks [])
    × (length (pick_prefill_ungrouped hundredths five_blocks []) ≡ min 5 3)
pick_prefill_ungrouped-fills_example =
    pick_prefill_ungrouped-fills hundredths five_blocks [] (omega arith)

pick_prefill_ungrouped-newest_example :
    contains 4 (pick_prefill_ungrouped hundredths five_blocks []) ≡ true
unfolding pick_prefill_ungrouped
pick_prefill_ungrouped-newest_example =
    pick_prefill_ungrouped-newest hundredths five_blocks [] 3 4 (omega arith) refl (omega arith)
      (omega arith) refl

-- Block 2 has the best score of those that are not forced; block 1 is left out.
pick_topk_ungrouped-optimal_example :
    (hundredths.gt
        (attn_of hundredths hundredths-OrderLaws five_blocks 1)
        (attn_of hundredths hundredths-OrderLaws five_blocks 2)
      ≡ false)
    × ((hundredths.ne
            (attn_of hundredths hundredths-OrderLaws five_blocks 1)
            (attn_of hundredths hundredths-OrderLaws five_blocks 2)
          ≡ true)
        ⊎ (1 ≤ 2))
unfolding is_quota keep_forced pick_topk_ungrouped
pick_topk_ungrouped-optimal_example =
    pick_topk_ungrouped-optimal hundredths hundredths-OrderLaws five_blocks [] 2 1 refl
      (omega arith) refl refl refl

set_selection-Packed_example :
    (s' : KvMemStore ℕ) × (plan : KvMemPlan) × (set_selection five_blocks
        (4 ∷ 1 ∷ 9 ∷ 2 ∷ 1 ∷ [])
        false
      ≡ ok (s', plan))
    × Packed s'.blocks 0 (normalize 5 (4 ∷ 1 ∷ 9 ∷ 2 ∷ 1 ∷ [])) plan.remaps plan.total_window_tokens
    × (plan.total_window_tokens ≤ 18)
set_selection-Packed_example =
    set_selection-Packed five_blocks (4 ∷ 1 ∷ 9 ∷ 2 ∷ 1 ∷ []) false five_blocks-IsLaid (omega arith)

set_selection-residency_example :
    (s' : KvMemStore ℕ) × (plan : KvMemPlan) × (set_selection five_blocks (1 ∷ 2 ∷ []) false
      ≡ ok (s', plan))
    × (works s'.blocks 1 ≡ contains 1 (1 ∷ 2 ∷ []))
    × (((is_gpu KvTier.ssd && not (contains 1 plan.stage_out)) || contains 1 plan.stage_in)
        ≡ contains 1 (1 ∷ 2 ∷ []))
set_selection-residency_example =
    set_selection-residency five_blocks (1 ∷ 2 ∷ []) false 1 (block 1 4 KvTier.ssd false 30)
      five_blocks-IsLaid refl refl

set_selection-HasDriftBound_example :
    (s' : KvMemStore ℕ) × (plan : KvMemPlan) × (set_selection five_blocks (2 ∷ 4 ∷ []) false
      ≡ ok (s', plan))
    × All (HasDriftBound s'.cfg) s'.blocks
set_selection-HasDriftBound_example =
    set_selection-HasDriftBound five_blocks (2 ∷ 4 ∷ []) false refl (omega arith) (omega arith)
      (omega arith) (omega arith) (ground arith)

pick_semantic_groups-budget_example :
    (ids : List ℕ) × (pick_semantic_groups hundredths five_blocks
        ((0, 6) ∷ (6, 11) ∷ (11, 18) ∷ [])
        (20 ∷ 50 ∷ 30 ∷ [])
        []
      ≡ ok ids)
    × IsSelection 5 ids
    × (length ids ≤ 3)
pick_semantic_groups-budget_example =
    pick_semantic_groups-budget hundredths five_blocks ((0, 6) ∷ (6, 11) ∷ (11, 18) ∷ [])
      (20 ∷ 50 ∷ 30 ∷ []) [] (omega arith) refl
