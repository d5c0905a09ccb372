-- ===== src/Store/Select.antt =====
-- The selectors `pick_topk_ungrouped` and `pick_prefill_ungrouped` of kvmem_store.cpp, over a table
-- of kept flags with its counter. `std::sort` is an insertion sort, and `std::nth_element` with
-- `resize` is the front of the sorted list: the comparisons never tie, so both give the same blocks.
-- The trace output is left out.
pub mod Flags
pub mod Loops
pub mod Ids
pub mod Order
pub mod TopK
pub mod Forced
pub mod Prefill
pub mod Optimal
use kvmem_test.Common.{
  ℕ, zero, suc, ◌+◌, ◌-◌, ◌*◌, ◌/◌, ◌≤◌, ◌<◌, Bool, true, false, not, ◌&&◌, ◌||◌, List, [], ◌∷◌,
  map, min, max, ltb, leb, ◌==◌, if◌then◌else◌, length, get_or, get_elem?, set, take, replicate,
  range, ◌%◌, u32_mod, add32, Option, some, none,
}
use kvmem_test.Common.{Error, Result, ok, throw}
use kvmem_test.Store.Types.{
  DoubleOps, KvMemBlock, KvMemStore, KvMemSelectPolicy, block_count, budget_blocks,
  prefill_budget_blocks,
}

-- `kept` and `kept_count`.
pub record Kept : Type 0 where
  pub flags : List Bool
  pub count : ℕ

unfoldable pub none_kept : ℕ → Kept
none_kept n = record { flags = replicate n false; count = 0 }

unfoldable pub keep : ℕ → Kept → Kept
keep id k =
    if ltb id (length k.flags) && not (get_or k.flags id false)
    then record { flags = set k.flags id true; count = k.count + 1 }
    else k

-- for (id : ids) while kept_count < budget, from the front of the list.
unfoldable pub keep_front : ℕ → List ℕ → Kept → Kept
unfolding keep
keep_front budget [] k = k
keep_front budget (id ∷ ids) k = keep_front budget ids (if ltb k.count budget then keep id k else k)

-- The same loop from the back of the list.
unfoldable pub keep_back : ℕ → List ℕ → Kept → Kept
unfolding keep
keep_back budget [] k = k
keep_back budget (id ∷ ids) k =
    let k' = keep_back budget ids k in if ltb k'.count budget then keep id k' else k'

-- for (id : candidates) keep(id);
unfoldable pub keep_all : List ℕ → Kept → Kept
unfolding keep
keep_all [] k = k
keep_all (id ∷ ids) k = keep_all ids (keep id k)

-- The numbers from `i` on whose flag is set, or is not set.
unfoldable pub flagged : Bool → ℕ → List Bool → List ℕ
flagged v i [] = []
flagged true i (true ∷ fs) = i ∷ flagged true (i + 1) fs
flagged true i (false ∷ fs) = flagged true (i + 1) fs
flagged false i (true ∷ fs) = flagged false (i + 1) fs
flagged false i (false ∷ fs) = i ∷ flagged false (i + 1) fs

unfoldable pub kept_ids : Kept → List ℕ
unfolding flagged
kept_ids k = flagged true 0 k.flags

unfoldable pub candidates : Kept → List ℕ
unfolding flagged
candidates k = flagged false 0 k.flags

unfoldable pub insert : (ℕ → ℕ → Bool) → ℕ → List ℕ → List ℕ
insert less x [] = x ∷ []
insert less x (y ∷ ys) = if less x y then x ∷ y ∷ ys else y ∷ insert less x ys

-- std::sort
unfoldable pub sort : (ℕ → ℕ → Bool) → List ℕ → List ℕ
unfolding insert
sort less [] = []
sort less (x ∷ xs) = insert less x (sort less xs)

-- std::nth_element and resize, where fewer than all are needed.
unfoldable pub best : (ℕ → ℕ → Bool) → ℕ → List ℕ → List ℕ
unfolding sort
best less need ids = if ltb need (length ids) then take need (sort less ids) else ids

module _ {D : Type 0} where
  unfoldable pub score_at : D → (KvMemBlock D → D) → List (KvMemBlock D) → ℕ → D
  score_at d score bs i = elim (get_elem? bs i) [ none ↦ d | some b ↦ score b ]

  module _ (o : DoubleOps D) where
    -- The higher score first; the higher number breaks ties.
    unfoldable pub better : (KvMemBlock D → D) → List (KvMemBlock D) → ℕ → ℕ → Bool
    unfolding score_at
    better score bs a b =
        let sa = score_at o.zero score bs a in
        let sb = score_at o.zero score bs b in if o.ne sa sb then o.gt sa sb else ltb b a

    unfoldable pub take_top : KvMemStore D → ℕ → ℕ → (KvMemBlock D → D) → Kept → Kept
    unfolding keep_all candidates best better
    take_top s budget quota score k =
        let cs = candidates k in
        let need = min (min quota (budget - k.count)) (length cs) in
        if leb budget k.count || (quota == 0) || (length cs == 0)
        then k
        else keep_all (best (better score s.blocks) need cs) k

    -- The blocks that are kept whatever their scores: sink, mandatory and recent.
    unfoldable pub keep_forced : KvMemStore D → List ℕ → Kept
    unfolding none_kept keep_front keep_back
    keep_forced s mandatory =
        let n = block_count s in
        let budget = budget_blocks s in
        let sink = min s.sink_blocks n in
        let recent = min s.recent_blocks n in
        keep_back budget (range (n - recent) recent)
          (keep_back budget mandatory (keep_front budget (range 0 sink) (none_kept n)))

    unfoldable pub retrieval_quota : KvMemStore D → ℕ → ℕ
    retrieval_quota s remaining =
        if s.retrieval_blocks == 0
        then if s.profile_blocks == 0
          then (remaining * 2) % u32_mod / 3
          else remaining - s.profile_blocks
        else s.retrieval_blocks

    unfoldable pub profile_quota : KvMemStore D → ℕ → ℕ
    profile_quota s remaining =
        if s.profile_blocks == 0
        then if s.retrieval_blocks == 0
          then remaining - (remaining * 2) % u32_mod / 3
          else remaining - s.retrieval_blocks
        else s.profile_blocks

    unfoldable pub quota_fill : KvMemStore D → ℕ → Kept → Kept
    unfolding take_top retrieval_quota profile_quota
    quota_fill s budget k =
        let remaining = budget - k.count in
        let k₁ = take_top s budget (retrieval_quota s remaining) (λ b. b.retrieval_score) k in
        let k₂ = take_top s budget (profile_quota s remaining) (λ b. b.profile_score) k₁ in
        if ltb k₂.count budget
        then take_top s budget (budget - k₂.count) (λ b. b.attn_score) k₂
        else k₂

    unfoldable pub top_fill : KvMemStore D → ℕ → Kept → Kept
    unfolding keep_all candidates best better
    top_fill s budget k =
        keep_all (best (better (λ b. b.attn_score) s.blocks) (budget - k.count) (candidates k)) k

    unfoldable pub is_quota : KvMemSelectPolicy → Bool
    is_quota KvMemSelectPolicy.top_k = false
    is_quota KvMemSelectPolicy.quota = true

    unfoldable pub topk_kept : KvMemStore D → List ℕ → Kept
    unfolding keep_forced quota_fill top_fill is_quota
    topk_kept s mandatory =
        let budget = budget_blocks s in
        let k = keep_forced s mandatory in
        if ltb k.count budget
        then (if is_quota s.select_policy then quota_fill s budget k else top_fill s budget k)
        else k

    unfoldable pub pick_topk_ungrouped : KvMemStore D → List ℕ → List ℕ
    unfolding kept_ids topk_kept
    pick_topk_ungrouped s mandatory =
        if (budget_blocks s == 0) || leb (block_count s) (budget_blocks s)
        then range 0 (block_count s)
        else kept_ids (topk_kept s mandatory)

    unfoldable pub prefill_kept : KvMemStore D → List ℕ → Kept
    unfolding none_kept keep_front keep_back
    prefill_kept s mandatory =
        let n = block_count s in
        let budget = prefill_budget_blocks s in
        let sink = min s.sink_blocks (min budget n) in
        keep_back budget (range 0 n)
          (keep_back budget mandatory (keep_front budget (range 0 sink) (none_kept n)))

    unfoldable pub pick_prefill_ungrouped : KvMemStore D → List ℕ → List ℕ
    unfolding kept_ids prefill_kept
    pick_prefill_ungrouped s mandatory =
        if (prefill_budget_blocks s == 0) || leb (block_count s) (prefill_budget_blocks s)
        then range 0 (block_count s)
        else kept_ids (prefill_kept s mandatory)
