-- ===== src/Store/Media.antt =====
-- `constrain_media` of kvmem_store.cpp and the two selectors that apply it: blocks that share a media
-- range are kept together or not at all. The groups are listed from the last one on; `lo[id]` and
-- `hi[id]` are then the bounds of the first group of the list that covers the block. `std::sort` is
-- an insertion sort.
pub mod Keep
pub mod Fits
pub mod Whole
pub mod Ranges
pub mod Together
use kvmem_test.Common.{
  ℕ, ◌+◌, ◌-◌, ◌/◌, Bool, true, false, ◌&&◌, ◌||◌, List, [], ◌∷◌, min, max, ltb, leb, ◌==◌,
  if◌then◌else◌, length, range, add32, sub32, Error, Result, ok, throw, ◌>>=◌,
}
use kvmem_test.Store.Types.{
  DoubleOps, KvMemBlock, KvMemStore, block_count, budget_blocks, prefill_budget_blocks,
}
use kvmem_test.Store.Select.{
  Kept, none_kept, keep_all, kept_ids, candidates, sort, better, pick_topk_ungrouped,
  pick_prefill_ungrouped,
}
use kvmem_test.Store.Semantic.{count_new}

-- A new group, or the last one extended.
unfoldable pub merge_group : ℕ → ℕ → List (ℕ × ℕ) → List (ℕ × ℕ)
merge_group first end [] = (first, end) ∷ []
merge_group first end ((a, b) ∷ groups) =
    if ltb first b then (a, max b end) ∷ groups else (first, end) ∷ (a, b) ∷ groups

-- lo[id] and hi[id].
unfoldable pub group_of : List (ℕ × ℕ) → ℕ → ℕ × ℕ
group_of [] id = (id, id + 1)
group_of ((a, b) ∷ groups) id =
    let rest = group_of groups id in if leb a id && ltb id b then (a, b) else rest

-- The blocks that are kept or left with the block.
unfoldable pub members : List (ℕ × ℕ) → ℕ → List ℕ
unfolding group_of
members groups id = let (lo, hi) = group_of groups id in range lo (hi - lo)

-- keep(id, required)
unfoldable pub keep_group : List (ℕ × ℕ) → ℕ → Bool → ℕ → Kept → Result Kept
unfolding members count_new keep_all
keep_group groups budget required id k =
    let ids = members groups id in
    if leb (length k.flags) id
    then ok k
    else if ltb budget (k.count + count_new k.flags ids)
    then (if required then throw Error.mandatory_exceeds_budget else ok k)
    else ok (keep_all ids k)

unfoldable pub keep_groups : List (ℕ × ℕ) → ℕ → Bool → List ℕ → Kept → Result Kept
unfolding keep_group
keep_groups groups budget required [] k = ok k
keep_groups groups budget required (id ∷ ids) k =
    keep_group groups budget required id k >>= λ k'. keep_groups groups budget required ids k'

-- if (!groups.empty()) keep(groups.back().first, true);
unfoldable pub keep_latest : List (ℕ × ℕ) → ℕ → Kept → Result Kept
unfolding keep_group
keep_latest [] budget k = ok k
keep_latest ((a, b) ∷ groups) budget k = keep_group ((a, b) ∷ groups) budget true a k

module _ {D : Type 0} where
  unfoldable pub add_groups : KvMemStore D → List (ℕ × ℕ) → List (ℕ × ℕ) → List (ℕ × ℕ)
  unfolding merge_group
  add_groups s [] groups = groups
  add_groups s ((start, end) ∷ ranges) groups = add_groups s ranges (
      if leb s.total_tokens start || leb end start
      then groups
      else merge_group (start / s.block_tokens)
          (min (block_count s) (sub32 (add32 end s.block_tokens) 1 / s.block_tokens)) groups)

  abbrev pub media_groups : KvMemStore D → List (ℕ × ℕ)
  media_groups s = add_groups s s.media_ranges []

  module _ (o : DoubleOps D) where
    unfoldable pub preferred : Bool → KvMemStore D → ℕ → ℕ → Bool
    unfolding better
    preferred recency s a b =
        if recency then ltb b a else better o (λ (x : KvMemBlock D). x.attn_score) s.blocks a b

    unfoldable pub media_kept : KvMemStore D → List ℕ → List ℕ → ℕ → Bool → Result Kept
    unfolding none_kept keep_groups keep_latest sort preferred candidates
    media_kept s selected mandatory budget recency = do
      let groups = media_groups s
      k₁ ←
          keep_groups groups budget true (range 0 (min (block_count s) s.sink_blocks))
            (none_kept (block_count s))
      k₂ ← keep_groups groups budget true mandatory k₁
      k₃ ← keep_latest groups budget k₂
      k₄ ← keep_groups groups budget false (sort (preferred recency s) selected) k₃
      keep_groups groups budget false (sort (preferred recency s) (candidates k₄)) k₄

    unfoldable pub constrain_media : KvMemStore D → List ℕ → List ℕ → ℕ → Bool → Result (List ℕ)
    unfolding media_kept kept_ids
    constrain_media s selected mandatory budget recency =
        if (length s.media_ranges == 0) || leb (block_count s) budget || (budget == 0)
        then ok selected
        else media_kept s selected mandatory budget recency >>= λ k. ok (kept_ids k)

    unfoldable pub pick_topk_blocks : KvMemStore D → List ℕ → Result (List ℕ)
    unfolding pick_topk_ungrouped constrain_media
    pick_topk_blocks s mandatory =
        constrain_media s (pick_topk_ungrouped o s mandatory) mandatory (budget_blocks s) false

    unfoldable pub pick_prefill_pressure_blocks : KvMemStore D → List ℕ → Result (List ℕ)
    unfolding pick_prefill_ungrouped constrain_media
    pick_prefill_pressure_blocks s mandatory =
        constrain_media s (pick_prefill_ungrouped o s mandatory) mandatory (prefill_budget_blocks s)
          true
