-- ===== src/Store/Semantic.antt =====
-- `pick_semantic_groups` of kvmem_store.cpp: whole groups of blocks by their score. `std::sort` is an
-- insertion sort. The trace output is left out.
pub mod Bounds
use kvmem_test.Common.{
  ℕ, ◌+◌, ◌-◌, ◌/◌, ◌%◌, Bool, true, false, not, ◌&&◌, ◌||◌, List, [], ◌∷◌, min, max, ltb, leb,
  ◌==◌, if◌then◌else◌, length, get_or, range, u32_mod, Option, some, none, Error, Result, ok,
  throw_if, ◌>>=◌, ◌>>◌,
}
use kvmem_test.Store.Types.{DoubleOps, KvMemBlock, KvMemStore, block_count, budget_blocks}
use kvmem_test.Store.Select.{Kept, keep_all, kept_ids, keep_forced}

pub record Candidate (D : Type 0) : Type 0 where
  pub group : ℕ
  pub first : ℕ
  pub last : ℕ
  pub score : D

-- How many of the blocks are not kept yet.
unfoldable pub count_new : List Bool → List ℕ → ℕ
count_new flags [] = 0
count_new flags (id ∷ ids) =
    let rest = count_new flags ids in if get_or flags id false then rest else rest + 1

module _ {D : Type 0} where
  unfoldable pub covered_tokens : List (KvMemBlock D) → ℕ
  covered_tokens [] = 0
  covered_tokens (b ∷ []) = b.orig_pos_start + b.n_tokens
  covered_tokens (b ∷ c ∷ bs) = covered_tokens (c ∷ bs)

  unfoldable pub candidate_of : KvMemStore D → ℕ → ℕ × ℕ → D → Option (Candidate D)
  unfolding covered_tokens
  candidate_of s g (start, end) score =
      let n = block_count s in
      let bt = max 1 s.block_tokens in
      let covered = covered_tokens s.blocks in
      let capped_end = min end covered % u32_mod in
      if leb end start || leb covered start || leb n (start / bt)
      then none
      else some (record {
        group = g;
        first = start / bt;
        last = min ((capped_end - 1) / bt) (n - 1);
        score = score;
      })

  unfoldable pub add_candidate : Option (Candidate D) → List (Candidate D) → List (Candidate D)
  add_candidate none cs = cs
  add_candidate (some c) cs = c ∷ cs

  unfoldable pub group_candidates : KvMemStore D → ℕ → List (ℕ × ℕ) → List D → List (Candidate D)
  unfolding candidate_of add_candidate
  group_candidates s g [] scores = []
  group_candidates s g (span ∷ spans) [] = []
  group_candidates s g (span ∷ spans) (score ∷ scores) =
      add_candidate (candidate_of s g span score) (group_candidates s (g + 1) spans scores)

  unfoldable pub blocks_of : Candidate D → List ℕ
  blocks_of c = range c.first (c.last + 1 - c.first)

  -- The loop over the sorted candidates; it stops when the budget is used up.
  unfoldable pub select_groups : ℕ → List (Candidate D) → Kept → Kept
  unfolding keep_all count_new blocks_of
  select_groups budget [] k = k
  select_groups budget (c ∷ cs) k =
      let fits = not (ltb (budget - k.count) (count_new k.flags (blocks_of c))) in
      let k' = if fits then keep_all (blocks_of c) k else k in
      let rest = select_groups budget cs k' in if fits && (k'.count == budget) then k' else rest

  module _ (o : DoubleOps D) where
    -- The higher score first; the later group breaks ties.
    unfoldable pub better_group : Candidate D → Candidate D → Bool
    better_group a b = if o.ne a.score b.score then o.gt a.score b.score else ltb b.group a.group

    unfoldable pub insert_candidate : Candidate D → List (Candidate D) → List (Candidate D)
    unfolding better_group
    insert_candidate c [] = c ∷ []
    insert_candidate c (d ∷ ds) =
        let rest = insert_candidate c ds in if better_group c d then c ∷ d ∷ ds else d ∷ rest

    unfoldable pub sort_candidates : List (Candidate D) → List (Candidate D)
    unfolding insert_candidate
    sort_candidates [] = []
    sort_candidates (c ∷ cs) = insert_candidate c (sort_candidates cs)

    unfoldable pub semantic_kept : KvMemStore D → List (ℕ × ℕ) → List D → List ℕ → Kept
    unfolding keep_forced sort_candidates group_candidates select_groups
    semantic_kept s groups scores mandatory =
        select_groups (budget_blocks s) (sort_candidates (group_candidates s 0 groups scores))
          (keep_forced o s mandatory)

    unfoldable pub semantic_ids : KvMemStore D → List (ℕ × ℕ) → List D → List ℕ → List ℕ
    unfolding kept_ids semantic_kept
    semantic_ids s groups scores mandatory =
        if (budget_blocks s == 0) || leb (block_count s) (budget_blocks s)
        then range 0 (block_count s)
        else kept_ids (semantic_kept s groups scores mandatory)

    unfoldable pub pick_semantic_groups :
        KvMemStore D → List (ℕ × ℕ) → List D → List ℕ → Result (List ℕ)
    unfolding semantic_ids
    pick_semantic_groups s groups group_scores mandatory_blocks =
        if block_count s == 0
        then ok []
        else throw_if (not (length groups == length group_scores)) Error.spans_scores_mismatch
          >> ok (semantic_ids s groups group_scores mandatory_blocks)
