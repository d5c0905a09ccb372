-- ===== src/Adapter/Turn.antt =====
-- The queries of a turn in src/adapter/llama-memory-kvmem.cpp: which rows are the query's, which
-- blocks a retrieval must take, and whether a replay of the query fits the budget.
pub mod Replay
use kvmem_test.Common.{
  ℕ, zero, suc, ◌+◌, ◌-◌, ◌*◌, ◌/◌, ℤ, pos, negsuc, Bool, true, false, not, ◌&&◌, ◌||◌, List, [],
  ◌∷◌, ◌++◌, ltb, leb, ◌==◌, if◌then◌else◌, max, min, is_nonneg, Result, ok, throw, Error, throw_if,
  ◌>>◌, int32_of_bits,
}
use kvmem_test.Store.Types.{KvMemBlock, KvMemStore, orig_pos_end, budget_blocks}
use kvmem_test.Store.Table.{block_id_containing}

-- llama_kvmem_row_range: the rows from `begin` up to `end`.
pub record RowRange : Type 0 where
  pub begin : ℤ
  pub end : ℤ

-- The members of the adapter that say which rows are the query's.
pub record TurnState : Type 0 where
  pub explicit_spans : Bool
  pub query_frozen : Bool
  pub query_begin : ℤ
  pub query_end : ℤ
  pub force_pos : ℤ
  pub query : List RowRange
  pub mandatory : List RowRange

-- The flush of the captured queries before it is left out: it writes other members.
unfoldable pub set_query_span : TurnState → ℤ → ℤ → TurnState
set_query_span t begin end = record t {
  explicit_spans = false;
  query_begin = begin;
  query_end = end;
}

-- x < y
abbrev pub lt_ℤ : ℤ → ℤ → Bool
lt_ℤ (pos m) (pos n) = ltb m n
lt_ℤ (pos m) (negsuc n) = false
lt_ℤ (negsuc m) (pos n) = true
lt_ℤ (negsuc m) (negsuc n) = ltb n m

abbrev pub in_ranges : ℤ → List RowRange → Bool
in_ranges row [] = false
in_ranges row (r ∷ rs) = (not (lt_ℤ row r.begin) && lt_ℤ row r.end) || in_ranges row rs

unfoldable pub query_contains : TurnState → ℤ → Bool
query_contains t row =
    let from_begin = is_nonneg t.query_begin && not (lt_ℤ row t.query_begin) in
    let before_end = not (lt_ℤ (pos 0) t.query_end) || lt_ℤ row t.query_end in
    if t.query_frozen
    then false
    else if not t.explicit_spans
    then from_begin && before_end
    else in_ranges row t.query

module _ {D : Type 0} where
  -- (int64_t) b.orig_pos_end() > r.begin && (int64_t) b.orig_pos_start < r.end
  abbrev pub overlaps : KvMemBlock D → RowRange → Bool
  overlaps b r = lt_ℤ r.begin (pos (orig_pos_end b)) && lt_ℤ (pos b.orig_pos_start) r.end

  abbrev pub overlaps_any : KvMemBlock D → List RowRange → Bool
  overlaps_any b [] = false
  overlaps_any b (r ∷ rs) = overlaps b r || overlaps_any b rs

  unfoldable pub overlapping : List RowRange → List (KvMemBlock D) → List ℕ
  overlapping ranges [] = []
  overlapping ranges (b ∷ bs) =
      let rest = overlapping ranges bs in if overlaps_any b ranges then b.block_id ∷ rest else rest

  abbrev pub turn_ranges : TurnState → KvMemStore D → List RowRange
  turn_ranges t s =
      let end = if lt_ℤ (pos 0) t.query_end then t.query_end else int32_of_bits s.total_tokens in
      let range : RowRange = record { begin = t.query_begin; end = end } in
      if t.explicit_spans then t.mandatory else if is_nonneg t.query_begin then range ∷ [] else []

  -- The block of the forced position, if it is in the table.
  abbrev pub forced_block : KvMemStore D → ℤ → List ℕ
  forced_block s (negsuc n) = []
  forced_block s (pos p) = elim (block_id_containing s p) [ negsuc n ↦ [] | pos id ↦ id ∷ [] ]

  unfoldable pub retrieval_mandatory : TurnState → KvMemStore D → List ℕ
  unfolding overlapping
  retrieval_mandatory t s = overlapping (turn_ranges t s) s.blocks ++ forced_block s t.force_pos

  -- The sums of the source are of 64 bits and do not wrap.
  unfoldable pub query_replay_fits : KvMemStore D → ℕ → ℕ → Bool
  query_replay_fits s query_begin prompt_end =
      let bt = max 1 s.block_tokens in
      let total_blocks = (prompt_end + bt - 1) / bt in
      let boundary_block = query_begin / bt in
      let sink = min s.sink_blocks total_blocks in
      let required =
        if ltb boundary_block sink then total_blocks else sink + (total_blocks - boundary_block) in
      leb prompt_end query_begin
      || (budget_blocks s == 0)
      || leb total_blocks boundary_block
      || leb required (budget_blocks s)
