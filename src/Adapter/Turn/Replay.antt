-- ===== src/Adapter/Turn/Replay.antt =====
-- The replay test of llama-memory-kvmem.cpp against the selector of kvmem_store.cpp.
use kvmem_test.Common.{
  ℕ, ◌+◌, ◌-◌, ◌*◌, ◌/◌, ◌≤◌, ◌<◌, ◌≡◌, refl, ap, ◌∙◌, subst, pos, negsuc, Bool, true, false, ◌||◌,
  List, [], ◌∷◌, ◌++◌, ◌==◌, ltb, leb, min, max, if◌then◌else◌, length, contains, arith, u32_mod,
  inl, inr, Bool-cases, ok,
}
use kvmem_test.Store.Types.{
  DoubleOps, KvMemBlock, KvMemStore, orig_pos_end, budget_blocks, block_count,
}
use kvmem_test.Store.Table.Layout.{
  Laid-count, Laid-some, Laid, IsLaid, Laid-start-le, Laid-n_tokens,
}
use kvmem_test.Store.Select.{pick_topk_ungrouped}
use kvmem_test.Store.Select.Ids.{contains-range}
use kvmem_test.Store.Select.Forced.{pick_topk_ungrouped-forced}
use kvmem_test.Store.Media.{pick_topk_blocks, constrain_media}
use kvmem_test.Adapter.Turn.{
  TurnState, turn_ranges, forced_block, set_query_span, overlapping, retrieval_mandatory,
  query_replay_fits,
}

quotient_before : (q bt id : ℕ) → 0 < bt → q / bt ≤ id → q < id * bt + bt
quotient_before q bt id h k = grind arith

quotient_after : (q bt id : ℕ) → 0 < bt → id < q / bt → id * bt + bt ≤ q
quotient_after q bt id h k = grind arith

quotient_mono : (q p bt : ℕ) → 0 < bt → q ≤ p → q / bt ≤ p / bt
quotient_mono q p bt h k = grind arith

quotient_below : (p n bt : ℕ) → 0 < bt → p < n * bt → p / bt < n
quotient_below p n bt h k = grind arith

count_of :
    (total n bt : ℕ) → 0 < bt → total ≤ n * bt → n * bt < total + bt → (total + bt - 1) / bt ≡ n
count_of total n bt h lo hi = grind arith

-- The block of number `id` ends behind position `q` exactly if it is not before the block of `q`.
end_behind :
    (bt id start n q total : ℕ)
    → 0 < bt
    → start ≡ id * bt
    → n ≡ min bt (total - start)
    → start + n ≤ total
    → q < total
    → ltb q (start + n) ≡ leb (q / bt) id
end_behind bt id start n q total h at size fits inside = elim (Bool-cases (leb (q / bt) id)) [
  | inl here ↦ let before = quotient_before q bt id h (ground arith) in ground arith
  | inr past ↦ let after = quotient_after q bt id h (ground arith) in ground arith
]

append_nil : (xs : List ℕ) → xs ++ [] ≡ xs
append_nil [] = refl
append_nil (x ∷ xs) = ap (λ l. x ∷ l) (append_nil xs)

found_or :
    (x id k : ℕ) (xs : List ℕ)
    → x ≡ id
    → id ≤ k
    → (id + 1 ≤ k → contains k xs ≡ true)
    → contains k (x ∷ xs) ≡ true
found_or x id k xs e lo more = elim (Bool-cases (leb (id + 1) k)) [
  | inl late ↦ let later = more (ground arith) in ground (arith, later)
  | inr here ↦ ground arith
]

-- The test of `query_replay_fits` at a number of blocks and the number of the query's first block.
abbrev passes : ℕ → ℕ → ℕ → ℕ → ℕ → ℕ → Bool
passes budget sink q total n boundary =
    leb total q
    || (budget == 0)
    || leb n boundary
    || leb (if ltb boundary (min sink n) then n else min sink n + (n - boundary)) budget

-- A test that passes, where the budget holds some block but not all of the table's, means that it
-- holds the sink and the blocks of the query.
sink_and_query :
    (budget sink n boundary q total : ℕ)
    → passes budget sink q total n boundary ≡ true
    → q < total
    → boundary < n
    → ((budget == 0) || leb n budget) ≡ false
    → (0 < budget) × (sink + (n - boundary) ≤ budget)
sink_and_query budget sink n boundary q total fits inside within many = ground arith

module _ {D : Type 0} where
  -- The blocks that overlap the rows from `q` to the end: their count, and that each is one of them.
  overlapping-Laid :
      (bt id start q total : ℕ) (bs : List (KvMemBlock D))
      → 0 < bt
      → total < u32_mod
      → q < total
      → Laid bt id start bs total
      → (length (overlapping (record { begin = pos q; end = pos total } ∷ []) bs)
          ≡ id + length bs - max id (q / bt))
        × ((k : ℕ)
            → id ≤ k
            → q / bt ≤ k
            → k < id + length bs
            → contains k (overlapping (record { begin = pos q; end = pos total } ∷ []) bs) ≡ true)
  unfolding overlapping
  overlapping-Laid bt id start q total [] h bounded inside v =
      (omega arith, λ k lo from hi. absurd (omega arith))
  overlapping-Laid bt id start q total (b ∷ bs) h bounded inside v =
      let (len, each) =
        overlapping-Laid bt (id + 1) (start + b.n_tokens) q total bs h bounded inside v.5 in
      let end = Laid-start-le bt (id + 1) (start + b.n_tokens) bs total v.5 in
      let size = Laid-n_tokens bt id start b bs total v in
      let behind = end_behind bt id start b.n_tokens q total h v.2 size end inside in
      let end_at : orig_pos_end b ≡ start + b.n_tokens = omega arith in
      let before : ltb b.orig_pos_start total ≡ true = ground arith in
      elim (Bool-cases (leb (q / bt) id)) [
        | inl here ↦
            let test : ltb q (orig_pos_end b) ≡ true = ap (ltb q) end_at ∙ behind ∙ here in
            (
              rw (test, before) (ground arith),
              λ k lo from hi.
                  rw (test, before)
                    (found_or b.block_id id k
                      (overlapping (record { begin = pos q; end = pos total } ∷ []) bs) v.0 lo
                      (λ more. each k more from (omega arith))),
            )
        | inr past ↦
            let test : ltb q (orig_pos_end b) ≡ false = ap (ltb q) end_at ∙ behind ∙ past in
            (
              rw test (ground arith),
              λ k lo from hi. rw test (each k (ground arith) from (omega arith)),
            )
      ]

  -- The blocks that a retrieval must take for a query from `q` to the end of the table.
  mandatory_of :
      (t : TurnState) (s : KvMemStore D) (q f : ℕ)
      → t.force_pos ≡ negsuc f
      → q < s.total_tokens
      → retrieval_mandatory (set_query_span t (pos q) (pos s.total_tokens)) s
        ≡ overlapping (record { begin = pos q; end = pos s.total_tokens } ∷ []) s.blocks
  unfolding retrieval_mandatory set_query_span
  mandatory_of t s q f unforced inside =
      let t' = set_query_span t (pos q) (pos s.total_tokens) in
      let some_rows : ltb 0 s.total_tokens ≡ true = ground arith in
      ap (λ x. overlapping (turn_ranges t' s) s.blocks ++ forced_block s x) unforced
      ∙ rw some_rows (
          append_nil
            (overlapping (record { begin = pos q; end = pos s.total_tokens } ∷ []) s.blocks))

module _ {D : Type 0} (o : DoubleOps D) where
  -- Without media the selector with the media is the plain one.
  pick_topk_blocks_plain :
      (s : KvMemStore D) (mandatory : List ℕ)
      → s.media_ranges ≡ []
      → pick_topk_blocks o s mandatory ≡ ok (pick_topk_ungrouped o s mandatory)
  unfolding pick_topk_blocks constrain_media
  pick_topk_blocks_plain s mandatory plain =
      let none_of : (length s.media_ranges == 0) ≡ true = ap (λ l. length l == 0) plain in
      rw none_of refl

  all_selected :
      (s : KvMemStore D) (mandatory : List ℕ) (j : ℕ)
      → ((budget_blocks s == 0) || leb (block_count s) (budget_blocks s)) ≡ true
      → j < block_count s
      → contains j (pick_topk_ungrouped o s mandatory) ≡ true
  unfolding pick_topk_ungrouped
  all_selected s mandatory j few h = rw few (ground (arith, contains-range j 0 (block_count s)))

  -- On a laid table without media, with a query from position `q` to the end of the table and no
  -- forced position, if the replay test passes then the selector, given the blocks that the query
  -- needs, returns, and selects the block of every position of the query.
  pub query_replay_fits-selected :
      (t : TurnState) (s : KvMemStore D) (q f p : ℕ)
      → IsLaid s
      → s.media_ranges ≡ []
      → t.force_pos ≡ negsuc f
      → query_replay_fits s q s.total_tokens ≡ true
      → q ≤ p
      → p < s.total_tokens
      → (ids : List ℕ) × (pick_topk_blocks o s
            (retrieval_mandatory (set_query_span t (pos q) (pos s.total_tokens)) s)
          ≡ ok ids)
        × (contains (p / s.block_tokens) ids ≡ true)
  unfolding query_replay_fits
  query_replay_fits-selected t s q f p v plain unforced fits from inside =
      let bt = s.block_tokens in
      let n = block_count s in
      let total = s.total_tokens in
      let positive = v.positive in
      let (lo, hi) =
        Laid-count bt 0 0 s.blocks total v.laid
          (Laid-some bt 0 0 s.blocks total v.laid (omega arith)) in
      let count : (total + bt - 1) / bt ≡ n =
        count_of total n bt positive (omega arith) (omega arith) in
      let block_in : p / bt < n = quotient_below p n bt positive (omega arith) in
      let boundary_le = quotient_mono q p bt positive from in
      let needed = overlapping (record { begin = pos q; end = pos total } ∷ []) s.blocks in
      let (len, each) =
        overlapping-Laid bt 0 0 q total s.blocks positive v.bounded (omega arith) v.laid in
      let needed_eq = mandatory_of t s q f unforced (omega arith) in
      let size : max 1 bt ≡ bt = omega arith in
      let fits' =
        subst
          (λ x. passes (budget_blocks s) s.sink_blocks q total ((total + x - 1) / x) (q / x) ≡ true)
          size fits in
      let fits'' =
        subst (λ x. passes (budget_blocks s) s.sink_blocks q total x (q / bt) ≡ true) count fits' in
      (
        pick_topk_ungrouped o s needed,
        ap (λ l. pick_topk_blocks o s l) needed_eq ∙ pick_topk_blocks_plain s needed plain,
        elim (Bool-cases ((budget_blocks s == 0) || leb n (budget_blocks s))) [
          | inl few ↦ all_selected s needed (p / bt) few block_in
          | inr many ↦
              let (some_budget, holds) =
                sink_and_query (budget_blocks s) s.sink_blocks n (q / bt) q total fits''
                  (omega arith) (omega arith) many in
              pick_topk_ungrouped-forced o s needed (p / bt) some_budget block_in
                (inr (inl (omega arith, each (p / bt) (omega arith) boundary_le (omega arith))))
        ],
      )
