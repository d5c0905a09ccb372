-- ===== src/Store/Media/Fits.antt =====
-- The selection constrained by media stays within the budget and holds what is required.
use kvmem_test.Common.{
  ℕ, ◌≤◌, ◌<◌, ◌≡◌, Bool, true, false, ◌||◌, List, ltb, leb, ◌==◌, min, length, range, arith,
  contains, Bool-cases, inl, inr, ok, returned, subst,
}
use kvmem_test.Store.Types.{
  DoubleOps, KvMemStore, block_count, budget_blocks, prefill_budget_blocks,
}
use kvmem_test.Store.Select.{
  Kept, none_kept, kept_ids, pick_topk_ungrouped, pick_prefill_ungrouped, sort, candidates,
}
use kvmem_test.Store.Select.Flags.{is_kept}
use kvmem_test.Store.Select.Ids.{
  IsSelection, kept_ids-IsSelection, length-kept_ids, contains-kept_ids, contains-range,
}
use kvmem_test.Store.Select.TopK.{pick_topk_ungrouped-fills}
use kvmem_test.Store.Select.Prefill.{pick_prefill_ungrouped-fills}
use kvmem_test.Store.Media.{
  keep_group, keep_groups, keep_latest, media_groups, preferred, media_kept, constrain_media,
  pick_topk_blocks, pick_prefill_pressure_blocks,
}
use kvmem_test.Store.Media.Keep.{
  Within, keep_group-Within, keep_groups-keeps, keep_latest-keeps, is_kept-grows, keep_required,
  none_kept-Within,
}

constrained :
    (empty : Bool) (n budget : ℕ)
    → empty ≡ false
    → 0 < budget
    → budget < n
    → (empty || leb n budget || (budget == 0)) ≡ false
constrained empty n budget e positive more = ground arith

module _ {D : Type 0} (o : DoubleOps D) where
  -- The table of flags after each loop of a run that returns.
  record Stages (s : KvMemStore D) (selected mandatory : List ℕ) (budget : ℕ) (recency : Bool)
      (k : Kept) : Type 0 where
    after_sink : Kept
    after_mandatory : Kept
    after_latest : Kept
    after_selected : Kept
    sink :
        keep_groups
          (media_groups s)
          budget
          true
          (range 0 (min (block_count s) s.sink_blocks))
          (none_kept (block_count s))
        ≡ ok after_sink
    required : keep_groups (media_groups s) budget true mandatory after_sink ≡ ok after_mandatory
    latest : keep_latest (media_groups s) budget after_mandatory ≡ ok after_latest
    chosen :
        keep_groups
          (media_groups s)
          budget
          false
          (sort (preferred o recency s) selected)
          after_latest
        ≡ ok after_selected
    rest :
        keep_groups
          (media_groups s)
          budget
          false
          (sort (preferred o recency s) (candidates after_selected))
          after_selected
        ≡ ok k

  media_kept-Stages :
      (s : KvMemStore D) (selected mandatory : List ℕ) (budget : ℕ) (recency : Bool) (k : Kept)
      → media_kept o s selected mandatory budget recency ≡ ok k
      → Stages s selected mandatory budget recency k
  unfolding media_kept
  media_kept-Stages s selected mandatory budget recency k h =
      let groups = media_groups s in
      let (k₁, e₁, h₁) =
        returned
          (keep_groups groups budget true (range 0 (min (block_count s) s.sink_blocks))
            (none_kept (block_count s)))
          _ h in
      let (k₂, e₂, h₂) = returned (keep_groups groups budget true mandatory k₁) _ h₁ in
      let (k₃, e₃, h₃) = returned (keep_latest groups budget k₂) _ h₂ in
      let (k₄, e₄, h₄) =
        returned (keep_groups groups budget false (sort (preferred o recency s) selected) k₃) _
          h₃ in
      record {
        after_sink = k₁;
        after_mandatory = k₂;
        after_latest = k₃;
        after_selected = k₄;
        sink = e₁;
        required = e₂;
        latest = e₃;
        chosen = e₄;
        rest = h₄;
      }

  -- What every call of `keep` preserves is preserved by what follows the sink and mandatory blocks.
  keeps_after :
      (P : Kept → Type 0) (s : KvMemStore D) (selected mandatory : List ℕ) (budget : ℕ)
      (recency : Bool) (k : Kept)
      → (t : Stages s selected mandatory budget recency k)
      → ((required : Bool) (id : ℕ) (k k' : Kept)
          → P k
          → keep_group (media_groups s) budget required id k ≡ ok k'
          → P k')
      → P t.after_mandatory
      → P k
  keeps_after P s selected mandatory budget recency k t step start =
      let groups = media_groups s in
      keep_groups-keeps P groups budget false (step false)
        (sort (preferred o recency s) (candidates t.after_selected)) t.after_selected k
        (keep_groups-keeps P groups budget false (step false)
          (sort (preferred o recency s) selected) t.after_latest t.after_selected
          (keep_latest-keeps P groups budget (step true) t.after_mandatory t.after_latest start
            t.latest)
          t.chosen)
        t.rest

  -- What every call of `keep` preserves holds of the result.
  pub media_kept-keeps :
      (P : Kept → Type 0) (s : KvMemStore D) (selected mandatory : List ℕ) (budget : ℕ)
      (recency : Bool) (k : Kept)
      → ((required : Bool) (id : ℕ) (k k' : Kept)
          → P k
          → keep_group (media_groups s) budget required id k ≡ ok k'
          → P k')
      → P (none_kept (block_count s))
      → media_kept o s selected mandatory budget recency ≡ ok k
      → P k
  media_kept-keeps P s selected mandatory budget recency k step start h =
      let t = media_kept-Stages s selected mandatory budget recency k h in
      let groups = media_groups s in
      keeps_after P s selected mandatory budget recency k t step (
        keep_groups-keeps P groups budget true (step true) mandatory t.after_sink t.after_mandatory
          (keep_groups-keeps P groups budget true (step true)
            (range 0 (min (block_count s) s.sink_blocks)) (none_kept (block_count s)) t.after_sink
            start t.sink)
          t.required)

  media_kept-Within :
      (s : KvMemStore D) (selected mandatory : List ℕ) (budget : ℕ) (recency : Bool) (k : Kept)
      → media_kept o s selected mandatory budget recency ≡ ok k
      → Within (block_count s) budget k
  media_kept-Within s selected mandatory budget recency k =
      media_kept-keeps (Within (block_count s) budget) s selected mandatory budget recency k
        (keep_group-Within (media_groups s) (block_count s) budget)
        (none_kept-Within (block_count s) budget)

  media_kept-required :
      (s : KvMemStore D) (selected mandatory : List ℕ) (budget : ℕ) (recency : Bool) (k : Kept)
      (j : ℕ)
      → j < block_count s
      → (ltb j s.sink_blocks || contains j mandatory) ≡ true
      → media_kept o s selected mandatory budget recency ≡ ok k
      → is_kept k j ≡ true
  media_kept-required s selected mandatory budget recency k j inside wanted h =
      let t = media_kept-Stages s selected mandatory budget recency k h in
      let groups = media_groups s in
      let n = block_count s in
      let v =
        keep_groups-keeps (Within n budget) groups budget true
          (keep_group-Within groups n budget true) (range 0 (min n s.sink_blocks)) (none_kept n)
          t.after_sink (none_kept-Within n budget) t.sink in
      keeps_after (λ x. is_kept x j ≡ true) s selected mandatory budget recency k t
        (λ required. is_kept-grows groups budget required j)
        (elim (Bool-cases (contains j mandatory)) [
          | inl named ↦
              keep_required groups n budget mandatory j t.after_sink t.after_mandatory v inside
                named t.required
          | inr not_named ↦
              keep_groups-keeps (λ x. is_kept x j ≡ true) groups budget true
                (is_kept-grows groups budget true j) mandatory t.after_sink t.after_mandatory
                (keep_required groups n budget (range 0 (min n s.sink_blocks)) j (none_kept n)
                  t.after_sink (none_kept-Within n budget) inside
                  (let front = contains-range j 0 (min n s.sink_blocks) in ground (arith, front))
                  t.sink)
                t.required
        ])

  constrain_media-fits :
      (s : KvMemStore D) (selected mandatory ids : List ℕ) (budget : ℕ) (recency : Bool)
      → IsSelection (block_count s) selected × (length selected ≤ budget)
      → constrain_media o s selected mandatory budget recency ≡ ok ids
      → IsSelection (block_count s) ids × (length ids ≤ budget)
  unfolding constrain_media
  constrain_media-fits s selected mandatory ids budget recency v h =
      elim (Bool-cases
        ((length s.media_ranges == 0) || leb (block_count s) budget || (budget == 0))) [
          | inl as_it_is ↦
              let same : selected ≡ ids = (let h' = rw as_it_is at h in cc) in
              subst (λ xs. IsSelection (block_count s) xs × (length xs ≤ budget)) same v
          | inr changed ↦
              let (k, kept, h₁) =
                returned (media_kept o s selected mandatory budget recency) _ (rw changed at h) in
              let w = media_kept-Within s selected mandatory budget recency k kept in
              let same : kept_ids k ≡ ids = cc in
              subst (λ xs. IsSelection (block_count s) xs × (length xs ≤ budget)) same
                (
                  kept_ids-IsSelection (block_count s) k w.counted,
                  omega (arith, length-kept_ids (block_count s) k w.counted, w.within),
                )
        ]

  -- With a positive budget, the selection that `pick_topk_blocks` returns is ascending block numbers
  -- in range, at most as many as the budget.
  pub pick_topk_blocks-fits :
      (s : KvMemStore D) (mandatory ids : List ℕ)
      → 0 < budget_blocks s
      → pick_topk_blocks o s mandatory ≡ ok ids
      → IsSelection (block_count s) ids × (length ids ≤ budget_blocks s)
  unfolding pick_topk_blocks
  pick_topk_blocks-fits s mandatory ids positive =
      let (v, n) = pick_topk_ungrouped-fills o s mandatory positive in
      constrain_media-fits s (pick_topk_ungrouped o s mandatory) mandatory ids (budget_blocks s)
        false (v, omega (arith, n))

  -- With a positive prefill budget, the selection that `pick_prefill_pressure_blocks` returns is
  -- ascending block numbers in range, at most as many as the budget.
  pub pick_prefill_pressure_blocks-fits :
      (s : KvMemStore D) (mandatory ids : List ℕ)
      → 0 < prefill_budget_blocks s
      → pick_prefill_pressure_blocks o s mandatory ≡ ok ids
      → IsSelection (block_count s) ids × (length ids ≤ prefill_budget_blocks s)
  unfolding pick_prefill_pressure_blocks
  pick_prefill_pressure_blocks-fits s mandatory ids positive =
      let (v, n) = pick_prefill_ungrouped-fills o s mandatory positive in
      constrain_media-fits s (pick_prefill_ungrouped o s mandatory) mandatory ids
        (prefill_budget_blocks s) true (v, omega (arith, n))

  -- If there are media and more blocks than a positive budget holds, a selection that
  -- `pick_topk_blocks` returns has every sink block and every mandatory block of the table.
  pub pick_topk_blocks-required :
      (s : KvMemStore D) (mandatory ids : List ℕ) (j : ℕ)
      → (length s.media_ranges == 0) ≡ false
      → 0 < budget_blocks s
      → budget_blocks s < block_count s
      → j < block_count s
      → (ltb j s.sink_blocks || contains j mandatory) ≡ true
      → pick_topk_blocks o s mandatory ≡ ok ids
      → contains j ids ≡ true
  unfolding pick_topk_blocks constrain_media
  pick_topk_blocks-required s mandatory ids j media positive more inside wanted h =
      let selected = pick_topk_ungrouped o s mandatory in
      let changed : ((length s.media_ranges == 0)
            || leb (block_count s) (budget_blocks s)
            || (budget_blocks s == 0))
          ≡ false =
        constrained _ (block_count s) (budget_blocks s) media positive more in
      let (k, kept, h₁) =
        returned (media_kept o s selected mandatory (budget_blocks s) false) _ (rw changed at h) in
      let same : kept_ids k ≡ ids = cc in
      rw (← same, contains-kept_ids j k)
        (media_kept-required s selected mandatory (budget_blocks s) false k j inside wanted kept)
