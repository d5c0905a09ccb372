-- ===== src/Store/Select/Prefill.antt =====
-- `pick_prefill_ungrouped`: the pressure selection fills its budget with the sink, the mandatory
-- blocks and the newest tail.
use kvmem_test.Common.{
  ℕ, zero, suc, ◌+◌, ◌≤◌, ◌<◌, ◌≡◌, refl, ap, Bool, true, false, ◌||◌, List, [], ◌∷◌, ◌++◌, min,
  leb, ◌==◌, length, get_or, range, arith, Bool-cases, inl, inr, Ascending, length-range, leb→le,
  leb_false→lt,
}
use kvmem_test.Store.Types.{DoubleOps, KvMemStore, block_count, prefill_budget_blocks}
use kvmem_test.Store.Select.{
  Kept, none_kept, keep_front, keep_back, prefill_kept, pick_prefill_ungrouped,
}
use kvmem_test.Store.Select.Flags.{
  is_kept, count_true, Counted, none_kept-Counted, contains-append, is_kept-keep,
}
use kvmem_test.Common.{contains}
use kvmem_test.Store.Select.Loops.{keep_front-Keeps, keep_back-Keeps}
use kvmem_test.Store.Select.Ids.{
  IsSelection, kept_ids-IsSelection, length-kept_ids, contains-kept_ids, contains-range,
  contains_below, range-IsSelection, range-Ascending,
}
use kvmem_test.Store.Select.TopK.{pressure_ids, prefill_kept-Keeps}

-- Where every flag is set, all are counted.
count_true_all :
    (fs : List Bool)
    → ((j : ℕ) → j < length fs → get_or fs j false ≡ true)
    → count_true fs ≡ length fs
count_true_all [] h = refl
count_true_all (true ∷ fs) h = ap suc (count_true_all fs (λ j l. h (suc j) (omega arith)))
count_true_all (false ∷ fs) h = cc (h 0 (omega arith))

-- The loop from the back prefers the later numbers.
keep_back-later :
    (budget n lo i j : ℕ) (ids : List ℕ) (k : Kept)
    → Counted n k
    → Ascending lo ids
    → i < j
    → j < n
    → contains i ids ≡ true
    → contains j ids ≡ true
    → is_kept k i ≡ false
    → is_kept (keep_back budget ids k) i ≡ true
    → is_kept (keep_back budget ids k) j ≡ true
unfolding keep_back
keep_back-later budget n lo i j [] k v a l h ci cj new old = cc
keep_back-later budget n lo i j (x ∷ ids) k v a l h ci cj new old =
    let p = keep_back-Keeps budget n ids k v in
    let k₁ = keep_back budget ids k in
    let below = contains_below i (x + 1) ids in
    elim (Bool-cases (x == i)) [
      | inl here ↦
          let cj' : contains j ids ≡ true = ground arith in
          let gone : contains i ids ≡ false = below (ground arith) a.1 in
          ground (arith, gone, p.full j h cj', p.origin i, is_kept-keep x j k₁)
      | inr there ↦
          let ci' : contains i ids ≡ true = ground arith in
          let cj' : contains j ids ≡ true = ground (arith, below) in
          let old' : is_kept k₁ i ≡ true = ground (arith, is_kept-keep x i k₁) in
          let later = keep_back-later budget n (x + 1) i j ids k v a.1 l h ci' cj' new old' in
          ground (arith, later, is_kept-keep x j k₁)
    ]

none_kept-clear : (n j : ℕ) → is_kept (none_kept n) j ≡ false
unfolding none_kept
none_kept-clear zero j = refl
none_kept-clear (suc n) zero = refl
none_kept-clear (suc n) (suc j) = none_kept-clear n j

module _ {D : Type 0} (o : DoubleOps D) where
  contains-pressure_ids :
      (s : KvMemStore D) (mandatory : List ℕ) (j : ℕ)
      → j < block_count s
      → contains j (pressure_ids s mandatory) ≡ true
  contains-pressure_ids s mandatory j h =
      let n = block_count s in
      let sink = range 0 (min s.sink_blocks (min (prefill_budget_blocks s) n)) in
      ground (
        arith,
        contains-append j sink (mandatory ++ range 0 n),
        contains-append j mandatory (range 0 n),
        contains-range j 0 n,
      )

  pub prefill_kept-count :
      (s : KvMemStore D) (mandatory : List ℕ)
      → prefill_budget_blocks s < block_count s
      → Counted (block_count s) (prefill_kept o s mandatory)
        × ((prefill_kept o s mandatory).count ≡ prefill_budget_blocks s)
  prefill_kept-count s mandatory h =
      let p = prefill_kept-Keeps o s mandatory in
      let n = block_count s in
      let budget = prefill_budget_blocks s in
      let k = prefill_kept o s mandatory in
      let le : k.count ≤ budget = p.bounded (unfold none_kept in omega arith) in
      elim (Bool-cases (leb budget k.count)) [
        | inl ge ↦ (p.counted, omega (arith, leb→le _ _ ge))
        | inr lt ↦
            let short : k.count < budget = leb_false→lt _ _ lt in
            let kept : (j : ℕ) → j < n → is_kept k j ≡ true = λ j l.
              elim (Bool-cases (is_kept k j)) [
                | inl e ↦ e
                | inr e ↦
                    absurd (omega (arith, p.full j l (contains-pressure_ids s mandatory j l) e))
              ] in
            absurd (
              omega (
                arith,
                count_true_all k.flags (λ j l. kept j (omega arith)),
                p.counted.size,
                p.counted.counted,
              ))
      ]

  -- With a positive prefill budget, the pressure selection is ascending block numbers in range, and
  -- exactly as many as the budget, or all blocks if they are fewer.
  pub pick_prefill_ungrouped-fills :
      (s : KvMemStore D) (mandatory : List ℕ)
      → 0 < prefill_budget_blocks s
      → IsSelection (block_count s) (pick_prefill_ungrouped o s mandatory)
        × (length (pick_prefill_ungrouped o s mandatory)
            ≡ min (block_count s) (prefill_budget_blocks s))
  unfolding pick_prefill_ungrouped
  pick_prefill_ungrouped-fills s mandatory h =
      let n = block_count s in
      elim (Bool-cases ((prefill_budget_blocks s == 0) || leb n (prefill_budget_blocks s))) [
        | inl few ↦ rw few (range-IsSelection n, ground (arith, length-range 0 n))
        | inr many ↦
            let less : prefill_budget_blocks s < n = ground arith in
            let (v, c) = prefill_kept-count s mandatory less in
            rw many (
              kept_ids-IsSelection n _ v,
              omega (arith, length-kept_ids n (prefill_kept o s mandatory) v),
            )
      ]

  prefill_kept-newest :
      (s : KvMemStore D) (mandatory : List ℕ) (i j : ℕ)
      → s.sink_blocks ≤ i
      → contains i mandatory ≡ false
      → i < j
      → j < block_count s
      → is_kept (prefill_kept o s mandatory) i ≡ true
      → is_kept (prefill_kept o s mandatory) j ≡ true
  unfolding prefill_kept
  prefill_kept-newest s mandatory i j sunk free l h old =
      let n = block_count s in
      let budget = prefill_budget_blocks s in
      let sink = min s.sink_blocks (min budget n) in
      let p = keep_front-Keeps budget n (range 0 sink) (none_kept n) (none_kept-Counted n) in
      let k₁ = keep_front budget (range 0 sink) (none_kept n) in
      let q = keep_back-Keeps budget n mandatory k₁ p.counted in
      let k₂ = keep_back budget mandatory k₁ in
      let new : is_kept k₂ i ≡ false = elim (Bool-cases (is_kept k₂ i)) [
        | inl e ↦
            ground (arith, q.origin i e, p.origin i, none_kept-clear n i, contains-range i 0 sink)
        | inr e ↦ e
      ] in
      keep_back-later budget n 0 i j (range 0 n) k₂ q.counted (range-Ascending 0 n) l h
        (ground (arith, contains-range i 0 n)) (ground (arith, contains-range j 0 n)) new old

  -- The pressure selection is the newest tail beyond the sink and the mandatory blocks: if it has a
  -- block that is in neither, it has every newer block.
  pub pick_prefill_ungrouped-newest :
      (s : KvMemStore D) (mandatory : List ℕ) (i j : ℕ)
      → s.sink_blocks ≤ i
      → contains i mandatory ≡ false
      → i < j
      → j < block_count s
      → contains i (pick_prefill_ungrouped o s mandatory) ≡ true
      → contains j (pick_prefill_ungrouped o s mandatory) ≡ true
  unfolding pick_prefill_ungrouped
  pick_prefill_ungrouped-newest s mandatory i j sunk free l h old =
      let n = block_count s in
      let k = prefill_kept o s mandatory in
      elim (Bool-cases ((prefill_budget_blocks s == 0) || leb n (prefill_budget_blocks s))) [
        | inl few ↦ rw few (ground (arith, contains-range j 0 n))
        | inr many ↦
            let old' : is_kept k i ≡ true = ground (arith, contains-kept_ids i k) in
            rw (many, contains-kept_ids j k)
              (prefill_kept-newest s mandatory i j sunk free l h old')
      ]
