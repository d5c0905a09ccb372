-- ===== src/Store/Table/Truncate.antt =====
-- `truncate_to` of kvmem_store.cpp: it leaves exactly the tokens below the position, keeps the
-- layout, and drops the blocks past it from the back.
use kvmem_test.Common.{
  ℕ, zero, suc, ◌+◌, ◌-◌, ◌≤◌, ◌<◌, ◌≡◌, refl, List, [], ◌∷◌, ◌++◌, length, min, arith, ap, u32_mod,
  sub32, ltb, leb, Bool-cases, ltb_false→le, inl, inr, length-append, map, ltb→lt, ◌∙◌, leb→le,
  leb_false→lt,
}
use mathlib.Core.List.{map-append}
use kvmem_test.Store.Types.{KvMemBlock, KvMemDroppedBlock, KvMemStore, block_count, orig_pos_end}
use kvmem_test.Store.Table.{pop_past, pop_back, shrink_last, truncate_to, dropped_block}
use kvmem_test.Store.Table.Layout.{Laid, IsLaid}

-- lo + n - 1, ..., lo.
abbrev pub descending : ℕ → ℕ → List ℕ
descending lo zero = []
descending lo (suc n) = descending (lo + 1) n ++ lo ∷ []

module _ {D : Type 0} where
  -- The last block starts before the position.
  abbrev LastBefore : ℕ → List (KvMemBlock D) → Type 0
  LastBefore p [] = Unit {0}
  LastBefore p (b ∷ []) = b.orig_pos_start < p
  LastBefore p (b ∷ c ∷ bs) = LastBefore p (c ∷ bs)

  LastBefore-start :
      (p bt id start : ℕ) (b : KvMemBlock D) (bs : List (KvMemBlock D)) (total : ℕ)
      → Laid bt id start (b ∷ bs) total
      → LastBefore p (b ∷ bs)
      → start < p
  LastBefore-start p bt id start b [] total h k = omega arith
  LastBefore-start p bt id start b (c ∷ bs) total h k =
      omega (arith, LastBefore-start p bt (id + 1) (start + b.n_tokens) c bs total h.5 k)

  abbrev Popped :
      ℕ
      → ℕ
      → ℕ
      → ℕ
      → ℕ
      → List (KvMemBlock D)
      → List (KvMemBlock D) × List KvMemDroppedBlock × ℕ
      → Type 0
  Popped p bt id start total bs (kept, dropped, total') =
      Laid bt id start kept total'
      × (total' ≤ total)
      × (p ≤ total → p ≤ total')
      × LastBefore p kept
      × (map (λ d. d.block_id) dropped ≡ descending (id + length kept) (length dropped))
      × (length kept + length dropped ≡ length bs)

  dropped_snoc :
      (id i : ℕ) (b : KvMemBlock D) (dropped : List KvMemDroppedBlock)
      → b.block_id ≡ id
      → i ≡ id + 1
      → map (λ d. d.block_id) dropped ≡ descending i (length dropped)
      → map (λ d. d.block_id) (dropped ++ dropped_block b ∷ [])
        ≡ descending id (length (dropped ++ dropped_block b ∷ []))
  dropped_snoc id i b dropped e step ids =
      let len : length (dropped ++ dropped_block b ∷ []) ≡ suc (length dropped) =
        omega (arith, length-append dropped (dropped_block b ∷ [])) in
      rw len (
        map-append (λ (d : KvMemDroppedBlock). d.block_id) dropped (dropped_block b ∷ [])
        ∙ rw (ids, step, e) refl)

  pop_back-Popped :
      (p bt id start total : ℕ) (b : KvMemBlock D) (bs : List (KvMemBlock D))
      (r : List (KvMemBlock D) × List KvMemDroppedBlock × ℕ)
      → total < u32_mod
      → Laid bt id start (b ∷ bs) total
      → Popped p bt (id + 1) (start + b.n_tokens) total bs r
      → Popped p bt id start total (b ∷ bs) (pop_back p b r)
  unfolding pop_back
  pop_back-Popped p bt id start total b bs ([], dropped, total') t h
        (laid, le, ge, last, ids, len) =
      let e : sub32 total' b.n_tokens ≡ start = omega arith in
      elim (Bool-cases (leb p b.orig_pos_start)) [
        | inl past ↦
            let below : p ≤ start = omega (arith, leb→le _ _ past) in
            rw (past, e)
              (
                refl,
                omega arith,
                λ _. below,
                tt,
                dropped_snoc (id + 0) _ b dropped (omega arith) (omega arith) ids,
                omega (arith, length-append dropped (dropped_block b ∷ [])),
              )
        | inr before ↦ rw before (
          (h.0, h.1, h.2, h.3, h.4, laid),
          le,
          ge,
          omega (arith, ltb→lt, leb_false→lt _ _ before),
          ids ∙ ap (λ i. descending i (length dropped)) (omega arith),
          omega arith,
        )
      ]
  pop_back-Popped p bt id start total b bs (k ∷ ks, dropped, total') t h
        (laid, le, ge, last, ids, len) =
      (
        (h.0, h.1, h.2, h.3, h.4, laid),
        le,
        ge,
        last,
        ids ∙ ap (λ i. descending i (length dropped)) (omega arith),
        omega arith,
      )

  pop_past-Popped :
      (p bt id start total : ℕ) (bs : List (KvMemBlock D))
      → total < u32_mod
      → Laid bt id start bs total
      → Popped p bt id start total bs (pop_past p total bs)
  unfolding pop_past
  pop_past-Popped p bt id start total [] t h = (h, omega arith, λ x. x, tt, refl, refl)
  pop_past-Popped p bt id start total (b ∷ bs) t h =
      pop_back-Popped p bt id start total b bs (pop_past p total bs) t h
        (pop_past-Popped p bt (id + 1) (start + b.n_tokens) total bs t h.5)

  shrink_last-Laid :
      (p bt id start total : ℕ) (bs : List (KvMemBlock D))
      → total < u32_mod
      → start ≤ p
      → p ≤ total
      → Laid bt id start bs total
      → LastBefore p bs
      → Laid bt id start (shrink_last p total bs).0 p
        × ((shrink_last p total bs).1 ≡ p)
        × (length (shrink_last p total bs).0 ≡ length bs)
  unfolding shrink_last
  shrink_last-Laid p bt id start total [] t lo hi h last = (omega arith, omega arith, refl)
  shrink_last-Laid p bt id start total (b ∷ []) t lo hi h last =
      let end : orig_pos_end b ≡ total = omega arith in
      let keep : sub32 p b.orig_pos_start ≡ p - start = omega arith in
      elim (Bool-cases (ltb p (orig_pos_end b))) [
        | inl past ↦
            rw (past, keep)
              ((h.0, h.1, h.2, omega arith, omega arith, omega arith), omega arith, refl)
        | inr within ↦
            let q : total ≡ p = omega (arith, ltb_false→le _ _ within) in
            rw (within, ← q) (h, refl, refl)
      ]
  shrink_last-Laid p bt id start total (b ∷ c ∷ bs) t lo hi h last =
      let next : start + b.n_tokens < p =
        LastBefore-start p bt (id + 1) (start + b.n_tokens) c bs total h.5 last in
      let (laid, e, len) =
        shrink_last-Laid p bt (id + 1) (start + b.n_tokens) total (c ∷ bs) t (omega arith) hi h.5
          last in
      ((h.0, h.1, h.2, h.3, h.4, laid), e, ap suc len)

  -- On a laid table, `truncate_to` keeps the layout and leaves exactly the tokens below the
  -- position; what it drops are the blocks past those that stay, the last one first.
  pub truncate_to-IsLaid :
      (s : KvMemStore D) (p : ℕ)
      → IsLaid s
      → IsLaid (truncate_to s p).0
        × ((truncate_to s p).0.total_tokens ≡ min s.total_tokens p)
        × (map (λ d. d.block_id) (truncate_to s p).1
            ≡ descending (block_count (truncate_to s p).0) (length (truncate_to s p).1))
        × (block_count (truncate_to s p).0 + length (truncate_to s p).1 ≡ block_count s)
  unfolding truncate_to
  truncate_to-IsLaid s p v = elim (Bool-cases (leb s.total_tokens p)) [
    | inl all ↦ rw all (v, omega (arith, leb→le _ _ all), refl, omega arith)
    | inr some_past ↦
        let (kept, dropped, total) = pop_past p s.total_tokens s.blocks in
        let (laid, le, ge, last, ids, len) =
          pop_past-Popped p s.block_tokens 0 0 s.total_tokens s.blocks v.bounded v.laid in
        let inside : p < s.total_tokens = leb_false→lt _ _ some_past in
        let (laid', e, len') =
          shrink_last-Laid p s.block_tokens 0 0 total kept (omega arith) (omega arith)
            (ge (omega arith)) laid last in
        rw some_past (
          record { positive = v.positive; bounded = omega arith; laid = rw e laid' },
          omega arith,
          ids ∙ ap (λ i. descending i (length dropped)) (omega arith),
          omega arith,
        )
  ]

  pub truncate_to-cfg : (s : KvMemStore D) (p : ℕ) → (truncate_to s p).0.cfg ≡ s.cfg
  unfolding truncate_to
  truncate_to-cfg s p = ground arith
