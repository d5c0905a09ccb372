-- ===== src/Store/Table/Layout.antt =====
-- The layout of the block table: block `i` starts at token `i * block_tokens`, every block but the
-- last is full, and the table is a function of the token count alone.
use kvmem_test.Common.{
  ℕ, ◌+◌, ◌-◌, ◌*◌, ◌≤◌, ◌<◌, ◌≡◌, refl, List, [], ◌∷◌, ◌++◌, length, map, min, arith, u32_mod,
}
use kvmem_test.Store.Types.{KvMemBlock, KvMemStore}

module _ {D : Type 0} where
  -- `bs` are the blocks from number `id` and token `start` on, up to token `total`.
  abbrev pub Laid : ℕ → ℕ → ℕ → List (KvMemBlock D) → ℕ → Type 0
  Laid bt id start [] total = start ≡ total
  Laid bt id start (b ∷ bs) total =
      (b.block_id ≡ id)
      × (b.orig_pos_start ≡ start)
      × (start ≡ id * bt)
      × (0 < b.n_tokens)
      × (b.n_tokens ≤ bt)
      × Laid bt (id + 1) (start + b.n_tokens) bs total

  -- The well-formedness invariant of the block table.
  pub record IsLaid (s : KvMemStore D) : Type 0 where
    pub positive : 0 < s.block_tokens
    pub bounded : s.total_tokens < u32_mod
    pub laid : Laid s.block_tokens 0 0 s.blocks s.total_tokens

  -- What a block covers: its number, its first token and its token count.
  abbrev pub geometry : List (KvMemBlock D) → List (ℕ × ℕ × ℕ)
  geometry = map (λ b. (b.block_id, b.orig_pos_start, b.n_tokens))

  pub Laid-start-le :
      (bt id start : ℕ) (bs : List (KvMemBlock D)) (total : ℕ)
      → Laid bt id start bs total
      → start ≤ total
  Laid-start-le bt id start [] total h = omega arith
  Laid-start-le bt id start (b ∷ bs) total h =
      omega (arith, Laid-start-le bt (id + 1) (start + b.n_tokens) bs total h.5)

  -- The first block takes what there is, up to a full block.
  pub Laid-n_tokens :
      (bt id start : ℕ) (b : KvMemBlock D) (bs : List (KvMemBlock D)) (total : ℕ)
      → Laid bt id start (b ∷ bs) total
      → b.n_tokens ≡ min bt (total - start)
  Laid-n_tokens bt id start b [] total h = omega arith
  Laid-n_tokens bt id start b (c ∷ bs) total h =
      omega (arith, Laid-start-le bt (id + 1) (start + b.n_tokens) (c ∷ bs) total h.5)

  pub Laid-geometry :
      (bt id start : ℕ) (bs cs : List (KvMemBlock D)) (total : ℕ)
      → Laid bt id start bs total
      → Laid bt id start cs total
      → geometry bs ≡ geometry cs
  Laid-geometry bt id start [] [] total h k = refl
  Laid-geometry bt id start [] (c ∷ cs) total h k =
      absurd (omega (arith, Laid-start-le bt (id + 1) (start + c.n_tokens) cs total k.5))
  Laid-geometry bt id start (b ∷ bs) [] total h k =
      absurd (omega (arith, Laid-start-le bt (id + 1) (start + b.n_tokens) bs total h.5))
  Laid-geometry bt id start (b ∷ bs) (c ∷ cs) total h k =
      let e : b.n_tokens ≡ c.n_tokens =
        omega
          (arith, Laid-n_tokens bt id start b bs total h, Laid-n_tokens bt id start c cs total k) in
      let k' : Laid bt (id + 1) (start + b.n_tokens) cs total = rw e k.5 in
      cc (h.0, k.0, h.1, k.1, e, Laid-geometry bt (id + 1) (start + b.n_tokens) bs cs total h.5 k')

  -- A full table takes one more block at its end.
  pub Laid-snoc :
      (bt id start : ℕ) (bs : List (KvMemBlock D)) (total : ℕ) (b : KvMemBlock D)
      → Laid bt id start bs total
      → start ≡ id * bt
      → total ≡ (id + length bs) * bt
      → b.block_id ≡ id + length bs
      → b.orig_pos_start ≡ total
      → 0 < b.n_tokens
      → b.n_tokens ≤ bt
      → Laid bt id start (bs ++ b ∷ []) (total + b.n_tokens)
  Laid-snoc bt id start [] total b h st full i p lo hi = omega arith
  Laid-snoc bt id start (c ∷ bs) total b h st full i p lo hi =
      let next : start + c.n_tokens ≡ (id + 1) * bt = Laid-next bt id start c bs total b h full in
      (
        h.0,
        h.1,
        h.2,
        h.3,
        h.4,
        Laid-snoc bt (id + 1) (start + c.n_tokens) bs total b h.5 next (omega arith) (omega arith) p
            lo hi,
      )
    where
      Laid-next :
          (bt id start : ℕ) (c : KvMemBlock D) (bs : List (KvMemBlock D)) (total : ℕ)
          (b : KvMemBlock D)
          → Laid bt id start (c ∷ bs) total
          → total ≡ (id + length (c ∷ bs)) * bt
          → start + c.n_tokens ≡ (id + 1) * bt
      Laid-next bt id start c [] total b h full = omega arith
      Laid-next bt id start c (d ∷ bs) total b h full = omega arith

  pub Laid-some :
      (bt id start : ℕ) (bs : List (KvMemBlock D)) (total : ℕ)
      → Laid bt id start bs total
      → start < total
      → 0 < length bs
  Laid-some bt id start [] total h some = absurd (omega arith)
  Laid-some bt id start (b ∷ bs) total h some = omega arith

  -- The blocks hold the tokens, and without the last one they do not.
  pub Laid-count :
      (bt id start : ℕ) (bs : List (KvMemBlock D)) (total : ℕ)
      → Laid bt id start bs total
      → 0 < length bs
      → (total ≤ (id + length bs) * bt) × ((id + length bs) * bt < total + bt)
  Laid-count bt id start [] total h some = absurd (omega arith)
  Laid-count bt id start (b ∷ []) total h some = (omega arith, omega arith)
  Laid-count bt id start (b ∷ c ∷ bs) total h some =
      let (lo, hi) = Laid-count bt (id + 1) (start + b.n_tokens) (c ∷ bs) total h.5 (omega arith) in
      (omega arith, omega arith)
