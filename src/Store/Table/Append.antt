-- ===== src/Store/Table/Append.antt =====
-- `register_append` of kvmem_store.cpp: it returns, keeps the layout and adds exactly the new
-- tokens.
use kvmem_test.Common.{
  ℕ, zero, suc, ◌+◌, ◌-◌, ◌*◌, ◌≤◌, ◌<◌, ◌≡◌, refl, List, [], ◌∷◌, length, min, arith, u32_mod,
  add32, ◌∙◌, some, length-append, Bool-cases, inl, inr, ap, ◌==◌,
}
use kvmem_test.Store.Types.{DoubleOps, KvMemBlock, KvMemStore, block_count}
use kvmem_test.Store.Table.{extend_last, append_blocks, register_append, fresh_block, push_block}
use kvmem_test.Store.Table.Layout.{Laid, IsLaid, Laid-snoc}

module _ {D : Type 0} where
  -- What `extend_last` leaves: a laid table that is full if tokens remain.
  abbrev Extended : ℕ → ℕ → ℕ → ℕ → List (KvMemBlock D) → ℕ → List (KvMemBlock D) × ℕ → Type 0
  Extended bt id start r bs total (bs', rest) =
      (rest ≤ r)
      × Laid bt id start bs' (total + (r - rest))
      × (length bs' ≡ length bs)
      × (0 < rest → total + (r - rest) ≡ (id + length bs) * bt)

  extend_last-Laid :
      (bt id start r : ℕ) (bs : List (KvMemBlock D)) (total : ℕ)
      → start ≡ id * bt
      → Laid bt id start bs total
      → Extended bt id start r bs total (extend_last bt r bs)
  unfolding extend_last
  extend_last-Laid bt id start r [] total st h = (omega arith, omega arith, refl, λ _. omega arith)
  extend_last-Laid bt id start r (b ∷ []) total st h = ground arith
  extend_last-Laid bt id start r (b ∷ c ∷ bs) total st h =
      let (le, laid, len, full) =
        extend_last-Laid bt (id + 1) (start + b.n_tokens) r (c ∷ bs) total h.5.2 h.5 in
      (le, (h.0, h.1, h.2, h.3, h.4, laid), ap suc len, λ p. omega (arith, full p))

  push_block-IsLaid :
      (o : DoubleOps D) (s : KvMemStore D) (n : ℕ)
      → IsLaid s
      → 0 < n
      → n ≤ s.block_tokens
      → s.total_tokens + n < u32_mod
      → s.total_tokens ≡ block_count s * s.block_tokens
      → IsLaid (push_block o s n)
        × ((push_block o s n).total_tokens ≡ s.total_tokens + n)
        × ((push_block o s n).cfg ≡ s.cfg)
        × (block_count (push_block o s n) ≡ block_count s + 1)
  unfolding push_block
  push_block-IsLaid o s n v lo hi t full =
      let e : add32 s.total_tokens n ≡ s.total_tokens + n = omega arith in
      let block = fresh_block o (block_count s) s.total_tokens n in
      (
        record {
          positive = v.positive;
          bounded = rw e t;
          laid = rw e (
              Laid-snoc s.block_tokens 0 0 s.blocks s.total_tokens block v.laid (omega arith)
                (omega arith) (omega arith) refl lo hi);
        },
        e,
        refl,
        omega (arith, length-append s.blocks (block ∷ [])),
      )

  -- Each round appends one block, and the fuel outlasts the tokens.
  append_blocks-IsLaid :
      (o : DoubleOps D) (fuel : ℕ) (s : KvMemStore D) (remaining : ℕ)
      → remaining < fuel
      → IsLaid s
      → s.total_tokens + remaining < u32_mod
      → (0 < remaining → s.total_tokens ≡ block_count s * s.block_tokens)
      → (s' : KvMemStore D) × (append_blocks o fuel s remaining ≡ some s')
        × IsLaid s'
        × (s'.total_tokens ≡ s.total_tokens + remaining)
        × (s'.cfg ≡ s.cfg)
  unfolding append_blocks
  append_blocks-IsLaid o zero s remaining f v t full = absurd (omega arith)
  append_blocks-IsLaid o (suc fuel) s remaining f v t full = elim (Bool-cases (remaining == 0)) [
    | inl done ↦ (s, rw done, v, ground arith, refl)
    | inr more ↦
        let n = min s.block_tokens remaining in
        let lo : 0 < remaining = ground arith in
        let bt = v.positive in
        let (v', t', c', k') =
          push_block-IsLaid o s n v (omega arith) (omega arith) (omega arith) (full lo) in
        let (s', e, w, total, c) =
          append_blocks-IsLaid o fuel (push_block o s n) (remaining - n) (omega arith) v'
            (omega arith) (λ p. rw k' (omega (arith, full lo))) in
        (s', rw more e, w, omega arith, c ∙ c')
  ]

  -- On a laid table with room in the 32-bit token count, `register_append` returns, adds exactly
  -- the new tokens, keeps the configuration and leaves a laid table.
  pub register_append-IsLaid :
      (o : DoubleOps D) (s : KvMemStore D) (n : ℕ)
      → IsLaid s
      → s.total_tokens + n < u32_mod
      → (s' : KvMemStore D) × (register_append o s n ≡ some s')
        × IsLaid s'
        × (s'.total_tokens ≡ s.total_tokens + n)
        × (s'.cfg ≡ s.cfg)
  unfolding register_append
  register_append-IsLaid o s n v t = elim (Bool-cases (n == 0)) [
    | inl none_new ↦ (s, rw none_new, v, ground arith, refl)
    | inr new ↦
        let (le, laid, len, full) =
          extend_last-Laid s.block_tokens 0 0 n s.blocks s.total_tokens (omega arith) v.laid in
        let remaining = (extend_last s.block_tokens n s.blocks).1 in
        let e : add32 s.total_tokens (n - remaining) ≡ s.total_tokens + (n - remaining) =
          omega arith in
        let s₁ : KvMemStore D = record s {
          blocks = (extend_last s.block_tokens n s.blocks).0;
          total_tokens = add32 s.total_tokens (n - remaining);
        } in
        let v₁ : IsLaid s₁ = record {
          positive = v.positive;
          bounded = rw e (omega arith);
          laid = rw e laid;
        } in
        let (s', r, w, total, c) =
          append_blocks-IsLaid o (remaining + 1) s₁ remaining (omega arith) v₁ (omega arith)
            (λ p. rw len (omega (arith, full p))) in
        (s', rw new r, w, omega arith, c)
  ]
