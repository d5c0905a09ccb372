-- ===== src/Store/Table/Locate.antt =====
-- `block_id_containing` of kvmem_store.cpp, and the table as a function of the token count.
use kvmem_test.Common.{
  ℕ, suc, ◌+◌, ◌*◌, ◌/◌, ◌≤◌, ◌<◌, ◌≡◌, refl, List, [], ◌∷◌, length, get_elem?, arith, u32_mod, ltb,
  Bool-cases, true, inl, inr, some, int32_of_bits, negsuc,
}
use kvmem_test.Store.Types.{KvMemBlock, KvMemStore, orig_pos_end}
use kvmem_test.Store.Table.{block_id_containing, owns}
use kvmem_test.Store.Table.Layout.{Laid, IsLaid, Laid-start-le}

div_unique : (p k bt : ℕ) → 0 < bt → k * bt ≤ p → p < k * bt + bt → p / bt ≡ k
div_unique p k bt h lo hi = grind arith

module _ {D : Type 0} where
  -- The block number `id + k` that covers a token of the table.
  Laid-covers :
      (bt id start total p : ℕ) (bs : List (KvMemBlock D))
      → total < u32_mod
      → start ≤ p
      → p < total
      → Laid bt id start bs total
      → (k : ℕ) × (b : KvMemBlock D) × (get_elem? bs k ≡ some b)
        × (k < length bs)
        × (owns b p ≡ true)
        × (b.block_id ≡ id + k)
        × ((id + k) * bt ≤ p)
        × (p < (id + k) * bt + bt)
  Laid-covers bt id start total p [] t lo hi h = absurd (omega arith)
  Laid-covers bt id start total p (b ∷ bs) t lo hi h =
      let end = Laid-start-le bt (id + 1) (start + b.n_tokens) bs total h.5 in
      elim (Bool-cases (ltb p (start + b.n_tokens))) [
        | inl here ↦ (0, b, refl, omega arith, ground arith, omega arith, omega arith, ground arith)
        | inr later ↦
            let (k, c, e, len, own, i, below, above) =
              Laid-covers bt (id + 1) (start + b.n_tokens) total p bs t (ground arith) hi h.5 in
            (suc k, c, e, omega arith, own, omega arith, omega arith, omega arith)
      ]

  -- Every token of a laid table is found without the scan, in block `pos / block_tokens`; that
  -- block exists, has that number, and starts at or before the token and ends after it.
  pub block_id_containing-IsLaid :
      (s : KvMemStore D) (p : ℕ)
      → IsLaid s
      → p < s.total_tokens
      → (b : KvMemBlock D) × (block_id_containing s p ≡ int32_of_bits (p / s.block_tokens))
        × (get_elem? s.blocks (p / s.block_tokens) ≡ some b)
        × (b.block_id ≡ p / s.block_tokens)
        × (b.orig_pos_start ≤ p)
        × (p < orig_pos_end b)
  unfolding block_id_containing
  block_id_containing-IsLaid s p v h =
      let (k, b, e, len, own, i, below, above) =
        Laid-covers s.block_tokens 0 0 s.total_tokens p s.blocks v.bounded (omega arith) h v.laid in
      let q : p / s.block_tokens ≡ k =
        div_unique p k s.block_tokens v.positive (omega arith) (omega arith) in
      let positive = v.positive in
      (b, ground (arith, e, q, own), rw q e, omega arith, ground arith, ground arith)

  -- A position past the table is in no block.
  block_id_containing_past :
      (s : KvMemStore D) (p : ℕ) → s.total_tokens ≤ p → block_id_containing s p ≡ negsuc 0
  unfolding block_id_containing
  block_id_containing_past s p h = ground arith
