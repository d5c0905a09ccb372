-- ===== src/Adapter/Batch/Apart.antt =====
-- The rows of a batch and their cells, in llama-kvmem-batch.cpp.
use kvmem_test.Common.{
  ℕ, zero, suc, ◌+◌, ◌-◌, ◌*◌, ◌/◌, ◌^◌, ◌≤◌, ◌<◌, ◌≡◌, ◌↔◌, refl, sym, ap, ◌∙◌, subst, ℤ, pos,
  true, false, some, List, [], ◌∷◌, ◌==◌, length, get_elem?, arith, u32_mod,
}
use native.Mathlib.Nat.{mul-le-mul_right}
use kvmem_test.Store.Types.{KvMemBlock, KvMemStore}
use kvmem_test.Store.Table.Layout.{IsLaid}
use kvmem_test.Host.Raw.Key.{same_multiple, remainders}
use kvmem_test.Adapter.Batch.{
  UbatchRows, SlotInfo, is_shared, row_of, fill_cells, fill_rows, cell_of, kvmem_fill_slot_info,
}
use kvmem_test.Adapter.Batch.Cell.{quotient_le, rest_lt, cell_of-IsLaid}

mul_add : (a b : ℕ) → (a + 1) * b ≡ a * b + b
mul_add a b = omega arith

-- A position is given by its block number and its offset.
position_of : (p q bt : ℕ) → 0 < bt → p / bt ≡ q / bt → p - p / bt * bt ≡ q - q / bt * bt → p ≡ q
position_of p q bt h same offset =
    let lo = quotient_le p bt h in
    let lo' = quotient_le q bt h in
    let starts : p / bt * bt ≡ q / bt * bt = ap (λ x. x * bt) same in omega arith

module _ {D : Type 0} where
  -- The GPU slots of the blocks are in the pool of `n_slots` slots, and no two blocks share one.
  pub record IsPooled (s : KvMemStore D) (n_slots : ℕ) : Type 0 where
    pub in_pool :
        (id slot : ℕ) (b : KvMemBlock D)
        → get_elem? s.blocks id ≡ some b
        → b.gpu_slot ≡ pos slot
        → slot < n_slots
    pub apart :
        (id id' slot : ℕ) (b c : KvMemBlock D)
        → get_elem? s.blocks id ≡ some b
        → get_elem? s.blocks id' ≡ some c
        → b.gpu_slot ≡ pos slot
        → c.gpu_slot ≡ pos slot
        → id ≡ id'

  -- Row `i` is of one sequence, at a position of the table whose block is on the GPU.
  pub record IsPlaced (s : KvMemStore D) (u : UbatchRows) (positions : ℕ → ℤ) (i : ℕ) : Type 0 where
    pub token : ℕ
    pub slot : ℕ
    pub block : KvMemBlock D
    pub unshared : is_shared u i ≡ false
    pub row : row_of u positions i ≡ pos token
    pub within : token < s.total_tokens
    pub small : token < 2 ^ 31
    pub found : get_elem? s.blocks (token / s.block_tokens) ≡ some block
    pub on_gpu : block.gpu_slot ≡ pos slot

  abbrev placed_cell :
      {s : KvMemStore D} {u : UbatchRows} {positions : ℕ → ℤ} {i : ℕ} → IsPlaced s u positions i → ℕ
  placed_cell {s} h =
      h.slot * s.block_tokens + (h.token - h.token / s.block_tokens * s.block_tokens)

  pool_end :
      (s : KvMemStore D) (n_slots kv id slot : ℕ) (b : KvMemBlock D)
      → IsPooled s n_slots
      → n_slots * s.block_tokens ≤ kv
      → get_elem? s.blocks id ≡ some b
      → b.gpu_slot ≡ pos slot
      → slot * s.block_tokens + s.block_tokens ≤ kv
  pool_end s n_slots kv id slot b h pool e on =
      let bt = s.block_tokens in
      let below = h.in_pool id slot b e on in
      let whole : (slot + 1) * bt ≤ n_slots * bt = mul-le-mul_right bt (omega arith) in
      omega (arith, mul_add slot bt)

  module _ (s : KvMemStore D) (n_slots kv : ℕ) (u : UbatchRows) (positions : ℕ → ℤ) (v : IsLaid s)
      (h : IsPooled s n_slots) (pool : n_slots * s.block_tokens ≤ kv) (wide : kv < u32_mod) where
    placed-cell_of :
        (i : ℕ) (r : IsPlaced s u positions i)
        → cell_of s s.block_tokens kv (row_of u positions i) ≡ some (placed_cell r)
    placed-cell_of i r =
        let end =
          pool_end s n_slots kv (r.token / s.block_tokens) r.slot r.block h pool r.found r.on_gpu in
        ap (λ x. cell_of s s.block_tokens kv x) r.row
        ∙ cell_of-IsLaid s kv r.token r.slot r.block v r.within r.small r.found r.on_gpu end wide

    placed-below : (i : ℕ) (r : IsPlaced s u positions i) → placed_cell r < kv
    placed-below i r =
        let end =
          pool_end s n_slots kv (r.token / s.block_tokens) r.slot r.block h pool r.found r.on_gpu in
        let rest = rest_lt r.token s.block_tokens v.positive in omega arith

    -- The loop over placed rows returns, at `k` the cell of row `i + k`.
    fill_cells-placed :
        (i n : ℕ)
        → ((k : ℕ) → k < n → IsPlaced s u positions (i + k))
        → (cells : List ℕ) × (fill_cells s s.block_tokens kv u positions i n ≡ some cells)
          × (length cells ≡ n)
          × ((k : ℕ)
              → k < n
              → cell_of s s.block_tokens kv (row_of u positions (i + k)) ≡ get_elem? cells k)
    unfolding fill_cells
    fill_cells-placed i zero rows = ([], refl, refl, λ k small. absurd (omega arith))
    fill_cells-placed i (suc n) rows =
        let r : IsPlaced s u positions i =
          subst (λ x. IsPlaced s u positions x) (plus_zero i) (rows 0 (omega arith)) in
        let (cells, e, len, at) = fill_cells-placed (i + 1) n (λ k small.
          subst (λ x. IsPlaced s u positions x) (plus_suc i k) (rows (suc k) (omega arith))) in
        (
          placed_cell r ∷ cells,
          rw (r.unshared, placed-cell_of i r, e) refl,
          ap suc len,
          cells_at i n cells r at,
        )
      where
        plus_zero : (i : ℕ) → i + 0 ≡ i
        plus_zero i = omega arith

        plus_suc : (i k : ℕ) → i + suc k ≡ i + 1 + k
        plus_suc i k = omega arith

        cells_at :
            (i n : ℕ) (cells : List ℕ) (r : IsPlaced s u positions i)
            → ((k : ℕ)
                → k < n
                → cell_of s s.block_tokens kv (row_of u positions (i + 1 + k)) ≡ get_elem? cells k)
            → (k : ℕ) → k < suc n
            → cell_of s s.block_tokens kv (row_of u positions (i + k))
              ≡ get_elem? (placed_cell r ∷ cells) k
        cells_at i n cells r at zero small =
            ap (λ x. cell_of s s.block_tokens kv (row_of u positions x)) (plus_zero i)
            ∙ placed-cell_of i r
        cells_at i n cells r at (suc k) small =
            ap (λ x. cell_of s s.block_tokens kv (row_of u positions x)) (plus_suc i k)
            ∙ at k (omega arith)

    -- Placed rows have the same cell only if they are at the same position.
    same_cell :
        (i j : ℕ) (r : IsPlaced s u positions i) (q : IsPlaced s u positions j)
        → placed_cell r ≡ placed_cell q
        → r.token ≡ q.token
    same_cell i j r q e =
        let bt = s.block_tokens in
        let small = rest_lt r.token bt v.positive in
        let small' = rest_lt q.token bt v.positive in
        let slots : r.slot ≡ q.slot =
          same_multiple r.slot q.slot bt (r.token - r.token / bt * bt) (q.token - q.token / bt * bt)
            small small' e in
        let blocks : r.token / bt ≡ q.token / bt =
          h.apart (r.token / bt) (q.token / bt) r.slot r.block q.block r.found q.found r.on_gpu
            (q.on_gpu ∙ ap pos (sym slots)) in
        let offsets =
          remainders r.slot q.slot bt (r.token - r.token / bt * bt) (q.token - q.token / bt * bt)
            slots e in
        position_of r.token q.token bt v.positive blocks offsets

zero_plus : (k : ℕ) → 0 + k ≡ k
zero_plus k = omega arith

some_injective : {a b : ℕ} → some a ≡ some b → a ≡ b
some_injective h = cc

module _ {D : Type 0} where
  -- Once the loop has returned, so does the call.
  fill_rows-filled :
      (s : KvMemStore D) (bt kv : ℕ) (u : UbatchRows) (positions : ℕ → ℤ) (cells : List ℕ)
      → fill_cells s bt kv u positions 0 u.n_tokens ≡ some cells
      → (u.n_tokens == 0) ≡ false
      → (bt == 0) ≡ false
      → (length cells == u.n_tokens) ≡ true
      → fill_rows s bt kv u (some positions)
        ≡ some (record { s0 = 0; s1 = 0; strm = 0; idxs = cells })
  unfolding fill_rows
  fill_rows-filled s bt kv u positions cells e some_rows some_tokens whole =
      simp (e, some_rows, some_tokens, whole) refl

  -- On a laid table whose blocks have GPU slots of their own, in a pool that the cache holds, and
  -- for a batch each of whose rows is of one sequence and lies in a block on the GPU, the call
  -- returns one cell for each row. The cells of any two rows are below the cache's size, and they
  -- are the same exactly if the two rows are at the same position.
  pub kvmem_fill_slot_info-apart :
      (s : KvMemStore D) (n_slots kv : ℕ) (u : UbatchRows) (positions : ℕ → ℤ)
      → IsLaid s
      → IsPooled s n_slots
      → n_slots * s.block_tokens ≤ kv
      → kv < u32_mod
      → u.positions ≡ some positions
      → ((k : ℕ) → k < u.n_tokens → IsPlaced s u positions k)
      → (i j : ℕ) → i < u.n_tokens
      → j < u.n_tokens
      → (info : SlotInfo) × (cell : ℕ) × (cell' : ℕ) × (kvmem_fill_slot_info s s.block_tokens kv u
          ≡ some info)
        × (length info.idxs ≡ u.n_tokens)
        × (get_elem? info.idxs i ≡ some cell)
        × (get_elem? info.idxs j ≡ some cell')
        × (cell < kv)
        × (cell' < kv)
        × ((cell ≡ cell') ↔ (row_of u positions i ≡ row_of u positions j))
  unfolding kvmem_fill_slot_info
  kvmem_fill_slot_info-apart s n_slots kv u positions v h pool wide given rows i j hi hj =
      let (cells, e, len, at) =
        fill_cells-placed s n_slots kv u positions v h pool wide 0 u.n_tokens
          (λ k small. subst (λ x. IsPlaced s u positions x) (sym (zero_plus k)) (rows k small)) in
      let r = rows i hi in
      let q = rows j hj in
      let left = placed-cell_of s n_slots kv u positions v h pool wide i r in
      let right = placed-cell_of s n_slots kv u positions v h pool wide j q in
      let some_rows : (u.n_tokens == 0) ≡ false = ground arith in
      let positive = v.positive in
      let some_tokens : (s.block_tokens == 0) ≡ false = ground arith in
      let whole : (length cells == u.n_tokens) ≡ true = ground arith in
      (
        record { s0 = 0; s1 = 0; strm = 0; idxs = cells },
        placed_cell r,
        placed_cell q,
        ap (fill_rows s s.block_tokens kv u) given
            ∙ fill_rows-filled s s.block_tokens kv u positions cells e some_rows some_tokens whole,
        len,
        sym (at i hi)
            ∙ ap (λ k. cell_of s s.block_tokens kv (row_of u positions k)) (zero_plus i)
            ∙ left,
        sym (at j hj)
            ∙ ap (λ k. cell_of s s.block_tokens kv (row_of u positions k)) (zero_plus j)
            ∙ right,
        placed-below s n_slots kv u positions v h pool wide i r,
        placed-below s n_slots kv u positions v h pool wide j q,
        (
          (λ same.
              r.row
              ∙ ap pos (same_cell s n_slots kv u positions v h pool wide i j r q same)
              ∙ sym q.row),
          (λ same.
              some_injective (sym left ∙ ap (λ x. cell_of s s.block_tokens kv x) same ∙ right)),
        ),
      )
