-- ===== src/Adapter/Batch.antt =====
-- `kvmem_fill_slot_info` of src/adapter/llama-kvmem-batch.cpp: the cell of each row of a batch.
pub mod Cell
pub mod Apart
use kvmem_test.Common.{
  ℕ, zero, suc, ◌+◌, ℤ, pos, negsuc, Bool, ◌||◌, Option, none, some, List, [], ◌∷◌, ◌==◌, ltb, leb,
  if◌then◌else◌, length, get_elem?, add32, sub32, mul32,
}
use kvmem_test.Store.Types.{KvMemBlock, KvMemStore}
use kvmem_test.Store.Table.{block_id_containing}

-- The members of `llama_ubatch` that the function reads; a pointer that may be null is an option,
-- and what it points to is a function of the index.
pub record UbatchRows : Type 0 where
  pub n_tokens : ℕ
  pub positions : Option (ℕ → ℤ)
  pub logical_pos : Option (ℕ → ℤ)
  pub n_seq_id : Option (ℕ → ℤ)

-- The members of `llama_kv_cache::slot_info` that the function writes, for its one stream.
pub record SlotInfo : Type 0 where
  pub s0 : ℕ
  pub s1 : ℕ
  pub strm : ℕ
  pub idxs : List ℕ

abbrev pub exceeds_one : ℤ → Bool
exceeds_one (pos n) = ltb 1 n
exceeds_one (negsuc n) = Bool.false

-- ubatch.n_seq_id && ubatch.n_seq_id[i] > 1
abbrev pub is_shared : UbatchRows → ℕ → Bool
is_shared u i = elim u.n_seq_id [ none ↦ Bool.false | some n ↦ exceeds_one (n i) ]

-- ubatch.logical_pos ? ubatch.logical_pos[i] : ubatch.pos[i]
abbrev pub row_of : UbatchRows → (ℕ → ℤ) → ℕ → ℤ
row_of u positions i = elim u.logical_pos [ none ↦ positions i | some rows ↦ rows i ]

module _ {D : Type 0} where
  -- The cell of position `p` in its block, `none` for `return false`.
  unfoldable pub cell_in : ℕ → ℕ → ℕ → KvMemBlock D → ℤ → Option ℕ
  cell_in bt kv_size p b (negsuc n) = none
  cell_in bt kv_size p b (pos slot) =
      let off = sub32 p b.orig_pos_start in
      let cell = add32 (mul32 slot bt) off in
      if leb b.n_tokens off || leb bt off
      then none
      else if leb kv_size cell
      then none
      else some cell

  -- The block number that `block_id_containing` gives is in range, so the other case of the look-up
  -- does not arise.
  unfoldable pub cell_of : KvMemStore D → ℕ → ℕ → ℤ → Option ℕ
  unfolding cell_in
  cell_of s bt kv_size (negsuc n) = none
  cell_of s bt kv_size (pos p) = elim (block_id_containing s p) [
    | negsuc n ↦ none
    | pos id ↦ elim (get_elem? s.blocks id) [
      | none ↦ none
      | some b ↦ cell_in bt kv_size p b b.gpu_slot
    ]
  ]

  -- The loop, from row `i` on.
  unfoldable pub fill_cells : KvMemStore D → ℕ → ℕ → UbatchRows → (ℕ → ℤ) → ℕ → ℕ → Option (List ℕ)
  unfolding cell_of
  fill_cells s bt kv_size u positions i zero = some []
  fill_cells s bt kv_size u positions i (suc n) =
      let rest = fill_cells s bt kv_size u positions (i + 1) n in
      if is_shared u i then none else elim (cell_of s bt kv_size (row_of u positions i)) [
        | none ↦ none
        | some cell ↦ elim rest [ none ↦ none | some cells ↦ some (cell ∷ cells) ]
      ]

  -- The function at the batch's pointer `pos`.
  unfoldable pub fill_rows : KvMemStore D → ℕ → ℕ → UbatchRows → Option (ℕ → ℤ) → Option SlotInfo
  unfolding fill_cells
  fill_rows s bt kv_size u none = none
  fill_rows s bt kv_size u (some positions) =
      let cells = fill_cells s bt kv_size u positions 0 u.n_tokens in
      if (u.n_tokens == 0) || (bt == 0) then none else elim cells [
        | none ↦ none
        | some idxs ↦
            if length idxs == u.n_tokens
            then some (record { s0 = 0; s1 = 0; strm = 0; idxs = idxs })
            else none
      ]

  -- `none` for `false`: the caller then does not read the slots.
  unfoldable pub kvmem_fill_slot_info : KvMemStore D → ℕ → ℕ → UbatchRows → Option SlotInfo
  unfolding fill_rows
  kvmem_fill_slot_info s bt kv_size u = fill_rows s bt kv_size u u.positions
