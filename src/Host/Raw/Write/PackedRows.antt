-- ===== src/Host/Raw/Write/PackedRows.antt =====
-- The packed keys that a round of `write_layer_k_gpu` stores, and their copy out of a layer.
use kvmem_test.Common.{
  ℕ, ◌+◌, ◌-◌, ◌*◌, ◌≤◌, ◌<◌, ◌≡◌, refl, ap, ◌∙◌, true, false, List, [], ◌∷◌, ◌++◌, some, ltb, ◌==◌,
  length, take, drop, slice, copy_into, mul64, u32_mod, u64_mod, arith, Bool-cases, inl, inr,
  length-append, length-take, length-drop, take-take, take-append_le,
}
use native.Mathlib.Nat.{mul-le-mul_right}
use kvmem_test.Host.Raw.{RawKvStoreConfig, LayerBlk, empty}
use kvmem_test.Host.Raw.Bytes.{grown}
use kvmem_test.Host.Raw.Io.{RawKvIo, layer_at}
use kvmem_test.Host.Raw.Read.{copy_k_gpu}
use kvmem_test.Host.Raw.Write.{Chunk, packed_k, put_k_gpu}

row_split : (a b row : ℕ) → (a + b) * row ≡ a * row + b * row
row_split a b row = ground arith

-- The first `want` bytes of `count` rows that start a block.
front_of_copy :
    (want bytes : ℕ) (src old : List ℕ)
    → want ≤ bytes
    → bytes ≤ length src
    → (take want (copy_into 0 (take bytes src) old) ≡ take want src)
      × (want ≤ length (copy_into 0 (take bytes src) old))
unfolding copy_into
front_of_copy want bytes src old h fits =
    let size = length-take bytes src in
    let all = length-append (take bytes src) (drop (0 + length (take bytes src)) old) in
    (
      take-append_le want (take bytes src) _ (omega arith) ∙ take-take want bytes src h,
      let long : want ≤ length (take bytes src ++ drop (0 + length (take bytes src)) old) =
            omega arith in
          long,
    )

-- The first rows of a chunk that starts a block.
packed_k_front :
    (cfg : RawKvStoreConfig) (n m : ℕ) (c : Chunk) (k old : List ℕ)
    → length k ≡ n * cfg.k_gpu_row_bytes
    → n * cfg.k_gpu_row_bytes < u64_mod
    → cfg.block_tokens * cfg.k_gpu_row_bytes < u64_mod
    → c.off ≡ 0
    → m ≤ c.count
    → c.count ≤ cfg.block_tokens
    → c.done + c.count ≤ n
    → (take (m * cfg.k_gpu_row_bytes) (packed_k cfg c k old)
        ≡ slice (c.done * cfg.k_gpu_row_bytes) (m * cfg.k_gpu_row_bytes) k)
      × (m * cfg.k_gpu_row_bytes ≤ length (packed_k cfg c k old))
unfolding packed_k
packed_k_front cfg n m c k old len small small' start enough block ends =
    let row = cfg.k_gpu_row_bytes in
    let bt = cfg.block_tokens in
    let upto : (c.done + c.count) * row ≤ n * row = mul-le-mul_right row ends in
    let want : m * row ≤ c.count * row = mul-le-mul_right row enough in
    let part : c.count * row ≤ bt * row = mul-le-mul_right row block in
    let split = row_split c.done c.count row in
    let at : mul64 c.done row ≡ c.done * row = omega arith in
    let bytes : mul64 c.count row ≡ c.count * row = omega arith in
    let need : mul64 bt row ≡ bt * row = omega arith in
    let none_before : mul64 0 row ≡ 0 = omega arith in
    let src = drop (c.done * row) k in
    let rest : length src ≡ n * row - c.done * row = omega (arith, length-drop (c.done * row) k) in
    let room : m * row ≤ length (take (bt * row) src) = omega (arith, length-take (bt * row) src) in
    rw (at, need, bytes)
      (rw (start, none_before)
        (elim (Bool-cases (c.count == bt)) [
          | inl whole ↦ rw whole (take-take (m * row) (bt * row) src (omega arith), room)
          | inr part_only ↦ rw part_only (
              front_of_copy (m * row) (c.count * row) src (grown 0 (bt * row) old) want
                (omega arith))
        ]))

module _ {X : Type 0} where
  -- A layer whose packed keys start with given rows of a block.
  pub record HasRows (m row : ℕ) (rows : List ℕ) (lb : LayerBlk X) : Type 0 where
    pub fmt : lb.k_gpu_fmt ≡ true
    pub tokens : m ≤ lb.k_gpu_tokens
    pub long : m * row ≤ length lb.k_gpu
    pub same : take (m * row) lb.k_gpu ≡ rows

  pub put_k_gpu-HasRows :
      (cfg : RawKvStoreConfig) (n m : ℕ) (c : Chunk) (k : List ℕ) (lb : LayerBlk X)
      → length k ≡ n * cfg.k_gpu_row_bytes
      → n * cfg.k_gpu_row_bytes < u64_mod
      → cfg.block_tokens * cfg.k_gpu_row_bytes < u64_mod
      → cfg.block_tokens < u32_mod
      → c.off ≡ 0
      → m ≤ c.count
      → c.count ≤ cfg.block_tokens
      → c.done + c.count ≤ n
      → HasRows m cfg.k_gpu_row_bytes
          (slice (c.done * cfg.k_gpu_row_bytes) (m * cfg.k_gpu_row_bytes) k)
          (put_k_gpu cfg c k lb)
  unfolding put_k_gpu
  put_k_gpu-HasRows cfg n m c k lb len small small' bt start enough block ends =
      let row = cfg.k_gpu_row_bytes in
      let put = packed_k_front cfg n m c k lb.k_gpu len small small' start enough block ends in
      record { fmt = refl; tokens = omega arith; long = put.1; same = put.0 }

pub not_empty : {A : Type 0} (xs : List A) → 0 < length xs → empty xs ≡ false
not_empty [] h = absurd (omega arith)
not_empty (x ∷ xs) h = refl

module _ {X F : Type 0} where
  pub copied :
      (t : RawKvIo X F) (lb : LayerBlk X) (bid il m row : ℕ) (rows : List ℕ)
      → 0 < m
      → 0 < row
      → m * row < u64_mod
      → layer_at t bid il ≡ some lb
      → t.store.cfg.k_gpu_row_bytes ≡ row
      → HasRows m row rows lb
      → copy_k_gpu t bid il m ≡ some rows
  unfolding copy_k_gpu
  copied t lb bid il m row rows some_rows some_row small e same has =
      let rows_there : (m == 0) ≡ false = ground arith in
      let row_there : (row == 0) ≡ false = ground arith in
      let one : 1 * row ≤ m * row = mul-le-mul_right row some_rows in
      let long = has.long in
      let enough = has.tokens in
      let filled : empty lb.k_gpu ≡ false = not_empty lb.k_gpu (omega arith) in
      let counted : ltb lb.k_gpu_tokens m ≡ false = ground arith in
      let bytes : mul64 m row ≡ m * row = omega arith in
      let sized : ltb (length lb.k_gpu) (m * row) ≡ false = ground arith in
      rw (e, copy_k_gpu, same, bytes, rows_there, row_there, has.fmt, filled, counted, sized)
        (ap some has.same)
