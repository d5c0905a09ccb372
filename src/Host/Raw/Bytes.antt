-- ===== src/Host/Raw/Bytes.antt =====
-- Buffers of the raw store in kvmem/src/host/raw_kv_store.cpp: copies of rows, rows of floats as
-- halves, and the sums of the keys. A pointer that may be null is an `Option`. A buffer of halves is
-- seen as bytes with the low byte first.
use kvmem_test.Common.{
  ℕ, zero, suc, ◌+◌, ◌*◌, ◌/◌, ◌%◌, not, ◌||◌, List, [], ◌∷◌, map, Option, none, some,
  if◌then◌else◌, ltb, ◌==◌, length, slice, replicate, max, mul32, mul64, add32,
}
use kvmem_test.Host.Half.{f32_to_f16, f16_to_f32}
use kvmem_test.Host.Raw.{RawKvStoreConfig, LayerBlk, empty, k_is_f16, k_row_bytes}

-- What the source uses of `float`: its bits, sums, products and the reciprocal of a count.
pub record FloatArith (X : Type 0) : Type 0 where
  pub zero : X
  pub to_bits : X → ℕ
  pub of_bits : ℕ → X
  pub add : X → X → X
  pub mul : X → X → X
  pub reciprocal : ℕ → X

module _ {A : Type 0} where
  -- if (dst.size() < need) dst.assign(need, 0);
  abbrev pub grown : A → ℕ → List A → List A
  grown a need dst = if ltb (length dst) need then replicate need a else dst

unfoldable pub words_of : List ℕ → List ℕ
words_of [] = []
words_of (low ∷ []) = []
words_of (low ∷ high ∷ bytes) = (low + high * 256) ∷ words_of bytes

unfoldable pub bytes_of_words : List ℕ → List ℕ
bytes_of_words [] = []
bytes_of_words (word ∷ words) = (word % 256) ∷ (word / 256) ∷ bytes_of_words words

module _ {X : Type 0} (o : FloatArith X) where
  unfoldable pub pack_f32 : List X → List ℕ
  unfolding f32_to_f16
  pack_f32 src = map (λ x. f32_to_f16 (o.to_bits x)) src

  unfoldable pub unpack_f16 : List ℕ → List X
  unfolding f16_to_f32
  unpack_f16 src = map (λ h. o.of_bits (f16_to_f32 h)) src

  -- for (d ...) sum[d] += row[d];
  unfoldable pub add_row : List X → List X → List X
  add_row [] row = []
  add_row (x ∷ sum) [] = x ∷ sum
  add_row (x ∷ sum) (y ∷ row) = (o.add x y) ∷ add_row sum row

  -- The rows `t`, `t + 1`, ... of a buffer of halves, `nt` of them, added to a sum.
  unfoldable pub add_half_rows : RawKvStoreConfig → List ℕ → ℕ → ℕ → List X → List X
  unfolding add_row unpack_f16 words_of k_row_bytes
  add_half_rows c raw t zero sum = sum
  add_half_rows c raw t (suc nt) sum =
      let row = unpack_f16 (words_of (slice (mul64 t (k_row_bytes c)) (c.n_embd_k * 2) raw)) in
      add_half_rows c raw (t + 1) nt (add_row sum row)

  unfoldable pub capture_mean_f16 : RawKvStoreConfig → LayerBlk X → LayerBlk X
  unfolding add_half_rows k_is_f16
  capture_mean_f16 c lb =
      if not (k_is_f16 c) || empty lb.k || (c.n_embd_k == 0)
      then lb
      else if lb.n_tokens == 0
      then lb
      else record lb {
        k_sum = add_half_rows c lb.k 0 lb.n_tokens (replicate c.n_embd_k o.zero);
        mean_tokens = lb.n_tokens;
      }

  unfoldable pub add_float_rows : RawKvStoreConfig → List X → ℕ → ℕ → List X → List X
  unfolding add_row
  add_float_rows c k t zero sum = sum
  add_float_rows c k t (suc n) sum =
      add_float_rows c k (t + 1) n (add_row sum (slice (mul32 t c.n_embd_k) c.n_embd_k k))

  -- The sum that the rows are added to: zeros at the start of a block.
  abbrev pub sum_start : RawKvStoreConfig → ℕ → List X → List X
  sum_start c off sum =
      if (off == 0) || not (length sum == c.n_embd_k) then replicate c.n_embd_k o.zero else sum

  unfoldable pub add_mean_f32 : RawKvStoreConfig → LayerBlk X → ℕ → ℕ → Option (List X) → LayerBlk X
  unfolding add_float_rows
  add_mean_f32 c lb off n none = lb
  add_mean_f32 c lb off n (some k) = if (n == 0) || (c.n_embd_k == 0) then lb else record lb {
    k_sum = add_float_rows c k 0 n (sum_start c off lb.k_sum);
    mean_tokens = if off == 0 then n else max lb.mean_tokens (add32 off n);
  }
