-- ===== src/Host/Raw/Write.antt =====
-- The writes of rows in kvmem/src/host/raw_kv_store.cpp: the loop over the blocks that a range of
-- tokens covers, and what each write does to one block's layer.
pub mod Cover
pub mod PackedRows
pub mod Reach
use kvmem_test.Common.{
  ℕ, zero, suc, ◌+◌, ◌-◌, ◌*◌, ◌/◌, ◌%◌, Bool, true, false, not, ◌&&◌, ◌||◌, List, [], ◌∷◌, Option,
  none, some, if◌then◌else◌, ltb, leb, ◌==◌, length, take, drop, slice, copy_into, replicate, min,
  max, add32, mul32, mul64, Result, ok, ◌>>=◌,
}
use kvmem_test.Tier.Nvme.{FileOps}
use kvmem_test.Host.Raw.{RawKvStoreConfig, LayerBlk, ensure_blocks, k_is_f16, k_row_bytes}
use kvmem_test.Host.Raw.Bytes.{
  FloatArith, grown, bytes_of_words, pack_f32, capture_mean_f16, add_mean_f32, add_row, sum_start,
}
use kvmem_test.Host.Raw.Io.{
  RawKvIo, modify_layer, layer_at, load_k_nvme, load_v_nvme, load_v_gpu_nvme,
}
use kvmem_test.Host.Raw.Thread.{wait_k, wait_v}

-- One round of the loop: the tokens written before it, the block, the offset and the count.
pub record Chunk : Type 0 where
  pub done : ℕ
  pub bid : ℕ
  pub off : ℕ
  pub count : ℕ

abbrev pub chunk_at : ℕ → ℕ → ℕ → ℕ → Chunk
chunk_at bt pos0 n done = record {
  done = done;
  bid = add32 pos0 done / bt;
  off = add32 pos0 done % bt;
  count = min (n - done) (bt - add32 pos0 done % bt);
}

-- while (done < n), with fuel.
unfoldable pub write_chunks :
    {S : Type 0} → (Chunk → S → Result S) → ℕ → ℕ → ℕ → ℕ → ℕ → S → Result S
write_chunks body bt pos0 n zero done s = ok s
write_chunks body bt pos0 n (suc fuel) done s = elim (ltb done n) [
  | false ↦ ok s
  | true ↦
      let c = chunk_at bt pos0 n done in
      body c s >>= λ s'. write_chunks body bt pos0 n fuel (add32 done c.count) s'
]

-- A block's packed keys: all of them, or a part of a buffer of a block.
unfoldable pub packed_k : RawKvStoreConfig → Chunk → List ℕ → List ℕ → List ℕ
unfolding copy_into
packed_k cfg c k old =
    let row = cfg.k_gpu_row_bytes in
    let need = mul64 cfg.block_tokens row in
    let src = drop (mul64 c.done row) k in
    if (c.off == 0) && (c.count == cfg.block_tokens)
    then take need src
    else copy_into (mul64 c.off row) (take (mul64 c.count row) src) (grown 0 need old)

module _ {X : Type 0} where
  abbrev pub seen : Chunk → LayerBlk X → LayerBlk X
  seen c lb = record lb { n_tokens = max lb.n_tokens (add32 c.off c.count) }

  unfoldable pub put_k_gpu : RawKvStoreConfig → Chunk → List ℕ → LayerBlk X → LayerBlk X
  unfolding packed_k
  put_k_gpu cfg c k lb = seen c (record lb {
    k_gpu = packed_k cfg c k lb.k_gpu;
    k_gpu_fmt = true;
    k_gpu_tokens = max lb.k_gpu_tokens (add32 c.off c.count);
  })

  module _ (a : FloatArith X) where
    unfoldable pub put_mean_sum : RawKvStoreConfig → Chunk → List X → LayerBlk X → LayerBlk X
    unfolding add_row
    put_mean_sum cfg c sum lb = seen c (record lb {
      k_sum = add_row a (sum_start a cfg c.off lb.k_sum) (take cfg.n_embd_k sum);
      mean_tokens = if c.off == 0 then c.count else max lb.mean_tokens (add32 c.off c.count);
    })

module _ {X F : Type 0} where
  abbrev pub with_blocks : Chunk → RawKvIo X F → RawKvIo X F
  with_blocks c s = record s { store = ensure_blocks s.store (add32 c.bid 1) }

  -- Whether a write does nothing.
  abbrev pub writes_nothing : RawKvIo X F → ℕ → ℕ → Bool
  writes_nothing s n il = (n == 0) || leb s.store.cfg.n_layer il || (s.store.cfg.block_tokens == 0)

  abbrev pub for_chunks :
      (Chunk → RawKvIo X F → Result (RawKvIo X F)) → ℕ → ℕ → RawKvIo X F → Result (RawKvIo X F)
  for_chunks body pos0 n s = write_chunks body s.store.cfg.block_tokens pos0 n n 0 s

  unfoldable pub k_gpu_chunk : ℕ → List ℕ → Chunk → RawKvIo X F → Result (RawKvIo X F)
  unfolding put_k_gpu ensure_blocks
  k_gpu_chunk il k c s = ok (modify_layer (with_blocks c s) c.bid il (put_k_gpu s.store.cfg c k))

  -- Packed keys.
  unfoldable pub write_layer_k_gpu :
      RawKvIo X F → ℕ → ℕ → ℕ → Option (List ℕ) → Result (RawKvIo X F)
  unfolding write_chunks k_gpu_chunk
  write_layer_k_gpu s pos0 n il none = ok s
  write_layer_k_gpu s pos0 n il (some k) =
      if writes_nothing s n il || (s.store.cfg.k_gpu_row_bytes == 0)
      then ok s
      else for_chunks (k_gpu_chunk il k) pos0 n s

  module _ (a : FloatArith X) where
    unfoldable pub mean_chunk : ℕ → List X → Chunk → RawKvIo X F → Result (RawKvIo X F)
    unfolding ensure_blocks add_mean_f32
    mean_chunk il k c s =
        let cfg = s.store.cfg in
        let rows = some (drop (mul32 c.done cfg.n_embd_k) k) in
        ok (
          modify_layer (with_blocks c s) c.bid il
            (λ lb. seen c (add_mean_f32 a cfg lb c.off c.count rows)))

    unfoldable pub write_layer_mean_k :
        RawKvIo X F → ℕ → ℕ → ℕ → Option (List X) → Result (RawKvIo X F)
    unfolding write_chunks mean_chunk
    write_layer_mean_k s pos0 n il none = ok s
    write_layer_mean_k s pos0 n il (some k) =
        if writes_nothing s n il || (s.store.cfg.n_embd_k == 0)
        then ok s
        else for_chunks (mean_chunk il k) pos0 n s

    -- A sum over tokens of one block.
    unfoldable pub write_layer_mean_sum : RawKvIo X F → ℕ → ℕ → ℕ → Option (List X) → RawKvIo X F
    unfolding put_mean_sum ensure_blocks
    write_layer_mean_sum s pos0 n il none = s
    write_layer_mean_sum s pos0 n il (some sum) =
        let cfg = s.store.cfg in
        let c = chunk_at cfg.block_tokens pos0 n 0 in
        if writes_nothing s n il || (cfg.n_embd_k == 0)
        then s
        else modify_layer (with_blocks c s) c.bid il (put_mean_sum a cfg c sum)
