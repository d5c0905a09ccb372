-- ===== src/Host/Raw/Rows.antt =====
-- The writes of keys and values that may be on the SSD, kvmem/src/host/raw_kv_store.cpp: the buffer
-- of a block is made ready, the rows are copied, and a full block is flushed.
use kvmem_test.Common.{
  ℕ, Bool, true, false, not, ◌&&◌, ◌||◌, List, [], Option, none, some, if◌then◌else◌, leb, ◌==◌,
  length, take, drop, slice, copy_into, replicate, max, add32, mul32, mul64, Result, ok, ◌>>=◌,
}
use kvmem_test.Tier.Nvme.{FileOps}
use kvmem_test.Host.Raw.{RawKvStoreConfig, LayerBlk, ensure_blocks, k_row_bytes}
use kvmem_test.Host.Raw.Bytes.{FloatArith, add_mean_f32}
use kvmem_test.Host.Raw.Io.{
  RawKvIo, modify_layer, layer_at, load_k_nvme, load_v_nvme, load_v_gpu_nvme,
}
use kvmem_test.Host.Raw.Flush.{maybe_flush_k, maybe_flush_v}
use kvmem_test.Host.Raw.Thread.{wait_k, wait_v}
use kvmem_test.Host.Raw.Write.{Chunk, write_chunks, seen, with_blocks, writes_nothing, for_chunks}

-- A buffer of `need` elements with what was loaded in front.
abbrev pub loaded : ℕ → Option (List ℕ) → List ℕ
loaded need none = replicate need 0
loaded need (some data') = copy_into 0 data' (replicate need 0)

-- std::vector::resize
abbrev pub resized : ℕ → List ℕ → List ℕ
resized need xs = copy_into 0 (take need xs) (replicate need 0)

module _ {X : Type 0} where
  unfoldable pub put_k : ℕ → Chunk → List ℕ → LayerBlk X → LayerBlk X
  unfolding copy_into
  put_k row c src lb = record lb { k = copy_into (mul64 c.off row) src lb.k }

  -- The packed values no longer count, nor does their copy on the SSD.
  abbrev pub drop_packed_v : LayerBlk X → LayerBlk X
  drop_packed_v lb = record lb { v_gpu = []; v_on_nvme = lb.v_on_nvme && not lb.v_gpu_fmt }

  unfoldable pub put_v : RawKvStoreConfig → Chunk → List ℕ → LayerBlk X → LayerBlk X
  unfolding copy_into
  put_v cfg c src lb = record lb {
    v = copy_into (mul32 c.off cfg.n_embd_v) src lb.v;
    v_gpu_fmt = false;
  }

  -- The floats of the keys from a chunk on.
  abbrev pub rows_from : RawKvStoreConfig → Option (List X) → Chunk → Option (List X)
  rows_from cfg none c = none
  rows_from cfg (some x) c = some (drop (mul32 c.done cfg.n_embd_k) x)

  abbrev pub is_whole : RawKvStoreConfig → Chunk → LayerBlk X → Bool
  is_whole cfg c lb =
      (c.off == 0) && (c.count == cfg.block_tokens) && not (lb.v_on_nvme && lb.v_gpu_fmt)

  abbrev pub packed_v : Chunk → LayerBlk X → LayerBlk X
  packed_v c lb =
      seen c
        (record lb { v_gpu_fmt = true; v_gpu_tokens = max lb.v_gpu_tokens (add32 c.off c.count) })

  unfoldable pub put_v_whole : RawKvStoreConfig → Chunk → List ℕ → LayerBlk X → LayerBlk X
  put_v_whole cfg c src lb = packed_v c (record lb {
    v_gpu = take (mul64 cfg.block_tokens cfg.v_gpu_row_bytes) src;
    v_on_nvme = false;
  })

  unfoldable pub put_v_part : RawKvStoreConfig → Chunk → List ℕ → LayerBlk X → LayerBlk X
  unfolding copy_into
  put_v_part cfg c src lb = packed_v c (record lb {
    v_gpu =
        copy_into (mul64 c.off cfg.v_gpu_row_bytes) (take (mul64 c.count cfg.v_gpu_row_bytes) src)
          lb.v_gpu;
  })

module _ {X F : Type 0} where
  module _ (o : FileOps F) where
    -- The keys' buffer: as it is, from the SSD, or zeros.
    unfoldable pub ready_k : RawKvIo X F → ℕ → ℕ → ℕ → RawKvIo X F
    unfolding load_k_nvme copy_into
    ready_k s block_id il need = elim (layer_at s block_id il) [
      | none ↦ s
      | some lb ↦
          let (s', read) = load_k_nvme o s block_id il in
          if leb need (length lb.k)
          then s
          else if lb.k_on_nvme
          then modify_layer s' block_id il
              (λ lb'. record lb' { k = loaded need read; k_on_nvme = false })
          else modify_layer s block_id il (λ lb'. record lb' { k = replicate need 0 })
    ]

    unfoldable pub ready_v : RawKvIo X F → ℕ → ℕ → ℕ → RawKvIo X F
    unfolding load_v_nvme copy_into
    ready_v s block_id il need = elim (layer_at s block_id il) [
      | none ↦ s
      | some lb ↦
          let (s', read) = load_v_nvme o s block_id il in
          if leb need (length lb.v)
          then s
          else if lb.v_on_nvme
          then modify_layer s' block_id il
              (λ lb'. record lb' { v = loaded need read; v_on_nvme = false })
          else modify_layer s block_id il (λ lb'. record lb' { v = replicate need 0 })
    ]

    unfoldable pub ready_v_gpu : RawKvIo X F → ℕ → ℕ → ℕ → RawKvIo X F
    unfolding load_v_gpu_nvme copy_into
    ready_v_gpu s block_id il need = elim (layer_at s block_id il) [
      | none ↦ s
      | some lb ↦
          let (s', read) = load_v_gpu_nvme o s block_id il in
          if leb need (length lb.v_gpu)
          then s
          else if lb.v_on_nvme && lb.v_gpu_fmt
          then modify_layer s' block_id il
              (λ lb'. record lb' { v_gpu = loaded need read; v_on_nvme = false })
          else modify_layer s block_id il
              (λ lb'. record lb' { v_gpu = resized need lb'.v_gpu; v_on_nvme = false })
    ]

    unfoldable pub put_v_gpu : ℕ → Chunk → List ℕ → LayerBlk X → RawKvIo X F → RawKvIo X F
    unfolding ready_v_gpu put_v_whole put_v_part
    put_v_gpu il c src lb s =
        let cfg = s.store.cfg in
        if is_whole cfg c lb
        then modify_layer s c.bid il (put_v_whole cfg c src)
        else modify_layer (ready_v_gpu s c.bid il (mul64 cfg.block_tokens cfg.v_gpu_row_bytes))
            c.bid il (put_v_part cfg c src)

    unfoldable pub v_gpu_chunk : ℕ → List ℕ → Chunk → RawKvIo X F → Result (RawKvIo X F)
    unfolding wait_v put_v_gpu maybe_flush_v ensure_blocks
    v_gpu_chunk il v c s = wait_v o (with_blocks c s) c.bid il >>= λ s₁.
        let src = drop (mul64 c.done s₁.store.cfg.v_gpu_row_bytes) v in
        let s₂ = modify_layer s₁ c.bid il (λ lb. record lb { v = [] }) in
        elim (layer_at s₂ c.bid il) [
          | none ↦ ok s₂
          | some lb ↦ maybe_flush_v o (put_v_gpu il c src lb s₂) c.bid il
        ]

    unfoldable pub write_layer_v_gpu :
        RawKvIo X F → ℕ → ℕ → ℕ → Option (List ℕ) → Result (RawKvIo X F)
    unfolding write_chunks v_gpu_chunk
    write_layer_v_gpu s pos0 n il none = ok s
    write_layer_v_gpu s pos0 n il (some v) =
        if writes_nothing s n il || (s.store.cfg.v_gpu_row_bytes == 0)
        then ok s
        else for_chunks (v_gpu_chunk il v) pos0 n s

    module _ (a : FloatArith X) where
      unfoldable pub k_rows_chunk :
          ℕ → List ℕ → Option (List X) → Chunk → RawKvIo X F → Result (RawKvIo X F)
      unfolding wait_k ready_k put_k maybe_flush_k ensure_blocks add_mean_f32 k_row_bytes
      k_rows_chunk il k k_f32 c s = wait_k o (with_blocks c s) c.bid il >>= λ s₁.
          let cfg = s₁.store.cfg in
          let row = k_row_bytes cfg in
          let s₂ = ready_k s₁ c.bid il (mul64 cfg.block_tokens row) in
          let src = slice (mul64 c.done row) (mul64 c.count row) k in
          maybe_flush_k o a
            (modify_layer s₂ c.bid il (λ lb.
              seen c
                (add_mean_f32 a cfg (put_k row c src lb) c.off c.count (rows_from cfg k_f32 c))))
            c.bid il

      unfoldable pub write_layer_k_rows :
          RawKvIo X F → ℕ → ℕ → ℕ → Option (List ℕ) → Option (List X) → Result (RawKvIo X F)
      unfolding write_chunks k_rows_chunk k_row_bytes
      write_layer_k_rows s pos0 n il none k_f32 = ok s
      write_layer_k_rows s pos0 n il (some k) k_f32 =
          if writes_nothing s n il || (k_row_bytes s.store.cfg == 0)
          then ok s
          else for_chunks (k_rows_chunk il k k_f32) pos0 n s
