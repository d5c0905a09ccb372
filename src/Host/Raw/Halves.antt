-- ===== src/Host/Raw/Halves.antt =====
-- The writes of halves and floats in kvmem/src/host/raw_kv_store.cpp: keys and values of a chunk
-- together.
use kvmem_test.Common.{
  ℕ, Bool, true, false, ◌&&◌, List, Option, none, some, if◌then◌else◌, slice, mul32, mul64, Result,
  ok, ◌>>=◌,
}
use kvmem_test.Tier.Nvme.{FileOps}
use kvmem_test.Host.Raw.{RawKvStoreConfig, LayerBlk, ensure_blocks, k_is_f16, k_row_bytes}
use kvmem_test.Host.Raw.Bytes.{FloatArith, bytes_of_words, pack_f32, capture_mean_f16, add_mean_f32}
use kvmem_test.Host.Raw.Io.{RawKvIo, modify_layer}
use kvmem_test.Host.Raw.Flush.{maybe_flush_k, maybe_flush_v}
use kvmem_test.Host.Raw.Thread.{wait_k, wait_v}
use kvmem_test.Host.Raw.Write.{Chunk, write_chunks, seen, with_blocks, writes_nothing, for_chunks}
use kvmem_test.Host.Raw.Rows.{ready_k, ready_v, put_k, put_v, drop_packed_v, rows_from}

abbrev pub is_given : {A : Type 0} → Option A → Bool
is_given none = false
is_given (some x) = true

abbrev pub as_bytes : Option (List ℕ) → Option (List ℕ)
as_bytes none = none
as_bytes (some words) = some (bytes_of_words words)

-- `n` halves a row.
abbrev pub half_rows : ℕ → Option (List ℕ) → Chunk → Option (List ℕ)
half_rows n none c = none
half_rows n (some x) c = some (slice (mul32 c.done n) (mul64 c.count n) x)

module _ {X : Type 0} where
  module _ (a : FloatArith X) where
    -- The floats of a chunk, as halves; `n` of a row.
    unfoldable pub packed_rows : ℕ → Option (List X) → Chunk → Option (List ℕ)
    unfolding pack_f32
    packed_rows n none c = none
    packed_rows n (some x) c = some (pack_f32 a (slice (mul32 c.done n) (mul64 c.count n) x))

    abbrev pub add_rows_mean : RawKvStoreConfig → Option (List X) → Chunk → LayerBlk X → LayerBlk X
    add_rows_mean cfg k c lb =
        if k_is_f16 cfg then add_mean_f32 a cfg lb c.off c.count (rows_from cfg k c) else lb

    abbrev pub capture_rows_mean :
        RawKvStoreConfig → Option (List ℕ) → Chunk → LayerBlk X → LayerBlk X
    capture_rows_mean cfg k c lb =
        if is_given k && k_is_f16 cfg then capture_mean_f16 a cfg lb else lb

module _ {X F : Type 0} where
  module _ (o : FileOps F) where
    module _ (a : FloatArith X) where
      -- if (k) wait for the keys; if (v) wait for the values.
      unfoldable pub wait_both : Bool → Bool → RawKvIo X F → ℕ → ℕ → Result (RawKvIo X F)
      unfolding wait_k wait_v
      wait_both has_k has_v s block_id il =
          (if has_k then wait_k o s block_id il else ok s) >>= λ s₁.
          (if has_v then wait_v o s₁ block_id il else ok s₁)

      -- The keys of a chunk, if they are halves.
      unfoldable pub put_k_halves : ℕ → Chunk → Option (List ℕ) → RawKvIo X F → RawKvIo X F
      unfolding ready_k put_k k_row_bytes k_is_f16
      put_k_halves il c none s = s
      put_k_halves il c (some src) s =
          let cfg = s.store.cfg in
          let row = k_row_bytes cfg in
          if k_is_f16 cfg
          then modify_layer (ready_k o s c.bid il (mul64 cfg.block_tokens row)) c.bid il
              (put_k row c src)
          else s

      unfoldable pub put_v_halves : ℕ → Chunk → Option (List ℕ) → RawKvIo X F → RawKvIo X F
      unfolding ready_v put_v
      put_v_halves il c none s = s
      put_v_halves il c (some src) s =
          let cfg = s.store.cfg in
          let s₁ = modify_layer s c.bid il drop_packed_v in
          modify_layer (ready_v o s₁ c.bid il (mul64 cfg.block_tokens cfg.n_embd_v)) c.bid il
            (put_v cfg c src)

      -- A chunk of both; `sums` is what the mean of the keys becomes.
      unfoldable pub halves_chunk :
          ℕ
          → (Chunk → Option (List ℕ))
          → (Chunk → Option (List ℕ))
          → (Chunk → LayerBlk X → LayerBlk X)
          → Chunk
          → RawKvIo X F
          → Result (RawKvIo X F)
      unfolding wait_both put_k_halves put_v_halves maybe_flush_k maybe_flush_v ensure_blocks
      halves_chunk il k v sums c s =
          wait_both (is_given (k c)) (is_given (v c)) (with_blocks c s) c.bid il >>= λ s₁.
          let s₂ = put_v_halves il c (v c) (put_k_halves il c (k c) s₁) in
          maybe_flush_k o a (modify_layer s₂ c.bid il (λ lb. sums c (seen c lb))) c.bid il >>= λ s₃.
          maybe_flush_v o s₃ c.bid il

      unfoldable pub write_layer_tokens :
          RawKvIo X F → ℕ → ℕ → ℕ → Option (List X) → Option (List X) → Result (RawKvIo X F)
      unfolding write_chunks halves_chunk packed_rows add_mean_f32 k_is_f16 bytes_of_words
      write_layer_tokens s pos0 n il k v =
          let cfg = s.store.cfg in
          if writes_nothing s n il
          then ok s
          else for_chunks
              (halves_chunk il (λ c. as_bytes (packed_rows a cfg.n_embd_k k c))
                (packed_rows a cfg.n_embd_v v) (add_rows_mean a cfg k))
              pos0 n s

      unfoldable pub write_layer_tokens_f16 :
          RawKvIo X F → ℕ → ℕ → ℕ → Option (List ℕ) → Option (List ℕ) → Result (RawKvIo X F)
      unfolding write_chunks halves_chunk capture_mean_f16 k_is_f16 bytes_of_words
      write_layer_tokens_f16 s pos0 n il k v =
          let cfg = s.store.cfg in
          if writes_nothing s n il
          then ok s
          else for_chunks
              (halves_chunk il (λ c. as_bytes (half_rows cfg.n_embd_k k c))
                (half_rows cfg.n_embd_v v) (capture_rows_mean a cfg k))
              pos0 n s
