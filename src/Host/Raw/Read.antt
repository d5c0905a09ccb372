-- ===== src/Host/Raw/Read.antt =====
-- The copies of rows out of the raw store, kvmem/src/host/raw_kv_store.cpp, the mean keys, and the
-- memory accounting. A copy gives the rows, or nothing where the source returns false; a null
-- pointer for the result is left out.
use kvmem_test.Common.{
  ℕ, ◌+◌, ◌*◌, not, ◌&&◌, ◌||◌, List, [], ◌∷◌, map, Option, none, some, if◌then◌else◌, ltb, ◌==◌,
  length, take, replicate, min, add64, mul64, Result, ok, ◌>>=◌,
}
use kvmem_test.Tier.Nvme.{FileOps}
use kvmem_test.Host.Raw.{RawKvStoreConfig, LayerBlk, empty, k_is_f16, k_row_bytes}
use kvmem_test.Host.Raw.Bytes.{FloatArith, unpack_f16, words_of, add_half_rows}
use kvmem_test.Host.Raw.Io.{RawKvIo, layer_at, load_k_nvme, load_v_nvme, load_v_gpu_nvme}
use kvmem_test.Host.Raw.Thread.{wait_k, wait_v}

module _ {X : Type 0} where
  module _ (size : LayerBlk X → ℕ) where
    unfoldable pub add_sizes : List (LayerBlk X) → ℕ → ℕ
    add_sizes [] n = n
    add_sizes (lb ∷ layers) n = add_sizes layers (add64 n (size lb))

    unfoldable pub add_block_sizes : List (List (LayerBlk X)) → ℕ → ℕ
    unfolding add_sizes
    add_block_sizes [] n = n
    add_block_sizes (layers ∷ blocks) n = add_block_sizes blocks (add_sizes layers n)

module _ {X F : Type 0} where
  unfoldable pub copy_k_gpu : RawKvIo X F → ℕ → ℕ → ℕ → Option (List ℕ)
  copy_k_gpu s block_id il n =
      let bytes = mul64 n s.store.cfg.k_gpu_row_bytes in
      elim (layer_at s block_id il) [
        | none ↦ none
        | some lb ↦
            if (n == 0)
              || (s.store.cfg.k_gpu_row_bytes == 0)
              || not lb.k_gpu_fmt
              || empty lb.k_gpu
              || ltb lb.k_gpu_tokens n
              || ltb (length lb.k_gpu) bytes
            then none
            else some (take bytes lb.k_gpu)
      ]

  abbrev pub taken : ℕ → RawKvIo X F × Option (List ℕ) → RawKvIo X F × Option (List ℕ)
  taken n (s, none) = (s, none)
  taken n (s, some data') = (s, some (take n data'))

  module _ (o : FileOps F) where
    -- The keys of a layer, from memory or from the SSD.
    unfoldable pub source_k : RawKvIo X F → ℕ → ℕ → LayerBlk X → RawKvIo X F × Option (List ℕ)
    unfolding load_k_nvme
    source_k s block_id il lb =
        if not (empty lb.k)
        then (s, some lb.k)
        else if lb.k_on_nvme
        then load_k_nvme o s block_id il
        else (s, none)

    -- The first `n` rows of a layer that is there.
    unfoldable pub copy_rows : RawKvIo X F → ℕ → ℕ → ℕ → RawKvIo X F × Option (List ℕ)
    unfolding source_k k_row_bytes
    copy_rows s block_id il n = elim (layer_at s block_id il) [
      | none ↦ (s, none)
      | some lb ↦
          taken (mul64 (min n lb.n_tokens) (k_row_bytes s.store.cfg)) (source_k s block_id il lb)
    ]

    unfoldable pub copy_k_rows : RawKvIo X F → ℕ → ℕ → ℕ → Result (RawKvIo X F × Option (List ℕ))
    unfolding copy_rows wait_k k_row_bytes
    copy_k_rows s block_id il n =
        if (n == 0) || (k_row_bytes s.store.cfg == 0)
        then ok (s, none)
        else wait_k o s block_id il >>= λ s'. ok (copy_rows s' block_id il n)

    -- The packed values of a layer, from memory or from the SSD.
    unfoldable pub source_v_gpu : RawKvIo X F → ℕ → ℕ → LayerBlk X → RawKvIo X F × Option (List ℕ)
    unfolding load_v_gpu_nvme
    source_v_gpu s block_id il lb =
        if not (empty lb.v_gpu)
        then (s, some lb.v_gpu)
        else if lb.v_on_nvme
        then load_v_gpu_nvme o s block_id il
        else (s, none)

    unfoldable pub copy_v_gpu : RawKvIo X F → ℕ → ℕ → ℕ → Result (RawKvIo X F × Option (List ℕ))
    unfolding source_v_gpu wait_v
    copy_v_gpu s block_id il n =
        if (n == 0) || (s.store.cfg.v_gpu_row_bytes == 0)
        then ok (s, none)
        else wait_v o s block_id il >>= λ s'. ok (elim (layer_at s' block_id il) [
          | none ↦ (s', none)
          | some lb ↦
              if not lb.v_gpu_fmt || ltb lb.v_gpu_tokens n
              then (s', none)
              else taken (mul64 n s'.store.cfg.v_gpu_row_bytes) (source_v_gpu s' block_id il lb)
        ])

    -- The values as halves.
    unfoldable pub source_v : RawKvIo X F → ℕ → ℕ → LayerBlk X → RawKvIo X F × Option (List ℕ)
    unfolding load_v_nvme
    source_v s block_id il lb =
        if not (empty lb.v)
        then (s, some lb.v)
        else if lb.v_on_nvme && not lb.v_gpu_fmt
        then load_v_nvme o s block_id il
        else (s, none)

    module _ (a : FloatArith X) where
      abbrev pub unpacked : RawKvIo X F × Option (List ℕ) → RawKvIo X F × Option (List X)
      unpacked (s, none) = (s, none)
      unpacked (s, some halves) = (s, some (unpack_f16 a halves))

      unfoldable pub copy_v : RawKvIo X F → ℕ → ℕ → Result (RawKvIo X F × Option (List X))
      unfolding source_v wait_v unpack_f16
      copy_v s block_id il = wait_v o s block_id il >>= λ s'. ok (elim (layer_at s' block_id il) [
        | none ↦ (s', none)
        | some lb ↦
            unpacked (taken (mul64 lb.n_tokens s'.store.cfg.n_embd_v) (source_v s' block_id il lb))
      ])

      abbrev pub as_halves : RawKvIo X F × Option (List ℕ) → RawKvIo X F × Option (List ℕ)
      as_halves (s, none) = (s, none)
      as_halves (s, some bytes) = (s, some (words_of bytes))

      unfoldable pub copy_k : RawKvIo X F → ℕ → ℕ → Result (RawKvIo X F × Option (List X))
      unfolding source_k wait_k unpack_f16 words_of k_is_f16
      copy_k s block_id il =
          if not (k_is_f16 s.store.cfg)
          then ok (s, none)
          else wait_k o s block_id il >>= λ s'. ok (elim (layer_at s' block_id il) [
            | none ↦ (s', none)
            | some lb ↦ unpacked (
                taken (mul64 lb.n_tokens s'.store.cfg.n_embd_k)
                  (as_halves (source_k s' block_id il lb)))
          ])

      -- The sum over the count, if the layer has one.
      unfoldable pub normalize_mean : RawKvStoreConfig → LayerBlk X → Option (List X)
      normalize_mean c lb =
          if (lb.mean_tokens == 0) || not (length lb.k_sum == c.n_embd_k)
          then none
          else some (map (λ x. a.mul x (a.reciprocal lb.mean_tokens)) lb.k_sum)

      unfoldable pub mean_of_rows : RawKvStoreConfig → ℕ → Option (List ℕ) → List X
      unfolding add_half_rows
      mean_of_rows c nt none = replicate c.n_embd_k a.zero
      mean_of_rows c nt (some raw) =
          map (λ x. a.mul x (a.reciprocal nt))
            (add_half_rows a c raw 0 nt (replicate c.n_embd_k a.zero))

      -- The mean from the rows, zeros if there are none.
      unfoldable pub mean_from_k : RawKvIo X F → ℕ → ℕ → LayerBlk X → RawKvIo X F × List X
      unfolding source_k mean_of_rows
      mean_from_k s block_id il lb =
          let zeros = replicate s.store.cfg.n_embd_k a.zero in
          let (s', raw) = source_k s block_id il lb in
          if (lb.n_tokens == 0) || (s.store.cfg.n_embd_k == 0)
          then (s, zeros)
          else (s', mean_of_rows s.store.cfg lb.n_tokens raw)

      unfoldable pub mean_or : RawKvIo X F → ℕ → ℕ → LayerBlk X → RawKvIo X F × List X
      unfolding normalize_mean mean_from_k
      mean_or s block_id il lb = elim (normalize_mean s.store.cfg lb) [
        | some mean ↦ (s, mean)
        | none ↦ mean_from_k s block_id il lb
      ]

      unfoldable pub mean_k : RawKvIo X F → ℕ → ℕ → Result (RawKvIo X F × List X)
      unfolding mean_or normalize_mean wait_k k_is_f16
      mean_k s block_id il =
          let zeros = replicate s.store.cfg.n_embd_k a.zero in
          elim (layer_at s block_id il) [
            | none ↦ ok (s, zeros)
            | some lb ↦ elim (normalize_mean s.store.cfg lb) [
              | some mean ↦ ok (s, mean)
              | none ↦
                  if not (k_is_f16 s.store.cfg)
                  then ok (s, zeros)
                  else wait_k o s block_id il >>= λ s'. ok (elim (layer_at s' block_id il) [
                    | none ↦ (s', zeros)
                    | some lb' ↦ mean_or s' block_id il lb'
                  ])
            ]
          ]

  unfoldable pub bytes_k : RawKvIo X F → ℕ
  unfolding add_block_sizes
  bytes_k s =
      add_block_sizes (λ lb. length lb.k + length lb.k_gpu + length lb.k_sum * 4) s.store.blocks
        s.nvme_k_bytes

  unfoldable pub bytes_v : RawKvIo X F → ℕ
  unfolding add_block_sizes
  bytes_v s =
      add_block_sizes (λ lb. length lb.v * 2 + length lb.v_gpu) s.store.blocks s.nvme_v_bytes

  unfoldable pub nvme_bytes_written : RawKvIo X F → ℕ
  nvme_bytes_written s = add64 s.nvme_k_bytes s.nvme_v_bytes
