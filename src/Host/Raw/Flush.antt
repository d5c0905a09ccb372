-- ===== src/Host/Raw/Flush.antt =====
-- The flush of a full block's rows to the SSD in kvmem/src/host/raw_kv_store.cpp, at once or as a
-- job for the worker thread.
pub mod Spilled
use kvmem_test.Common.{
  ℕ, ◌+◌, ◌*◌, Bool, true, false, not, ◌&&◌, ◌||◌, List, [], ◌∷◌, ◌++◌, Option, none, some,
  if◌then◌else◌, ltb, leb, ◌==◌, length, get_elem?, modify, take, max, add64, mul64, Result, ok,
  throw, ◌>>=◌,
}
use kvmem_test.Tier.Nvme.{FileOps}
use kvmem_test.Host.Raw.{
  RawKvStoreConfig, LayerBlk, empty, nvme_key, k_slot_bytes, v_slot_bytes, v_gpu_slot_bytes,
  k_is_f16,
}
use kvmem_test.Host.Raw.Bytes.{FloatArith, bytes_of_words, capture_mean_f16}
use kvmem_test.Host.Raw.Io.{IoJob, RawKvIo, nvme_enabled, modify_layer, layer_at, write_nvme}

module _ {X : Type 0} where
  abbrev pub k_spilled : LayerBlk X → LayerBlk X
  k_spilled lb = record lb { k = []; k_on_nvme = true }

  abbrev pub v_spilled : LayerBlk X → LayerBlk X
  v_spilled lb = record lb { v = []; v_gpu = []; v_on_nvme = true }

  -- Whether a full block's keys are to leave.
  unfoldable pub k_due : RawKvStoreConfig → LayerBlk X → Bool
  unfolding k_slot_bytes
  k_due c lb =
      not (lb.k_on_nvme || lb.k_flushing || empty lb.k || ltb lb.n_tokens c.block_tokens)
      && leb (k_slot_bytes c) (length lb.k)

  -- Whether the packed values are the ones to flush, their size, and the bytes.
  abbrev pub v_is_packed : LayerBlk X → Bool
  v_is_packed lb = lb.v_gpu_fmt && not (empty lb.v_gpu)

  unfoldable pub v_bytes_due : RawKvStoreConfig → LayerBlk X → ℕ
  unfolding v_slot_bytes v_gpu_slot_bytes
  v_bytes_due c lb = if v_is_packed lb then v_gpu_slot_bytes c else v_slot_bytes c

  unfoldable pub v_due : RawKvStoreConfig → LayerBlk X → Bool
  unfolding v_bytes_due
  v_due c lb =
      not (lb.v_on_nvme || lb.v_flushing || ltb lb.n_tokens c.block_tokens)
      && (if v_is_packed lb
          then leb (v_bytes_due c lb) (length lb.v_gpu)
          else not (empty lb.v) && leb (v_bytes_due c lb) (mul64 (length lb.v) 2))

  unfoldable pub v_source : LayerBlk X → List ℕ
  unfolding bytes_of_words
  v_source lb = if v_is_packed lb then lb.v_gpu else bytes_of_words lb.v

  -- What the worker thread's job leaves of the values.
  abbrev pub v_queued : LayerBlk X → LayerBlk X
  v_queued lb = record lb { v = if v_is_packed lb then lb.v else []; v_gpu = []; v_flushing = true }

  module _ (a : FloatArith X) where
    -- The sum of the keys of a block that has none.
    abbrev pub with_sum : RawKvStoreConfig → LayerBlk X → LayerBlk X
    with_sum c lb =
        if k_is_f16 c && not (length lb.k_sum == c.n_embd_k) then capture_mean_f16 a c lb else lb

module _ {X F : Type 0} where
  unfoldable pub enqueue_flush : RawKvIo X F → ℕ → List ℕ → ℕ → ℕ → ℕ → Bool → RawKvIo X F
  enqueue_flush s key data' bytes block_id il is_v = record s {
    q =
        s.q
        ++ record {
          key = key;
          block_id = block_id;
          il = il;
          is_v = is_v;
          bytes = bytes;
          data' = data';
        }
          ∷ [];
  }

  module _ (o : FileOps F) where
    module _ (a : FloatArith X) where
      -- The bytes leave for the SSD: at once, or as a job.
      unfoldable pub flush_k : RawKvIo X F → ℕ → ℕ → ℕ → List ℕ → Result (RawKvIo X F)
      unfolding write_nvme enqueue_flush nvme_key capture_mean_f16 k_is_f16
      flush_k s block_id il nbytes k =
          let key = nvme_key s.store.cfg block_id il false in
          let s₁ = modify_layer s block_id il (with_sum a s.store.cfg) in
          elim s.threaded [
            | true ↦ ok (
                enqueue_flush
                  (modify_layer s₁ block_id il (λ lb. record lb { k = []; k_flushing = true })) key
                  (take nbytes k) nbytes block_id il false)
            | false ↦ write_nvme o s₁ key (take nbytes k) >>= λ s'.
                ok (record (modify_layer s' block_id il k_spilled) {
                  nvme_syscalls = add64 s'.nvme_syscalls 1;
                  nvme_k_bytes = add64 s'.nvme_k_bytes nbytes;
                })
          ]

      unfoldable pub maybe_flush_k : RawKvIo X F → ℕ → ℕ → Result (RawKvIo X F)
      unfolding nvme_enabled flush_k k_due k_slot_bytes
      maybe_flush_k s block_id il = elim (layer_at s block_id il) [
        | none ↦ ok s
        | some lb ↦
            if nvme_enabled s && k_due s.store.cfg lb
            then flush_k s block_id il (k_slot_bytes s.store.cfg) lb.k
            else ok s
      ]

    unfoldable pub flush_v : RawKvIo X F → ℕ → ℕ → ℕ → List ℕ → Result (RawKvIo X F)
    unfolding write_nvme enqueue_flush nvme_key
    flush_v s block_id il nbytes bytes =
        let key = nvme_key s.store.cfg block_id il true in
        elim s.threaded [
          | true ↦ ok (
              enqueue_flush (modify_layer s block_id il v_queued) key (take nbytes bytes) nbytes
                block_id il true)
          | false ↦ write_nvme o s key (take nbytes bytes) >>= λ s'.
              ok (record (modify_layer s' block_id il v_spilled) {
                nvme_syscalls = add64 s'.nvme_syscalls 1;
                nvme_v_bytes = add64 s'.nvme_v_bytes nbytes;
              })
        ]

    unfoldable pub maybe_flush_v : RawKvIo X F → ℕ → ℕ → Result (RawKvIo X F)
    unfolding nvme_enabled flush_v v_due v_bytes_due v_source
    maybe_flush_v s block_id il = elim (layer_at s block_id il) [
      | none ↦ ok s
      | some lb ↦
          if nvme_enabled s && v_due s.store.cfg lb
          then flush_v s block_id il (v_bytes_due s.store.cfg lb) (v_source lb)
          else ok s
    ]
