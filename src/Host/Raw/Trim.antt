-- ===== src/Host/Raw/Trim.antt =====
-- Truncation and clearing of the raw store in kvmem/src/host/raw_kv_store.cpp.
use kvmem_test.Common.{
  ℕ, zero, suc, ◌+◌, ◌-◌, ◌/◌, ◌%◌, false, not, ◌&&◌, ◌||◌, List, [], Option, none, some,
  if◌then◌else◌, ltb, ◌==◌, length, take, min, add32, sub32, Result, ok, ◌>>=◌,
}
use kvmem_test.Tier.Nvme.{FileOps, clear}
use kvmem_test.Host.Raw.{LayerBlk, empty, k_is_f16}
use kvmem_test.Host.Raw.Bytes.{FloatArith, capture_mean_f16}
use kvmem_test.Host.Raw.Io.{RawKvIo, modify_layer, layer_at, load_k_nvme}
use kvmem_test.Host.Raw.Thread.{wait_writes}

module _ {X : Type 0} where
  abbrev pub cap_tokens : ℕ → LayerBlk X → LayerBlk X
  cap_tokens tail lb = record lb {
    n_tokens = min lb.n_tokens tail;
    k_gpu_tokens = min lb.k_gpu_tokens tail;
    v_gpu_tokens = min lb.v_gpu_tokens tail;
  }

  abbrev pub without_mean : LayerBlk X → LayerBlk X
  without_mean lb = record lb { mean_tokens = 0; k_sum = [] }

  -- What a load of the keys leaves: its bytes, or none if it failed.
  abbrev pub reloaded : Option (List ℕ) → LayerBlk X → LayerBlk X
  reloaded none lb = record lb { k = []; k_on_nvme = false }
  reloaded (some bytes) lb = record lb { k = bytes; k_on_nvme = false }

module _ {X F : Type 0} (o : FileOps F) (a : FloatArith X) where
  -- The mean of a cut layer, again from its keys.
  unfoldable pub recapture : RawKvIo X F → ℕ → ℕ → RawKvIo X F
  unfolding load_k_nvme capture_mean_f16 k_is_f16
  recapture s block_id il =
      let cfg = s.store.cfg in
      let s₁ = modify_layer s block_id il without_mean in
      if not (k_is_f16 cfg) then s₁ else elim (layer_at s₁ block_id il) [
        | none ↦ s₁
        | some lb ↦
            let (s₂, read) = load_k_nvme o s₁ block_id il in
            if empty lb.k && lb.k_on_nvme
            then modify_layer s₂ block_id il (λ lb'. capture_mean_f16 a cfg (reloaded read lb'))
            else modify_layer s₁ block_id il (capture_mean_f16 a cfg)
      ]

  unfoldable pub cut_layer : ℕ → RawKvIo X F → ℕ → ℕ → RawKvIo X F
  unfolding recapture
  cut_layer tail s block_id il =
      let s' = modify_layer s block_id il (cap_tokens tail) in
      elim (layer_at s' block_id il) [
        | none ↦ s'
        | some lb ↦ if ltb tail lb.mean_tokens then recapture s' block_id il else s'
      ]

  -- The layers from `il` on, `n` of them.
  unfoldable pub cut_layers : ℕ → ℕ → ℕ → ℕ → RawKvIo X F → RawKvIo X F
  unfolding cut_layer
  cut_layers tail block_id il zero s = s
  cut_layers tail block_id il (suc n) s =
      cut_layers tail block_id (il + 1) n (cut_layer tail s block_id il)

  abbrev pub with_table : RawKvIo X F → List (List (LayerBlk X)) → RawKvIo X F
  with_table s blocks = record s { store = record (s.store) { blocks = blocks } }

  -- The blocks that are kept, and the cut of the last of them.
  unfoldable pub cut_blocks : RawKvIo X F → ℕ → RawKvIo X F
  unfolding cut_layers
  cut_blocks s token_pos =
      let cfg = s.store.cfg in
      let keep = sub32 (add32 token_pos cfg.block_tokens) 1 / cfg.block_tokens in
      let tail = token_pos % cfg.block_tokens in
      let s' = with_table s (take keep s.store.blocks) in
      if not (tail == 0) && (length s'.store.blocks == keep)
      then cut_layers tail (keep - 1) 0 cfg.n_layer s'
      else s'

  unfoldable pub truncate_to : RawKvIo X F → ℕ → Result (RawKvIo X F)
  unfolding wait_writes cut_blocks
  truncate_to s token_pos = wait_writes o s >>= λ s'.
      if (token_pos == 0) || (s'.store.cfg.block_tokens == 0)
      then ok (with_table s' [])
      else ok (cut_blocks s' token_pos)

  unfoldable pub clear_raw : RawKvIo X F → Result (RawKvIo X F)
  unfolding wait_writes clear
  clear_raw s = wait_writes o s >>= λ s'. ok (record (with_table s' []) {
    nvme_k_bytes = 0;
    nvme_v_bytes = 0;
    nvme_syscalls = 0;
    nvme = elim s'.nvme [ none ↦ none | some t ↦ some (clear t) ];
  })
