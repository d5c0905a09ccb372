-- ===== src/Host/Raw/Io.antt =====
-- The SSD tier under the raw store of kvmem/src/host/raw_kv_store.cpp: its construction, loads and
-- writes. A load whose read fails leaves the zeros of its buffer. The clock, the log and the lock are
-- left out.
use kvmem_test.Common.{
  ℕ, Bool, true, false, not, ◌&&◌, List, [], Option, none, some, if◌then◌else◌, ltb, ◌==◌,
  get_elem?, modify, max, Result, ok, throw, ◌>>=◌,
}
use kvmem_test.Tier.Nvme.{
  FileOps, NvmeKvTier, NvmeKvTierConfig, new_tier, enabled, write_block, read_block,
}
use kvmem_test.Host.Raw.{
  RawKvStoreConfig, RawKvStore, LayerBlk, empty, nvme_key, k_slot_bytes, v_slot_bytes,
  v_gpu_slot_bytes, layers_of,
}
use kvmem_test.Host.Raw.Bytes.{words_of}

pub record IoJob : Type 0 where
  pub key : ℕ
  pub block_id : ℕ
  pub il : ℕ
  pub is_v : Bool
  pub bytes : ℕ
  pub data' : List ℕ

-- The block table with the tier, the queue and the counters. `threaded` says that the worker thread
-- runs and that the environment does not ask for flushes at once.
pub record RawKvIo (X : Type 0) (F : Type 0) : Type 0 where
  pub store : RawKvStore X
  pub nvme : Option (NvmeKvTier F)
  pub threaded : Bool
  pub q : List IoJob
  pub nvme_k_bytes : ℕ
  pub nvme_v_bytes : ℕ
  pub nvme_syscalls : ℕ

unfoldable pub raw_slot_bytes : RawKvStoreConfig → ℕ
unfolding k_slot_bytes v_slot_bytes v_gpu_slot_bytes
raw_slot_bytes c =
    let rows = max (k_slot_bytes c) (v_slot_bytes c) in
    if c.v_gpu_row_bytes == 0 then rows else max rows (v_gpu_slot_bytes c)

unfoldable pub raw_tier_config : RawKvStoreConfig → NvmeKvTierConfig
unfolding raw_slot_bytes
raw_tier_config c = record {
  total_bytes = c.nvme_bytes;
  slot_bytes = raw_slot_bytes c;
  direct_mapped = false;
  read_only = false;
}

module _ {F : Type 0} where
  abbrev pub tier_enabled : Option (NvmeKvTier F) → Bool
  tier_enabled none = false
  tier_enabled (some t) = enabled t

module _ {X F : Type 0} where
  unfoldable pub nvme_enabled : RawKvIo X F → Bool
  nvme_enabled s = tier_enabled s.nvme

  -- The constructor; `file` is what opening gave, `sync_inline` what the environment asks.
  unfoldable pub new_raw_store : RawKvStoreConfig → F → Bool → RawKvIo X F
  unfolding raw_slot_bytes raw_tier_config new_tier
  new_raw_store c file sync_inline =
      let wanted = ltb 0 c.nvme_bytes && not (empty c.nvme_dir) && ltb 0 c.block_tokens in
      let nvme =
        if wanted && not (raw_slot_bytes c == 0)
        then some (new_tier (raw_tier_config c) file)
        else none in
      record {
        store = record { cfg = c; blocks = [] };
        nvme = nvme;
        threaded = tier_enabled nvme && not sync_inline;
        q = [];
        nvme_k_bytes = 0;
        nvme_v_bytes = 0;
        nvme_syscalls = 0;
      }

  -- blocks_[block_id].layers[il] changed in place.
  abbrev pub modify_layer : RawKvIo X F → ℕ → ℕ → (LayerBlk X → LayerBlk X) → RawKvIo X F
  modify_layer s block_id il change = record s {
    store = record (s.store) {
      blocks = modify s.store.blocks block_id (λ layers. modify layers il change);
    };
  }

  abbrev pub layer_at : RawKvIo X F → ℕ → ℕ → Option (LayerBlk X)
  layer_at s block_id il = get_elem? (layers_of s.store block_id) il

  module _ (o : FileOps F) where
    -- The bytes of a read, or nothing if the tier throws.
    abbrev pub caught : RawKvIo X F → Result (NvmeKvTier F × List ℕ) → RawKvIo X F × Option (List ℕ)
    caught s (throw e) = (s, none)
    caught s (ok (t, bytes)) = (record s { nvme = some t }, some bytes)

    unfoldable pub load_nvme : RawKvIo X F → ℕ → ℕ → RawKvIo X F × Option (List ℕ)
    unfolding read_block nvme_enabled
    load_nvme s key bytes = elim s.nvme [
      | none ↦ (s, none)
      | some t ↦ if not (nvme_enabled s) then (s, none) else caught s (read_block o t key bytes)
    ]

    unfoldable pub load_k_nvme : RawKvIo X F → ℕ → ℕ → RawKvIo X F × Option (List ℕ)
    unfolding load_nvme nvme_key k_slot_bytes
    load_k_nvme s block_id il =
        load_nvme s (nvme_key s.store.cfg block_id il false) (k_slot_bytes s.store.cfg)

    unfoldable pub load_v_nvme : RawKvIo X F → ℕ → ℕ → RawKvIo X F × Option (List ℕ)
    unfolding load_nvme nvme_key v_slot_bytes words_of
    load_v_nvme s block_id il =
        let (s', read) =
          load_nvme s (nvme_key s.store.cfg block_id il true) (v_slot_bytes s.store.cfg) in
        (s', elim read [ none ↦ none | some bytes ↦ some (words_of bytes) ])

    unfoldable pub load_v_gpu_nvme : RawKvIo X F → ℕ → ℕ → RawKvIo X F × Option (List ℕ)
    unfolding load_nvme nvme_key v_gpu_slot_bytes
    load_v_gpu_nvme s block_id il =
        if s.store.cfg.v_gpu_row_bytes == 0
        then (s, none)
        else load_nvme s (nvme_key s.store.cfg block_id il true) (v_gpu_slot_bytes s.store.cfg)

    -- nvme_->write_block
    unfoldable pub write_nvme : RawKvIo X F → ℕ → List ℕ → Result (RawKvIo X F)
    unfolding write_block
    write_nvme s key data' = elim s.nvme [
      | none ↦ ok s
      | some t ↦ write_block o t key data' >>= λ t'. ok (record s { nvme = some t' })
    ]
