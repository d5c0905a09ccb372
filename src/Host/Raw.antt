-- ===== src/Host/Raw.antt =====
-- The block table of kvmem/src/host/raw_kv_store.cpp: what each layer of a block holds, the tests on
-- it, the sizes of its rows, and the checkpoint of the mean keys. `X` is the type of the floats.
-- Locks, and the wait for the writes under way, are left out.
pub mod Mean
pub mod Key
pub mod Packed
pub mod Bytes
pub mod Io
pub mod Flush
pub mod Thread
pub mod Write
pub mod Rows
pub mod Halves
pub mod Read
pub mod Trim
use kvmem_test.Common.{
  ℕ, zero, suc, ◌+◌, ◌-◌, ◌*◌, ◌/◌, ◌%◌, Bool, true, false, not, ◌&&◌, ◌||◌, List, [], ◌∷◌, ◌++◌,
  map, Option, none, some, if◌then◌else◌, ltb, leb, ◌==◌, length, get_elem?, modify, take, drop,
  replicate, min, max, u32_mod, u64_mod, add32, sub32, Error, Result, ok, throw,
}

-- The conversions between float and uint32_t that the source uses.
pub record FloatOps (X : Type 0) : Type 0 where
  pub zero : X
  pub of_ℕ : ℕ → X
  pub to_u32 : X → ℕ

pub record RawKvStoreConfig : Type 0 where
  pub n_layer : ℕ
  pub n_embd_k : ℕ
  pub n_embd_v : ℕ
  pub block_tokens : ℕ
  pub row_bytes : ℕ
  pub k_gpu_row_bytes : ℕ
  pub v_gpu_row_bytes : ℕ
  pub nvme_bytes : ℕ
  pub nvme_dir : List ℕ

pub record LayerBlk (X : Type 0) : Type 0 where
  pub n_tokens : ℕ
  pub k_gpu_tokens : ℕ
  pub v_gpu_tokens : ℕ
  pub mean_tokens : ℕ
  pub k : List ℕ
  pub v : List ℕ
  pub k_gpu : List ℕ
  pub v_gpu : List ℕ
  pub k_sum : List X
  pub k_on_nvme : Bool
  pub v_on_nvme : Bool
  pub k_gpu_fmt : Bool
  pub v_gpu_fmt : Bool
  pub k_flushing : Bool
  pub v_flushing : Bool

pub record RawKvStore (X : Type 0) : Type 0 where
  pub cfg : RawKvStoreConfig
  pub blocks : List (List (LayerBlk X))

abbrev pub bit : Bool → ℕ
bit true = 1
bit false = 0

abbrev pub key_stride : RawKvStoreConfig → ℕ
key_stride c = (c.n_layer * 2 + 2) % u32_mod

unfoldable pub nvme_key : RawKvStoreConfig → ℕ → ℕ → Bool → ℕ
nvme_key c block_id il is_v = (block_id * key_stride c + il * 2 + bit is_v) % u32_mod

unfoldable pub k_row_bytes : RawKvStoreConfig → ℕ
k_row_bytes c = if c.row_bytes == 0 then c.n_embd_k * 2 else c.row_bytes

unfoldable pub k_is_f16 : RawKvStoreConfig → Bool
unfolding k_row_bytes
k_is_f16 c = k_row_bytes c == c.n_embd_k * 2

unfoldable pub k_slot_bytes : RawKvStoreConfig → ℕ
unfolding k_row_bytes
k_slot_bytes c = c.block_tokens * k_row_bytes c % u64_mod

unfoldable pub v_slot_bytes : RawKvStoreConfig → ℕ
v_slot_bytes c = c.block_tokens * c.n_embd_v * 2 % u64_mod

unfoldable pub v_gpu_slot_bytes : RawKvStoreConfig → ℕ
v_gpu_slot_bytes c = c.block_tokens * c.v_gpu_row_bytes % u64_mod

abbrev pub empty : {A : Type 0} → List A → Bool
empty [] = true
empty (x ∷ xs) = false

module _ {X : Type 0} where
  abbrev pub new_layer : LayerBlk X
  new_layer = record {
    n_tokens = 0;
    k_gpu_tokens = 0;
    v_gpu_tokens = 0;
    mean_tokens = 0;
    k = [];
    v = [];
    k_gpu = [];
    v_gpu = [];
    k_sum = [];
    k_on_nvme = false;
    v_on_nvme = false;
    k_gpu_fmt = false;
    v_gpu_fmt = false;
    k_flushing = false;
    v_flushing = false;
  }

  unfoldable pub ensure_blocks : RawKvStore X → ℕ → RawKvStore X
  ensure_blocks s block_count = if leb block_count (length s.blocks) then s else record s {
    blocks =
        s.blocks ++ replicate (block_count - length s.blocks) (replicate s.cfg.n_layer new_layer);
  }

  abbrev pub layers_of : RawKvStore X → ℕ → List (LayerBlk X)
  layers_of s block_id = elim (get_elem? s.blocks block_id) [ none ↦ [] | some layers ↦ layers ]

  -- A test of one layer of a block; false out of range.
  abbrev pub layer_test : RawKvStore X → ℕ → ℕ → (LayerBlk X → Bool) → Bool
  layer_test s block_id il test = elim (get_elem? (layers_of s block_id) il) [
    | none ↦ false
    | some lb ↦ test lb
  ]

  abbrev pub holds : LayerBlk X → Bool
  holds lb =
      ltb 0 lb.n_tokens
      && (not (empty lb.k)
          || lb.k_on_nvme
          || lb.k_flushing
          || lb.k_gpu_fmt
          || (ltb 0 lb.mean_tokens && not (empty lb.k_sum)))

  unfoldable pub any_holds : List (LayerBlk X) → Bool
  any_holds [] = false
  any_holds (lb ∷ layers) = holds lb || any_holds layers

  unfoldable pub has_block : RawKvStore X → ℕ → Bool
  unfolding any_holds
  has_block s block_id = any_holds (layers_of s block_id)

  unfoldable pub has_k : RawKvStore X → ℕ → ℕ → Bool
  has_k s block_id il =
      layer_test s block_id il (λ lb. not (empty lb.k) || lb.k_on_nvme || lb.k_flushing)

  unfoldable pub has_k_gpu : RawKvStore X → ℕ → ℕ → ℕ → Bool
  has_k_gpu s block_id il n =
      layer_test s block_id il (λ lb. lb.k_gpu_fmt && not (empty lb.k_gpu) && leb n lb.k_gpu_tokens)

  unfoldable pub has_v : RawKvStore X → ℕ → ℕ → Bool
  has_v s block_id il =
      layer_test s block_id il
        (λ lb. not (empty lb.v) || not (empty lb.v_gpu) || lb.v_on_nvme || lb.v_flushing)

  unfoldable pub has_v_gpu : RawKvStore X → ℕ → ℕ → ℕ → Bool
  has_v_gpu s block_id il n = layer_test s block_id il (λ lb. lb.v_gpu_fmt && leb n lb.v_gpu_tokens)

  unfoldable pub most_tokens : List (LayerBlk X) → ℕ → ℕ
  most_tokens [] n = n
  most_tokens (lb ∷ layers) n = most_tokens layers (max n lb.n_tokens)

  unfoldable pub n_tokens : RawKvStore X → ℕ → ℕ
  unfolding most_tokens
  n_tokens s block_id = most_tokens (layers_of s block_id) 0

  abbrev pub cap_layer : ℕ → LayerBlk X → LayerBlk X
  cap_layer limit lb = record lb {
    k_gpu_tokens = min lb.k_gpu_tokens limit;
    v_gpu_tokens = min lb.v_gpu_tokens limit;
  }

  -- The loop over the blocks; `first` more of them keep what they have.
  unfoldable pub cap_blocks : ℕ → ℕ → List (List (LayerBlk X)) → List (List (LayerBlk X))
  cap_blocks first limit [] = []
  cap_blocks zero limit (b ∷ bs) = map (cap_layer limit) b ∷ cap_blocks zero 0 bs
  cap_blocks (suc first) limit (b ∷ bs) = b ∷ cap_blocks first limit bs

  unfoldable pub invalidate_packed_from : RawKvStore X → ℕ → RawKvStore X
  unfolding cap_blocks
  invalidate_packed_from s token_pos = record s {
    blocks = cap_blocks (token_pos / s.cfg.block_tokens) (token_pos % s.cfg.block_tokens) s.blocks;
  }

  module _ (o : FloatOps X) where
    -- 1 + n_embd_k floats of one layer.
    unfoldable pub mean_row : RawKvStoreConfig → LayerBlk X → List X
    mean_row c lb =
        o.of_ℕ lb.mean_tokens ∷ (if empty lb.k_sum then replicate c.n_embd_k o.zero else lb.k_sum)

    unfoldable pub mean_rows : RawKvStoreConfig → List (LayerBlk X) → List X
    unfolding mean_row
    mean_rows c [] = []
    mean_rows c (lb ∷ layers) = mean_row c lb ++ mean_rows c layers

    unfoldable pub mean_checkpoint : RawKvStore X → ℕ → List X
    unfolding mean_rows
    mean_checkpoint s token_pos =
        if token_pos % s.cfg.block_tokens == 0
        then []
        else elim (get_elem? s.blocks (token_pos / s.cfg.block_tokens)) [
          | none ↦ replicate (s.cfg.n_layer * (1 + s.cfg.n_embd_k)) o.zero
          | some layers ↦ mean_rows s.cfg layers
        ]

    unfoldable pub restore_layer : LayerBlk X → List X → LayerBlk X
    restore_layer lb [] = lb
    restore_layer lb (count ∷ sums) = record lb {
      mean_tokens = o.to_u32 count;
      k_sum = if ltb 0 (o.to_u32 count) then sums else [];
    }

    unfoldable pub restore_layers : ℕ → List (LayerBlk X) → List X → List (LayerBlk X)
    unfolding restore_layer
    restore_layers stride [] state = []
    restore_layers stride (lb ∷ layers) state =
        restore_layer lb (take stride state) ∷ restore_layers stride layers (drop stride state)

    unfoldable pub restore_mean_checkpoint : RawKvStore X → ℕ → List X → Result (RawKvStore X)
    unfolding ensure_blocks restore_layers
    restore_mean_checkpoint s token_pos state =
        let stride = 1 + s.cfg.n_embd_k in
        let bid = token_pos / s.cfg.block_tokens in
        let s' = ensure_blocks s (add32 bid 1) in
        if empty state
        then ok s
        else if not (length state == s.cfg.n_layer * stride)
        then throw Error.invalid_checkpoint
        else ok (record s' {
          blocks = modify s'.blocks bid (λ layers. restore_layers stride layers state);
        })
