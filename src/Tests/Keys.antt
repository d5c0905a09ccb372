-- ===== src/Tests/Keys.antt =====
-- The number format of the raw store at single halves.
use kvmem_test.Common.{ℕ, ◌≡◌, refl, arith, [], ◌∷◌, true, ok}
use kvmem_test.Host.Raw.{
  FloatOps, RawKvStoreConfig, RawKvStore, LayerBlk, new_layer, layers_of, mean_checkpoint,
  restore_mean_checkpoint,
}
use kvmem_test.Host.Raw.Mean.{means, restore_mean_checkpoint-mean_checkpoint}
use kvmem_test.Host.Raw.{has_k_gpu, invalidate_packed_from}
use kvmem_test.Host.Raw.Packed.{has_k_gpu-invalidate_packed_from}
use kvmem_test.Common.{◌&&◌, leb, ◌*◌, ◌+◌}
use kvmem_test.Host.Raw.Key.{nvme_key-injective}
use kvmem_test.Common.{◌>>=◌, some, false}
use kvmem_test.Host.Raw.{nvme_key, k_slot_bytes, k_row_bytes, k_is_f16}
use kvmem_test.Host.Raw.Bytes.{FloatArith, capture_mean_f16}
use kvmem_test.Host.Raw.Io.{RawKvIo, nvme_enabled, write_nvme}
use kvmem_test.Host.Raw.Flush.{flush_k, k_due, maybe_flush_k}
use kvmem_test.Host.Raw.Flush.Spilled.{copy_k_rows-maybe_flush_k}
use kvmem_test.Host.Raw.Read.{copy_k_gpu, copy_k_rows}
use kvmem_test.Host.Raw.Write.{write_layer_k_gpu}
use kvmem_test.Host.Raw.Write.Reach.{copy_k_gpu-write_layer_k_gpu}
use kvmem_test.Tier.Pinned.{find, erase, assign, erase_first}
use kvmem_test.Tier.Nvme.{
  write_block, write_slot, write_slot_range, place_block_locked, place_free, admit, touch_locked,
  erase_lru_locked, validate_io, validate_slot_range_io, slot_offset,
}
use kvmem_test.Tests.Ssd.{Bytes, write, memory, memory_laws, one_written, one_written-IsPool}
use kvmem_test.Host.Half.{f32_to_f16, f16_to_f32, round, half_of, single_of}
use kvmem_test.Host.Half.Roundtrip.{f32_to_f16-f16_to_f32}

-- -1.5 as a half and as a float.
widened : f16_to_f32 48640 ≡ 3217031168
unfolding f16_to_f32 single_of
widened = refl

-- A float above the largest half is rounded to infinity.
narrowed : f32_to_f16 1199566848 ≡ 31744
unfolding f32_to_f16 half_of round
narrowed = refl

-- A subnormal number.
f32_to_f16-f16_to_f32_example : f32_to_f16 (f16_to_f32 32771) ≡ 32771
f32_to_f16-f16_to_f32_example = f32_to_f16-f16_to_f32 32771 (ground arith) refl

-- Floats are numbers.
abbrev whole_floats : FloatOps ℕ
whole_floats = record { zero = 0; of_ℕ = λ n. n; to_u32 = λ x. x }

abbrev one_layer : RawKvStoreConfig
one_layer = record {
  n_layer = 1;
  n_embd_k = 2;
  n_embd_v = 2;
  block_tokens = 4;
  row_bytes = 0;
  k_gpu_row_bytes = 0;
  v_gpu_row_bytes = 0;
  nvme_bytes = 0;
  nvme_dir = [];
}

abbrev with_mean : LayerBlk ℕ
with_mean = record new_layer { mean_tokens = 3; k_sum = 7 ∷ 9 ∷ [] }

abbrev raw : RawKvStore ℕ
raw = record { cfg = one_layer; blocks = (with_mean ∷ []) ∷ [] }

restore_mean_checkpoint-mean_checkpoint_example :
    (t : RawKvStore ℕ) × (restore_mean_checkpoint whole_floats
        (record raw { blocks = (new_layer ∷ []) ∷ [] })
        3
        (mean_checkpoint whole_floats raw 3)
      ≡ ok t)
    × (means (layers_of t 0) ≡ means (with_mean ∷ []))
restore_mean_checkpoint-mean_checkpoint_example =
    restore_mean_checkpoint-mean_checkpoint whole_floats (λ n h. refl) raw ((new_layer ∷ []) ∷ []) 3
      (with_mean ∷ []) (new_layer ∷ []) refl (omega arith) (omega arith) refl refl refl refl
      (
        record { none_without = λ e. absurd (omega arith); sized = λ h. refl; exact = omega arith },
        tt,
      )

nvme_key-injective_example : ◌≡◌ {A = ℕ} 3 3 × ◌≡◌ {A = ℕ} 0 0 × (true ≡ true)
nvme_key-injective_example =
    nvme_key-injective one_layer 3 3 0 0 true true (omega arith) (omega arith) (omega arith)
      (omega arith) (omega arith) refl

-- Two blocks with packed keys of all four tokens.
abbrev packed_layer : LayerBlk ℕ
packed_layer = record new_layer { k_gpu_tokens = 4; k_gpu = 1 ∷ []; k_gpu_fmt = true }

abbrev packed : RawKvStore ℕ
packed = record { cfg = one_layer; blocks = (packed_layer ∷ []) ∷ (packed_layer ∷ []) ∷ [] }

has_k_gpu-invalidate_packed_from_example :
    has_k_gpu (invalidate_packed_from packed 6) 1 0 2
    ≡ (has_k_gpu packed 1 0 2 && leb (1 * 4 + 2) 6)
has_k_gpu-invalidate_packed_from_example =
    has_k_gpu-invalidate_packed_from packed 6 1 0 2 (omega arith) (omega arith)

-- Blocks of two tokens, with a packed key of two bytes and a key of one half.
abbrev two_tokens : RawKvStoreConfig
two_tokens = record {
  n_layer = 1;
  n_embd_k = 1;
  n_embd_v = 0;
  block_tokens = 2;
  row_bytes = 0;
  k_gpu_row_bytes = 2;
  v_gpu_row_bytes = 0;
  nvme_bytes = 9;
  nvme_dir = 47 ∷ [];
}

abbrev fresh : RawKvIo ℕ Bytes
fresh = record {
  store = record { cfg = two_tokens; blocks = [] };
  nvme = some one_written;
  threaded = false;
  q = [];
  nvme_k_bytes = 0;
  nvme_v_bytes = 0;
  nvme_syscalls = 0;
}

-- Four tokens from position 1 on: the second of them starts block 1.
copy_k_gpu-write_layer_k_gpu_example :
    (t : RawKvIo ℕ Bytes) × (write_layer_k_gpu fresh 1 4 0
        (some (1 ∷ 2 ∷ 3 ∷ 4 ∷ 5 ∷ 6 ∷ 7 ∷ 8 ∷ []))
      ≡ ok t)
    × (copy_k_gpu t 1 0 2 ≡ some (3 ∷ 4 ∷ 5 ∷ 6 ∷ []))
copy_k_gpu-write_layer_k_gpu_example =
    copy_k_gpu-write_layer_k_gpu fresh 1 4 0 1 2 1 (1 ∷ 2 ∷ 3 ∷ 4 ∷ 5 ∷ 6 ∷ 7 ∷ 8 ∷ []) tt
      (omega arith) (omega arith) (omega arith) (omega arith) (omega arith) refl (omega arith)
      (omega arith) refl (omega arith) (omega arith) (omega arith)

abbrev whole_arith : FloatArith ℕ
whole_arith = record {
  zero = 0;
  to_bits = λ x. x;
  of_bits = λ n. n;
  add = λ x y. x + y;
  mul = λ x y. x * y;
  reciprocal = λ n. n;
}

-- A full block, with its sum of keys.
abbrev full_layer : LayerBlk ℕ
full_layer = record new_layer {
  n_tokens = 2;
  k = 1 ∷ 2 ∷ 3 ∷ 4 ∷ [];
  k_sum = 5 ∷ [];
  mean_tokens = 2;
}

abbrev full : RawKvIo ℕ Bytes
full = record fresh { store = record { cfg = two_tokens; blocks = (full_layer ∷ []) ∷ [] } }

abbrev flushed : RawKvIo ℕ Bytes
flushed = record full {
  store = record {
    cfg = two_tokens;
    blocks = (record full_layer { k = []; k_on_nvme = true } ∷ []) ∷ [];
  };
  nvme = some (record one_written {
    file = write one_written.file 4 (1 ∷ 2 ∷ 3 ∷ 4 ∷ []);
    free_slots = [];
    block_to_slot = (0, 1) ∷ (5, 0) ∷ [];
    lru = 5 ∷ 0 ∷ [];
  });
  nvme_k_bytes = 4;
  nvme_syscalls = 1;
}

full_flushed : maybe_flush_k memory whole_arith full 0 0 ≡ ok flushed
unfolding maybe_flush_k flush_k k_due nvme_enabled write_nvme nvme_key k_slot_bytes k_row_bytes
    k_is_f16 capture_mean_f16 write_block write_slot write_slot_range place_block_locked place_free
    admit touch_locked erase_lru_locked erase_first assign find erase validate_io
    validate_slot_range_io slot_offset
full_flushed = refl

copy_k_rows-maybe_flush_k_example :
    (copy_k_rows memory flushed 0 0 2 >>= λ r. ok r.1)
    ≡ (copy_k_rows memory full 0 0 2 >>= λ r. ok r.1)
unfolding k_row_bytes
copy_k_rows-maybe_flush_k_example =
    copy_k_rows-maybe_flush_k memory memory_laws whole_arith full flushed one_written 0 0 2
      full_layer refl refl one_written-IsPool refl (omega arith) (omega arith) full_flushed
