-- ===== src/Tier/Nvme/Spans.antt =====
-- Batches of spans on the SSD tier, kvmem/include/kvmem/nvme_kv_tier.hpp: neighbouring slots are
-- written and read by one call. The buffer is the bytes it holds; the overlay, direct reads and the
-- page cache are left out. A write gives the tier, a read the buffer, each with the number of calls.
pub mod Merge
pub mod Each
use kvmem_test.Common.{
  ℕ, zero, suc, ◌+◌, ◌-◌, ℤ, Bool, true, false, not, ◌&&◌, List, [], ◌∷◌, ltb, ◌==◌, length, slice,
  copy_into, add64, Error, Result, ok, throw, throw_if, ◌>>=◌, ◌>>◌,
}
use kvmem_test.Common.{if◌then◌else◌}
use kvmem_test.Tier.Nvme.{
  FileOps, NvmeKvTier, slot_offset, slot_index, outside, validate_io, or_throw,
}

pub record NvmeIoSpan : Type 0 where
  pub slot : ℤ
  pub buffer_offset : ℕ
  pub bytes : ℕ

module _ {F : Type 0} where
  unfoldable pub validate_slot_io : NvmeKvTier F → ℤ → ℕ → Result (Unit {0})
  unfolding validate_io
  validate_slot_io t slot bytes = do
    validate_io t bytes
    throw_if (outside slot t.slot_count) Error.invalid_slot

  -- The checks of one span.
  unfoldable pub check_span : NvmeKvTier F → ℕ → NvmeIoSpan → Result (Unit {0})
  unfolding validate_slot_io
  check_span t buffer_bytes span = do
    validate_slot_io t span.slot span.bytes
    throw_if (ltb buffer_bytes (add64 span.buffer_offset span.bytes)) Error.span_exceeds_buffer

  -- next.slot == prev.slot + 1 && prev.bytes == slot_bytes, and the buffer goes on.
  abbrev pub follows : NvmeKvTier F → NvmeIoSpan → ℕ → NvmeIoSpan → NvmeIoSpan → Bool
  follows t first merged prev next =
      (slot_index next.slot == slot_index prev.slot + 1)
      && (prev.bytes == t.cfg.slot_bytes)
      && (next.buffer_offset == add64 first.buffer_offset merged)

  -- The bytes of the spans that merge with the first, and the spans that are left.
  unfoldable pub gather :
      NvmeKvTier F
      → ℕ
      → NvmeIoSpan
      → ℕ
      → NvmeIoSpan
      → List NvmeIoSpan
      → Result (ℕ × List NvmeIoSpan)
  unfolding check_span
  gather t buffer_bytes first merged prev [] = ok (merged, [])
  gather t buffer_bytes first merged prev (next ∷ spans) = elim (follows t first merged prev next) [
    | false ↦ ok (merged, next ∷ spans)
    | true ↦
        check_span t buffer_bytes next
        >> gather t buffer_bytes first (add64 merged next.bytes) next spans
  ]

  module _ (o : FileOps F) where
    -- `fuel` bounds the groups by the number of spans.
    unfoldable pub write_groups :
        ℕ → NvmeKvTier F → List NvmeIoSpan → List ℕ → ℕ → Result (NvmeKvTier F × ℕ)
    unfolding check_span gather slot_offset
    write_groups fuel t [] buffer calls = ok (t, calls)
    write_groups zero t (first ∷ spans) buffer calls = ok (t, calls)
    write_groups (suc fuel) t (first ∷ spans) buffer calls = do
      check_span t (length buffer) first
      (merged, rest) ← gather t (length buffer) first first.bytes first spans
      file ← or_throw (
          o.pwrite t.file (slot_offset t (slot_index first.slot))
            (slice first.buffer_offset merged buffer))
      write_groups fuel (record t { file = file }) rest buffer (calls + 1)

    unfoldable pub write_spans : NvmeKvTier F → List NvmeIoSpan → List ℕ → Result (NvmeKvTier F × ℕ)
    unfolding write_groups
    write_spans t spans buffer =
        throw_if t.cfg.read_only Error.attached_read_only
        >> write_groups (length spans) t spans buffer 0

    unfoldable pub read_groups :
        ℕ → NvmeKvTier F → List NvmeIoSpan → List ℕ → ℕ → Result (List ℕ × ℕ)
    unfolding check_span gather slot_offset copy_into
    read_groups fuel t [] buffer calls = ok (buffer, calls)
    read_groups zero t (first ∷ spans) buffer calls = ok (buffer, calls)
    read_groups (suc fuel) t (first ∷ spans) buffer calls = do
      check_span t (length buffer) first
      (merged, rest) ← gather t (length buffer) first first.bytes first spans
      bytes ← or_throw (o.pread t.file (slot_offset t (slot_index first.slot)) merged)
      read_groups fuel t rest (copy_into first.buffer_offset bytes buffer) (calls + 1)

    unfoldable pub read_spans : NvmeKvTier F → List NvmeIoSpan → List ℕ → Result (List ℕ × ℕ)
    unfolding read_groups
    read_spans t spans buffer = read_groups (length spans) t spans buffer 0
