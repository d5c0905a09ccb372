-- ===== src/Tier/Nvme/Spans/Each.antt =====
-- A batch of spans writes what writes of the single spans do, in their order.
use kvmem_test.Common.{
  add64, ℕ, zero, suc, ◌+◌, ◌-◌, ◌*◌, ◌≤◌, ◌<◌, ◌≡◌, refl, sym, ap, ◌∙◌, true, false, List, [], ◌∷◌,
  Option, none, some, ltb, length, slice, u64_mod, arith, All, Option-cases, inl, inr, Error,
  Result, ok, throw_if, ◌>>=◌, ◌>>◌,
}
use kvmem_test.Tier.Nvme.{
  FileOps, NvmeKvTier, enabled, slot_offset, slot_index, validate_io, validate_slot_range_io,
  or_throw, write_slot, write_slot_range,
}
use kvmem_test.Tier.Nvme.Spans.{NvmeIoSpan, gather, write_groups, write_spans}
use kvmem_test.Tier.Nvme.Spans.Merge.{
  AppendLaw, IsSpan, and_then, length-slice, check_span-ok, file_each, gather-IsGathered,
}

module _ {F : Type 0} (o : FileOps F) where
  -- One span after the other, in the tier.
  pub write_each : NvmeKvTier F → List NvmeIoSpan → List ℕ → Result (NvmeKvTier F)
  write_each t [] buffer = ok t
  write_each t (span ∷ spans) buffer =
      write_slot o t span.slot (slice span.buffer_offset span.bytes buffer) >>= λ t'.
      write_each t' spans buffer

  abbrev with_file : NvmeKvTier F → F → Result (NvmeKvTier F)
  with_file t f = ok (record t { file = f })

  -- One write of a span.
  write_slot-IsSpan :
      (t : NvmeKvTier F) (span : NvmeIoSpan) (buffer : List ℕ)
      → enabled t ≡ true
      → t.cfg.read_only ≡ false
      → IsSpan t.cfg.slot_bytes t.slot_count (length buffer) span
      → write_slot o t span.slot (slice span.buffer_offset span.bytes buffer) ≡ (
          or_throw (
            o.pwrite t.file
              (slot_offset t (slot_index span.slot))
              (slice span.buffer_offset span.bytes buffer))
          >>= with_file t)
  unfolding write_slot write_slot_range validate_slot_range_io validate_io
  write_slot-IsSpan t span buffer on writable v =
      let fits = v.fits in
      let data' = slice span.buffer_offset span.bytes buffer in
      let size : length data' ≡ span.bytes =
        length-slice span.buffer_offset span.bytes buffer v.buffered in
      let short : ltb t.cfg.slot_bytes (length data') ≡ false = ground (arith, size) in
      let no_offset : ltb t.cfg.slot_bytes 0 ≡ false = ground arith in
      let in_slot : ltb (t.cfg.slot_bytes - 0) (length data') ≡ false = ground (arith, size) in
      let at : add64 (slot_offset t (slot_index span.slot)) 0
          ≡ slot_offset t (slot_index span.slot) =
        omega arith in
      rw (on, writable, short, v.inside, no_offset, in_slot, at) refl

  then_file :
      (t : NvmeKvTier F) (x : Option F) (next : F → Option F)
      → (or_throw x >>= λ f. or_throw (next f) >>= with_file t)
        ≡ (or_throw (and_then x next) >>= with_file t)
  then_file t none next = refl
  then_file t (some f) next = refl

  -- The writes one by one are those in the file.
  write_each-file_each :
      (t : NvmeKvTier F) (spans : List NvmeIoSpan) (buffer : List ℕ)
      → enabled t ≡ true
      → t.cfg.read_only ≡ false
      → All (IsSpan t.cfg.slot_bytes t.slot_count (length buffer)) spans
      → write_each t spans buffer ≡ (or_throw (file_each o t buffer spans t.file) >>= with_file t)
  unfolding write_each slot_offset
  write_each-file_each t [] buffer on writable vs = refl
  write_each-file_each t (span ∷ spans) buffer on writable (v, vs) =
      let data' = slice span.buffer_offset span.bytes buffer in
      let x = o.pwrite t.file (slot_offset t (slot_index span.slot)) data' in
      ap (λ r. r >>= λ t'. write_each t' spans buffer)
        (write_slot-IsSpan t span buffer on writable v)
      ∙ elim (Option-cases x) [
        | inl e ↦ rw e refl
        | inr (f, e) ↦
            rw e (write_each-file_each (record t { file = f }) spans buffer on writable vs)
      ]

  after_write :
      {A B : Type 0} (x : Option F) (write : F → Result (A × B)) (each : F → Result A)
      → ((f : F) → (write f >>= λ r. ok r.0) ≡ each f)
      → (or_throw x >>= write >>= λ r. ok r.0) ≡ (or_throw x >>= each)
  after_write none write each h = refl
  after_write (some f) write each h = h f

  -- The write of a group, and the groups after it.
  abbrev grouped :
      ℕ → NvmeKvTier F → NvmeIoSpan → List ℕ → ℕ → ℕ × List NvmeIoSpan → Result (NvmeKvTier F × ℕ)
  grouped fuel t first buffer calls (total, rest) =
      or_throw (
        o.pwrite t.file (slot_offset t (slot_index first.slot))
          (slice first.buffer_offset total buffer))
      >>= λ f. write_groups o fuel (record t { file = f }) rest buffer (calls + 1)

  -- The merged writes are those in the file, with fuel for each span.
  write_groups-file_each :
      (laws : AppendLaw o) (fuel calls : ℕ) (t : NvmeKvTier F) (spans : List NvmeIoSpan)
      (buffer : List ℕ)
      → enabled t ≡ true
      → length buffer < u64_mod
      → t.slot_count * t.cfg.slot_bytes ≤ u64_mod
      → length spans ≤ fuel
      → All (IsSpan t.cfg.slot_bytes t.slot_count (length buffer)) spans
      → (write_groups o fuel t spans buffer calls >>= λ r. ok r.0)
        ≡ (or_throw (file_each o t buffer spans t.file) >>= with_file t)
  unfolding write_groups slot_offset
  write_groups-file_each laws fuel calls t [] buffer on small fit64 enough vs = refl
  write_groups-file_each laws zero calls t (first ∷ spans) buffer on small fit64 enough vs =
      absurd (ground arith)
  write_groups-file_each laws (suc fuel) calls t (first ∷ spans) buffer on small fit64 enough
        (v, vs) =
      let g =
        gather-IsGathered o laws t buffer first first.bytes first spans on small fit64 v refl
          v.buffered vs in
      let shorter = g.shorter in
      let x =
        o.pwrite t.file (slot_offset t (slot_index first.slot))
          (slice first.buffer_offset g.total buffer) in
      ap
        (λ c.
          c
          >> (gather t (length buffer) first first.bytes first spans
              >>= grouped fuel t first buffer calls)
          >>= λ r. ok r.0)
        (check_span-ok t (length buffer) first on small v)
      ∙ ap (λ c. c >>= grouped fuel t first buffer calls >>= λ r. ok r.0) g.ran
      ∙ after_write x (λ f. write_groups o fuel (record t { file = f }) g.rest buffer (calls + 1))
          (λ f. or_throw (file_each o t buffer g.rest f) >>= with_file t)
          (λ f.
            write_groups-file_each laws fuel (calls + 1) (record t { file = f }) g.rest buffer on
              small fit64 (omega arith) g.valid)
      ∙ then_file t x (file_each o t buffer g.rest)
      ∙ ap (λ y. or_throw y >>= with_file t) (g.same t.file)

  -- If the tier is enabled and writable, the bytes of its slots and of the buffer are counted in 64
  -- bits, and each span is of a slot that it fits and lies in the buffer, then `write_spans` does to
  -- the tier what `write_slot` of each span in turn does, and throws exactly if that does.
  pub write_spans-write_each :
      (laws : AppendLaw o) (t : NvmeKvTier F) (spans : List NvmeIoSpan) (buffer : List ℕ)
      → enabled t ≡ true
      → t.cfg.read_only ≡ false
      → length buffer < u64_mod
      → t.slot_count * t.cfg.slot_bytes ≤ u64_mod
      → All (IsSpan t.cfg.slot_bytes t.slot_count (length buffer)) spans
      → (write_spans o t spans buffer >>= λ r. ok r.0) ≡ write_each t spans buffer
  unfolding write_spans
  write_spans-write_each laws t spans buffer on writable small fit64 vs =
      ap
        (λ b.
          throw_if b Error.attached_read_only
          >> write_groups o (length spans) t spans buffer 0
          >>= λ r. ok r.0)
        writable
      ∙ write_groups-file_each laws (length spans) 0 t spans buffer on small fit64 (omega arith) vs
      ∙ sym (write_each-file_each t spans buffer on writable vs)
