-- ===== src/Tests/Ssd.antt =====
-- The SSD tier on a file in memory: two slots of four bytes.
use kvmem_test.Common.{
  throw, Error, ◌↔◌, ℕ, zero, suc, ◌+◌, ◌≤◌, ◌<◌, ◌≡◌, ◌⊎◌, refl, ap, ◌∙◌, List, [], ◌∷◌, length,
  inl, inr, true, false, some, ◌==◌, if◌then◌else◌, arith, ok, ◌>>=◌,
}
use kvmem_test.Tier.Pinned.{find, erase, assign, erase_first}
use kvmem_test.Tier.Nvme.{
  enabled, FileOps, NvmeKvTier, NvmeKvTierConfig, new_tier, slots_of, touch_locked,
  place_block_evicting, write_slot, write_slot_range, place_block_locked, evict_if_full,
  release_block, place_free, admit, erase_lru_locked, validate_io, validate_slot_range_io,
  slot_offset, write_block, read_block,
}
use kvmem_test.Tier.Nvme.Invariant.{IsPool, new_tier-IsPool, place_block_evicting-IsPool}
use kvmem_test.Tier.Nvme.Data.{FileLaws, write_block-read_block}
use kvmem_test.Tier.Nvme.Separate.{write_block-read_other}
use kvmem_test.Tier.Nvme.History.{NvmeCall, nvme_step, run_nvme, run_nvme-IsPool, AllAllowed}
use kvmem_test.Tier.Nvme.Room.{HasRoom, write_block-returns}
use kvmem_test.Common.{◌++◌, sym, Bool-cases, pos}
use kvmem_test.Tier.Nvme.Spans.{NvmeIoSpan, write_spans}
use kvmem_test.Tier.Nvme.Spans.Merge.{AppendLaw}
use kvmem_test.Tier.Nvme.Spans.Each.{write_each, write_spans-write_each}

abbrev pub Bytes : Type 0
Bytes = ℕ → ℕ

unfoldable pub write : Bytes → ℕ → List ℕ → Bytes
write f offset [] i = f i
write f offset (d ∷ ds) i = let rest = write f (offset + 1) ds i in if i == offset then d else rest

unfoldable pub read : Bytes → ℕ → ℕ → List ℕ
read f start zero = []
read f start (suc n) = f start ∷ read f (start + 1) n

abbrev pub memory : FileOps Bytes
memory = record {
  pwrite = λ f offset data'. some (write f offset data');
  pread = λ f start bytes. some (read f start bytes);
}

write_outside :
    (f : Bytes) (offset : ℕ) (ds : List ℕ) (i : ℕ)
    → (i < offset) ⊎ (offset + length ds ≤ i)
    → write f offset ds i ≡ f i
unfolding write
write_outside f offset [] i h = refl
write_outside f offset (d ∷ ds) i (inl h) =
    let other : (i == offset) ≡ false = ground arith in
    rw other (write_outside f (offset + 1) ds i (inl (omega arith)))
write_outside f offset (d ∷ ds) i (inr h) =
    let other : (i == offset) ≡ false = ground arith in
    rw other (write_outside f (offset + 1) ds i (inr (omega arith)))

read_agree :
    (f g : Bytes) (start n : ℕ)
    → ((i : ℕ) → start ≤ i → i < start + n → f i ≡ g i)
    → read f start n ≡ read g start n
unfolding read
read_agree f g start zero h = refl
read_agree f g start (suc n) h =
    rw
      (
        h start (omega arith) (omega arith),
        read_agree f g (start + 1) n (λ i a b. h i (omega arith) (omega arith)),
      )
      refl

write_inside :
    (f : Bytes) (offset : ℕ) (ds : List ℕ) → read (write f offset ds) offset (length ds) ≡ ds
unfolding write read
write_inside f offset [] = refl
write_inside f offset (d ∷ ds) =
    let same : (offset == offset) ≡ true = ground arith in
    let rest : read (write f offset (d ∷ ds)) (offset + 1) (length ds) ≡ ds =
      read_agree (write f offset (d ∷ ds)) (write f (offset + 1) ds) (offset + 1) (length ds)
        (λ i a b. let other : (i == offset) ≡ false = ground arith in rw other refl)
      ∙ write_inside f (offset + 1) ds in
    rw (same, rest) refl

memory_reads :
    (f f' : Bytes) (offset : ℕ) (data' : List ℕ)
    → memory.pwrite f offset data' ≡ some f'
    → memory.pread f' offset (length data') ≡ some data'
memory_reads f f' offset data' h =
    let same : write f offset data' ≡ f' = cc in rw (← same, write_inside f offset data') refl

memory_reads_other :
    (f f' : Bytes) (offset : ℕ) (data' : List ℕ) (start bytes : ℕ)
    → memory.pwrite f offset data' ≡ some f'
    → (start + bytes ≤ offset) ⊎ (offset + length data' ≤ start)
    → memory.pread f' start bytes ≡ memory.pread f start bytes
memory_reads_other f f' offset data' start bytes h (inl apart) =
    let same : write f offset data' ≡ f' = cc in
    rw (← same) (
      ap some (
        read_agree (write f offset data') f start bytes
          (λ i a b. write_outside f offset data' i (inl (omega arith)))))
memory_reads_other f f' offset data' start bytes h (inr apart) =
    let same : write f offset data' ≡ f' = cc in
    rw (← same) (
      ap some (
        read_agree (write f offset data') f start bytes
          (λ i a b. write_outside f offset data' i (inr (omega arith)))))

pub memory_laws : FileLaws memory
memory_laws = record { read_written = memory_reads; read_other = memory_reads_other }

abbrev pub two_slots : NvmeKvTierConfig
two_slots = record { total_bytes = 9; slot_bytes = 4; direct_mapped = false; read_only = false }

abbrev pub blank : NvmeKvTier Bytes
blank = new_tier two_slots (λ i. 0)

pub blank-IsPool : IsPool blank
unfolding slots_of
blank-IsPool = new_tier-IsPool two_slots (λ i. 0) refl (ground arith)

place_block_evicting-IsPool_example : IsPool (place_block_evicting blank 7).0
place_block_evicting-IsPool_example = place_block_evicting-IsPool blank 7 blank-IsPool

abbrev calls : List NvmeCall
calls =
    NvmeCall.writes 5 (4 ∷ 5 ∷ [])
    ∷ NvmeCall.touches 5
    ∷ NvmeCall.evicts 9
    ∷ NvmeCall.releases 9
    ∷ []

calls_allowed : AllAllowed memory blank calls
unfolding AllAllowed nvme_step write_block write_slot write_slot_range place_block_locked
    place_block_evicting evict_if_full release_block place_free admit touch_locked erase_lru_locked
    erase_first assign find erase validate_io validate_slot_range_io slot_offset new_tier slots_of
calls_allowed = (tt, ((0, refl), (tt, (tt, tt))))

-- Block 5 has been written, to slot 0.
abbrev pub one_written : NvmeKvTier Bytes
one_written = record {
  cfg = two_slots;
  slot_count = 2;
  is_open = true;
  file = write (λ i. 0) 0 (4 ∷ 5 ∷ []);
  free_slots = 1 ∷ [];
  block_to_slot = (5, 0) ∷ [];
  lru = 5 ∷ [];
}

pub one_written-IsPool : IsPool one_written
unfolding run_nvme nvme_step write_block write_slot write_slot_range place_block_locked
    place_block_evicting evict_if_full release_block place_free admit touch_locked erase_lru_locked
    erase_first assign find erase validate_io validate_slot_range_io slot_offset new_tier slots_of
one_written-IsPool =
    run_nvme-IsPool memory two_slots (λ i. 0) calls one_written refl (ground arith) calls_allowed
      refl

run_nvme-IsPool_example : IsPool one_written
unfolding run_nvme nvme_step write_block write_slot write_slot_range place_block_locked
    place_block_evicting evict_if_full release_block place_free admit touch_locked erase_lru_locked
    erase_first assign find erase validate_io validate_slot_range_io slot_offset new_tier slots_of
run_nvme-IsPool_example =
    run_nvme-IsPool memory two_slots (λ i. 0) calls one_written refl (ground arith) calls_allowed
      refl

-- Block 7 has been written after it, to slot 1.
abbrev two_written : NvmeKvTier Bytes
two_written = record one_written {
  file = write one_written.file 4 (1 ∷ 2 ∷ 3 ∷ []);
  free_slots = [];
  block_to_slot = (7, 1) ∷ (5, 0) ∷ [];
  lru = 5 ∷ 7 ∷ [];
}

seven_written : write_block memory one_written 7 (1 ∷ 2 ∷ 3 ∷ []) ≡ ok two_written
unfolding write_block write_slot write_slot_range place_block_locked place_free admit touch_locked
    erase_lru_locked erase_first assign find erase validate_io validate_slot_range_io slot_offset
seven_written = refl

write_block-read_block_example :
    (t'' : NvmeKvTier Bytes) × (read_block memory two_written 7 3 ≡ ok (t'', 1 ∷ 2 ∷ 3 ∷ []))
write_block-read_block_example =
    write_block-read_block memory memory_laws one_written two_written 7 (1 ∷ 2 ∷ 3 ∷ [])
      one_written-IsPool seven_written

write_block-read_other_example :
    (read_block memory two_written 5 4 >>= λ r. ok r.1)
    ≡ (read_block memory one_written 5 4 >>= λ r. ok r.1)
unfolding find
write_block-read_other_example =
    write_block-read_other memory memory_laws one_written two_written 7 5 0 4 (1 ∷ 2 ∷ 3 ∷ [])
      one_written-IsPool (ground arith) seven_written refl refl (ground arith)

write_block-returns_example :
    ((t' : NvmeKvTier Bytes) × (write_block memory one_written 7 (1 ∷ 2 ∷ 3 ∷ []) ≡ ok t')) ↔ (
      (enabled one_written ≡ true)
      × (one_written.cfg.read_only ≡ false)
      × (3 ≤ one_written.cfg.slot_bytes)
      × HasRoom memory one_written 7)
write_block-returns_example =
    write_block-returns memory one_written 7 (1 ∷ 2 ∷ 3 ∷ []) one_written-IsPool
      (λ f offset bytes. (write f offset bytes, refl))

-- A third block finds no room.
no_room : write_block memory two_written 8 (1 ∷ []) ≡ throw Error.tier_full
unfolding write_block place_block_locked place_free find validate_io
no_room = refl

write_base :
    (g h : Bytes) (offset : ℕ) (ds : List ℕ) (i : ℕ)
    → g i ≡ h i
    → write g offset ds i ≡ write h offset ds i
unfolding write
write_base g h offset [] i e = e
write_base g h offset (d ∷ ds) i e =
    ap (λ rest. if i == offset then d else rest) (write_base g h (offset + 1) ds i e)

write_append_at :
    (f : Bytes) (offset : ℕ) (xs ys : List ℕ) (i : ℕ)
    → write f offset (xs ++ ys) i ≡ write (write f offset xs) (offset + length xs) ys i
unfolding write
write_append_at f offset [] ys i =
    let same : offset ≡ offset + 0 = omega arith in ap (λ at. write f at ys i) same
write_append_at f offset (x ∷ xs) ys i =
    let next : offset + 1 + length xs ≡ offset + suc (length xs) = omega arith in
    let rest = write_append_at f (offset + 1) xs ys i in
    elim (Bool-cases (i == offset)) [
      | inl e ↦ rw e (
          sym (
            write_outside (write f offset (x ∷ xs)) (offset + suc (length xs)) ys i
              (inl (ground arith))
            ∙ rw e refl))
      | inr e ↦ rw e (
          rest
          ∙ ap (λ at. write (write f (offset + 1) xs) at ys i) next
          ∙ sym (
              write_base (write f offset (x ∷ xs)) (write f (offset + 1) xs)
                (offset + suc (length xs)) ys i (rw e refl)))
    ]

memory_append : AppendLaw memory
memory_append = record {
  write_append = λ f offset xs ys. ap some (λ j i. write_append_at f offset xs ys i j);
}

abbrev two_spans : List NvmeIoSpan
two_spans =
    record { slot = pos 0; buffer_offset = 0; bytes = 4 }
    ∷ record { slot = pos 1; buffer_offset = 4; bytes = 2 }
    ∷ []

abbrev six_bytes : List ℕ
six_bytes = 1 ∷ 2 ∷ 3 ∷ 4 ∷ 5 ∷ 6 ∷ []

write_spans-write_each_example :
    (write_spans memory blank two_spans six_bytes >>= λ r. ok r.0)
    ≡ write_each memory blank two_spans six_bytes
unfolding slots_of new_tier
write_spans-write_each_example =
    write_spans-write_each memory memory_append blank two_spans six_bytes refl refl (omega arith)
      (omega arith)
      (
        record { inside = refl; fits = omega arith; buffered = omega arith },
        (record { inside = refl; fits = omega arith; buffered = omega arith }, tt),
      )
