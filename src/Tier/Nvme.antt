-- ===== src/Tier/Nvme.antt =====
-- The SSD tier, kvmem/include/kvmem/nvme_kv_tier.hpp: slot bookkeeping and checked input and output
-- on a file. The file is a parameter. Slots, the free list, the order and the map are kept as in
-- Tier/Pinned. A data pointer is the bytes it points to; a throw's effect on the tier is left out.
pub mod Invariant
pub mod Data
pub mod Separate
pub mod History
pub mod Room
pub mod Spans
use kvmem_test.Common.{
  ℕ, zero, suc, ◌+◌, ◌-◌, ◌*◌, ◌/◌, ◌%◌, ℤ, pos, negsuc, Bool, true, false, not, ◌&&◌, ◌||◌, List,
  [], ◌∷◌, ◌++◌, leb, ltb, ◌==◌, if◌then◌else◌, range, length, Option, some, none, u32_mod, u64_mod,
  add64, int32_of_bits, is_nonneg, Error, Result, ok, throw, throw_if, ◌>>=◌, ◌>>◌,
}
use kvmem_test.Tier.Pinned.{find, erase, assign, erase_first}

-- What the tier uses of a file: `pwrite` and `pread` until all bytes are done; `none` is an error.
pub record FileOps (F : Type 0) : Type 0 where
  pub pwrite : F → ℕ → List ℕ → Option F
  pub pread : F → ℕ → ℕ → Option (List ℕ)

pub record NvmeKvTierConfig : Type 0 where
  pub total_bytes : ℕ
  pub slot_bytes : ℕ
  pub direct_mapped : Bool
  pub read_only : Bool

pub record NvmeSlotPlacement : Type 0 where
  pub slot : ℤ
  pub evicted_block : ℤ

pub record NvmeKvTier (F : Type 0) : Type 0 where
  pub cfg : NvmeKvTierConfig
  pub slot_count : ℕ
  pub is_open : Bool
  pub file : F
  pub free_slots : List ℕ
  pub block_to_slot : List (ℕ × ℕ)
  pub lru : List ℕ

abbrev pub no_placement : NvmeSlotPlacement
no_placement = record { slot = negsuc 0; evicted_block = negsuc 0 }

abbrev pub placed_at : ℕ → NvmeSlotPlacement
placed_at slot = record { slot = int32_of_bits slot; evicted_block = negsuc 0 }

unfoldable pub slots_of : NvmeKvTierConfig → ℕ
slots_of c =
    if ltb 0 c.slot_bytes && leb c.slot_bytes c.total_bytes
    then (c.total_bytes / c.slot_bytes) % u32_mod
    else 0

-- for (id = begin; id < end && id < slot_count_; ++id), `n` rounds from `id` on.
unfoldable pub present_from : ℕ → ℕ → List (ℕ × ℕ) → List (ℕ × ℕ)
unfolding assign
present_from id zero m = m
present_from id (suc n) m = present_from (id + 1) n (assign id id m)

abbrev pub is_empty : List ℕ → Bool
is_empty [] = true
is_empty (x ∷ xs) = false

abbrev pub outside : ℤ → ℕ → Bool
outside (pos slot) n = leb n slot
outside (negsuc _) n = true

abbrev pub slot_index : ℤ → ℕ
slot_index (pos slot) = slot
slot_index (negsuc _) = 0

-- A result of the file, or the exception of its error.
abbrev pub or_throw : {A : Type 0} → Option A → Result A
or_throw none = throw Error.io_failed
or_throw (some a) = ok a

module _ {F : Type 0} where
  -- The constructor's bookkeeping; `file` is what opening gave, in a directory that is not empty.
  unfoldable pub new_tier : NvmeKvTierConfig → F → NvmeKvTier F
  unfolding slots_of
  new_tier c file = record {
    cfg = c;
    slot_count = slots_of c;
    is_open = not (slots_of c == 0);
    file = file;
    free_slots = if c.direct_mapped then [] else range 0 (slots_of c);
    block_to_slot = [];
    lru = [];
  }

  abbrev pub enabled : NvmeKvTier F → Bool
  enabled t = t.is_open && ltb 0 t.slot_count

  unfoldable pub block_slot : NvmeKvTier F → ℕ → ℤ
  unfolding find
  block_slot t block_id = elim (find block_id t.block_to_slot) [
    | none ↦ negsuc 0
    | some slot ↦ int32_of_bits slot
  ]

  unfoldable pub mark_present_range : NvmeKvTier F → ℕ → ℕ → Result (NvmeKvTier F)
  unfolding present_from
  mark_present_range t start end =
      let stop = if ltb t.slot_count end then t.slot_count else end in
      throw_if (not t.cfg.direct_mapped) Error.not_direct_mapped
      >> ok (record t { block_to_slot = present_from start (stop - start) t.block_to_slot })

  unfoldable pub erase_lru_locked : NvmeKvTier F → ℕ → NvmeKvTier F
  unfolding erase_first
  erase_lru_locked t block_id =
      if t.cfg.direct_mapped then t else record t { lru = erase_first block_id t.lru }

  unfoldable pub touch_locked : NvmeKvTier F → ℕ → NvmeKvTier F
  unfolding erase_lru_locked
  touch_locked t block_id =
      let t' = erase_lru_locked t block_id in
      if t.cfg.direct_mapped then t else record t' { lru = t'.lru ++ block_id ∷ [] }

  abbrev pub touch : NvmeKvTier F → ℕ → NvmeKvTier F
  touch t block_id = touch_locked t block_id

  -- The block becomes the holder of the slot, and the last one used.
  unfoldable pub admit : NvmeKvTier F → ℕ → ℕ → NvmeKvTier F
  unfolding touch_locked assign
  admit t block_id slot =
      touch_locked (record t { block_to_slot = assign block_id slot t.block_to_slot }) block_id

  unfoldable pub place_free : NvmeKvTier F → ℕ → List ℕ → NvmeKvTier F × NvmeSlotPlacement
  unfolding admit
  place_free t block_id [] = (t, no_placement)
  place_free t block_id (slot ∷ rest) =
      (admit (record t { free_slots = rest }) block_id slot, placed_at slot)

  unfoldable pub place_mapped : NvmeKvTier F → ℕ → NvmeKvTier F × NvmeSlotPlacement
  unfolding assign
  place_mapped t block_id = if leb t.slot_count block_id then (t, no_placement) else (
    record t { block_to_slot = assign block_id block_id t.block_to_slot },
    placed_at block_id,
  )

  unfoldable pub place_block_locked : NvmeKvTier F → ℕ → NvmeKvTier F × NvmeSlotPlacement
  unfolding place_mapped find touch_locked place_free
  place_block_locked t block_id =
      if t.cfg.direct_mapped
      then place_mapped t block_id
      else elim (find block_id t.block_to_slot) [
        | some slot ↦ (touch_locked t block_id, placed_at slot)
        | none ↦ place_free t block_id t.free_slots
      ]

  abbrev pub place_block : NvmeKvTier F → ℕ → NvmeKvTier F × NvmeSlotPlacement
  place_block t block_id = place_block_locked t block_id

  -- The slot of the front of the order passes to the block.
  unfoldable pub evict_front : NvmeKvTier F → ℕ → List ℕ → NvmeKvTier F × NvmeSlotPlacement
  unfolding find erase erase_lru_locked admit
  evict_front t block_id [] = (t, no_placement)
  evict_front t block_id (victim ∷ rest) = elim (find victim t.block_to_slot) [
    | none ↦ (erase_lru_locked t victim, no_placement)
    | some slot ↦ (
      admit (erase_lru_locked (record t { block_to_slot = erase victim t.block_to_slot }) victim)
          block_id slot,
      record { slot = int32_of_bits slot; evicted_block = int32_of_bits victim },
    )
  ]

  unfoldable pub evict_if_full :
      ℕ → NvmeKvTier F × NvmeSlotPlacement → NvmeKvTier F × NvmeSlotPlacement
  unfolding evict_front
  evict_if_full block_id (t, out) =
      if is_nonneg out.slot || not (is_empty t.free_slots)
      then (t, out)
      else evict_front t block_id t.lru

  unfoldable pub place_block_evicting : NvmeKvTier F → ℕ → NvmeKvTier F × NvmeSlotPlacement
  unfolding place_block_locked evict_if_full
  place_block_evicting t block_id = evict_if_full block_id (place_block_locked t block_id)

  unfoldable pub release_block : NvmeKvTier F → ℕ → NvmeKvTier F
  unfolding find erase erase_lru_locked
  release_block t block_id = elim (find block_id t.block_to_slot) [
    | none ↦ t
    | some slot ↦
        erase_lru_locked
          (record t {
            free_slots = if t.cfg.direct_mapped then t.free_slots else slot ∷ t.free_slots;
            block_to_slot = erase block_id t.block_to_slot;
          })
          block_id
  ]

  unfoldable pub clear : NvmeKvTier F → NvmeKvTier F
  clear t = record t {
    free_slots = if t.cfg.direct_mapped then [] else range 0 t.slot_count;
    block_to_slot = [];
    lru = [];
  }

  unfoldable pub free_slot_count : NvmeKvTier F → ℕ
  free_slot_count t =
      if t.cfg.direct_mapped then t.slot_count - length t.block_to_slot else length t.free_slots

  unfoldable pub lru_victim : NvmeKvTier F → ℤ
  lru_victim t = elim t.lru [ [] ↦ negsuc 0 | victim ∷ rest ↦ int32_of_bits victim ]

  unfoldable pub slot_offset : NvmeKvTier F → ℕ → ℕ
  slot_offset t slot = (slot * t.cfg.slot_bytes) % u64_mod

  unfoldable pub validate_io : NvmeKvTier F → ℕ → Result (Unit {0})
  validate_io t bytes = do
    throw_if (not (enabled t)) Error.tier_disabled
    throw_if (ltb t.cfg.slot_bytes bytes) Error.exceeds_slot_size

  unfoldable pub validate_slot_range_io : NvmeKvTier F → ℤ → ℕ → ℕ → Result (Unit {0})
  unfolding validate_io
  validate_slot_range_io t slot slot_byte_offset bytes = do
    validate_io t bytes
    throw_if (outside slot t.slot_count) Error.invalid_slot
    throw_if
        (ltb t.cfg.slot_bytes slot_byte_offset || ltb (t.cfg.slot_bytes - slot_byte_offset) bytes)
        Error.range_exceeds_slot_size

  module _ (o : FileOps F) where
    unfoldable pub write_slot_range : NvmeKvTier F → ℤ → ℕ → List ℕ → Result (NvmeKvTier F)
    unfolding validate_slot_range_io slot_offset
    write_slot_range t slot slot_byte_offset data' = do
      throw_if t.cfg.read_only Error.attached_read_only
      validate_slot_range_io t slot slot_byte_offset (length data')
      file ←
          or_throw
            (o.pwrite t.file (add64 (slot_offset t (slot_index slot)) slot_byte_offset) data')
      ok (record t { file = file })

    unfoldable pub write_slot : NvmeKvTier F → ℤ → List ℕ → Result (NvmeKvTier F)
    unfolding write_slot_range
    write_slot t slot data' = write_slot_range t slot 0 data'

    unfoldable pub read_slot_range : NvmeKvTier F → ℤ → ℕ → ℕ → Result (List ℕ)
    unfolding validate_slot_range_io slot_offset
    read_slot_range t slot slot_byte_offset bytes = do
      validate_slot_range_io t slot slot_byte_offset bytes
      or_throw (o.pread t.file (add64 (slot_offset t (slot_index slot)) slot_byte_offset) bytes)

    unfoldable pub read_slot : NvmeKvTier F → ℤ → ℕ → Result (List ℕ)
    unfolding read_slot_range
    read_slot t slot bytes = read_slot_range t slot 0 bytes

    unfoldable pub write_block : NvmeKvTier F → ℕ → List ℕ → Result (NvmeKvTier F)
    unfolding validate_io place_block_locked write_slot touch_locked
    write_block t block_id data' = do
      validate_io t (length data')
      let (t', p) = place_block t block_id
      throw_if (not (is_nonneg p.slot)) Error.tier_full
      t'' ← write_slot t' p.slot data'
      ok (touch_locked t'' block_id)

    unfoldable pub read_block : NvmeKvTier F → ℕ → ℕ → Result (NvmeKvTier F × List ℕ)
    unfolding validate_io block_slot read_slot touch_locked
    read_block t block_id bytes = do
      validate_io t bytes
      throw_if (not (is_nonneg (block_slot t block_id))) Error.not_resident
      data' ← read_slot t (block_slot t block_id) bytes
      ok (touch_locked t block_id, data')
