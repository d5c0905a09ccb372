-- ===== src/Adapter/Slots.antt =====
-- The GPU slots of src/adapter/llama-memory-kvmem.cpp. The vector `free_slots_`, whose back is
-- popped, is a list with its back first.
pub mod Draft
use kvmem_test.Common.{
  ℕ, zero, suc, ◌+◌, ◌/◌, ℤ, pos, negsuc, Bool, ◌&&◌, Option, none, some, List, [], ◌∷◌, ◌==◌, ltb,
  leb, if◌then◌else◌, get_elem?, add32, sub32, mul32, is_nonneg,
}
use kvmem_test.Store.Types.{KvMemBlock, KvMemStore}
use kvmem_test.Store.Table.{block_id_containing}

-- Slots `lo` to `lo + n - 1`, the lowest at the back of the vector.
unfoldable pub slots_from : ℕ → ℕ → List ℤ
slots_from lo zero = []
slots_from lo (suc n) = pos lo ∷ slots_from (lo + 1) n

unfoldable pub reset_slots : ℕ → List ℤ
unfolding slots_from
reset_slots n_slots = slots_from 0 n_slots

-- The slot, -1 if there is none, and the slots that are left.
unfoldable pub alloc_slot : List ℤ → ℤ × List ℤ
alloc_slot [] = (negsuc 0, [])
alloc_slot (slot ∷ slots) = (slot, slots)

unfoldable pub free_slot : List ℤ → ℤ → List ℤ
free_slot slots (negsuc n) = slots
free_slot slots (pos n) = pos n ∷ slots

unfoldable pub peek_free_slot : List ℤ → ℤ
peek_free_slot [] = negsuc 0
peek_free_slot (slot ∷ slots) = slot

abbrev pub last_block : {D : Type 0} → List (KvMemBlock D) → Option (KvMemBlock D)
last_block [] = none
last_block (b ∷ []) = some b
last_block (b ∷ c ∷ bs) = last_block (c ∷ bs)

module _ {D : Type 0} where
  -- The test that a position past the table falls into the last block's room.
  abbrev pub has_room : ℕ → ℕ → KvMemBlock D → Bool
  has_room bt p b =
      is_nonneg b.gpu_slot && leb b.orig_pos_start p && ltb p (add32 b.orig_pos_start bt)

  -- A position past the table: the last block's slot while it has room, else the next free slot.
  unfoldable pub place_past : List ℤ → ℕ → ℕ → Option (KvMemBlock D) → Option (ℤ × ℕ)
  unfolding peek_free_slot
  place_past free bt p last =
      let off = sub32 p (mul32 (p / bt) bt) in
      let slot = peek_free_slot free in
      let fresh = if is_nonneg slot && ltb off bt then some (slot, off) else none in
      elim last [
        | none ↦ fresh
        | some b ↦ if has_room bt p b then some (b.gpu_slot, sub32 p b.orig_pos_start) else fresh
      ]

  abbrev pub slot_in : ℕ → ℕ → KvMemBlock D → Option (ℤ × ℕ)
  slot_in bt p b =
      let off = sub32 p b.orig_pos_start in
      if is_nonneg b.gpu_slot && ltb off bt then some (b.gpu_slot, off) else none

  -- The slot and the offset of a position, `none` for `false`. The block number that
  -- `block_id_containing` gives is in range, so the other case of the look-up does not arise.
  unfoldable pub slot_for_orig_pos : KvMemStore D → List ℤ → ℕ → ℤ → Option (ℤ × ℕ)
  unfolding place_past
  slot_for_orig_pos s free bt (negsuc n) = none
  slot_for_orig_pos s free bt (pos p) = if bt == 0 then none else elim (block_id_containing s p) [
    | negsuc n ↦ place_past free bt p (last_block s.blocks)
    | pos id ↦ elim (get_elem? s.blocks id) [ none ↦ none | some b ↦ slot_in bt p b ]
  ]

  unfoldable pub resident_tokens : List (KvMemBlock D) → ℕ
  resident_tokens [] = 0
  resident_tokens (b ∷ bs) =
      let rest = resident_tokens bs in if is_nonneg b.gpu_slot then add32 b.n_tokens rest else rest
