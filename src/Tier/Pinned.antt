-- ===== src/Tier/Pinned.antt =====
-- The slot bookkeeping of the host-memory tier, kvmem/include/kvmem/pinned_kv_tier.hpp. A slot is
-- kept as the 32-bit pattern of its `int32_t`. The free list stands with its back first; the front
-- of `lru_` is the least recently used block. The hash maps are association lists.
pub mod Count
pub mod Invariant
pub mod Evict
pub mod Places
pub mod History
use kvmem_test.Common.{
  ℕ, zero, suc, ◌+◌, ◌-◌, ◌/◌, ◌%◌, ℤ, pos, negsuc, Bool, true, false, ◌&&◌, ◌||◌, List, [], ◌∷◌,
  ◌++◌, leb, ltb, ◌==◌, if◌then◌else◌, range, Option, some, none, add32, add64, u32_mod,
  int32_of_bits, is_nonneg,
}

pub data PinnedKvCachePolicy : Type 0 where
  legacy_lru heat_aware : PinnedKvCachePolicy

abbrev pub is_heat_aware : PinnedKvCachePolicy → Bool
is_heat_aware PinnedKvCachePolicy.legacy_lru = false
is_heat_aware PinnedKvCachePolicy.heat_aware = true

pub record PinnedKvTierConfig : Type 0 where
  pub total_bytes : ℕ
  pub slot_bytes : ℕ
  pub cache_policy : PinnedKvCachePolicy
  pub heat_half_life_epochs : ℕ

pub record PinnedSlotPlacement : Type 0 where
  pub slot : ℤ
  pub evicted_block : ℤ

pub record PinnedKvCacheStats : Type 0 where
  pub selection_epochs : ℕ
  pub admissions : ℕ
  pub admission_rejections : ℕ
  pub evictions : ℕ

abbrev pub no_stats : PinnedKvCacheStats
no_stats = record { selection_epochs = 0; admissions = 0; admission_rejections = 0; evictions = 0 }

-- The operations and literals of `double` that the heat uses.
pub record HeatOps (D : Type 0) : Type 0 where
  pub zero : D
  pub one : D
  pub hundredth : D
  pub quarter : D
  pub add : D → D → D
  pub mul : D → D → D
  pub div : D → D → D
  pub neg : D → D
  pub exp2 : D → D
  pub lt : D → D → Bool
  pub le : D → D → Bool
  pub of_ℕ : ℕ → D

pub record Heat (D : Type 0) : Type 0 where
  pub frequency : D
  pub last_epoch : ℕ
  pub consecutive : ℕ

pub record PinnedKvTier (D : Type 0) : Type 0 where
  pub cfg : PinnedKvTierConfig
  pub slot_count : ℕ
  pub free_slots : List ℕ
  pub block_to_slot : List (ℕ × ℕ)
  pub lru : List ℕ
  pub heat : List (ℕ × Heat D)
  pub selection_epoch : ℕ
  pub stats : PinnedKvCacheStats

module _ {ℓ} {A : Type ℓ} where
  unfoldable pub find : ℕ → List (ℕ × A) → Option A
  find k [] = none
  find k ((j, v) ∷ m) = if j == k then some v else find k m

  unfoldable pub erase : ℕ → List (ℕ × A) → List (ℕ × A)
  erase k [] = []
  erase k ((j, v) ∷ m) = let rest = erase k m in if j == k then m else (j, v) ∷ rest

  -- m[k] = v
  unfoldable pub assign : ℕ → A → List (ℕ × A) → List (ℕ × A)
  unfolding erase
  assign k v m = (k, v) ∷ erase k m

unfoldable pub erase_first : ℕ → List ℕ → List ℕ
erase_first x [] = []
erase_first x (y ∷ ys) = let rest = erase_first x ys in if y == x then ys else y ∷ rest

-- full: the slot stays -1
abbrev pub no_placement : PinnedSlotPlacement
no_placement = record { slot = negsuc 0; evicted_block = negsuc 0 }

abbrev pub placed_at : ℕ → PinnedSlotPlacement
placed_at slot = record { slot = int32_of_bits slot; evicted_block = negsuc 0 }

unfoldable pub slots_of : PinnedKvTierConfig → ℕ
slots_of c =
    if ltb 0 c.slot_bytes && leb c.slot_bytes c.total_bytes
    then (c.total_bytes / c.slot_bytes) % u32_mod
    else 0

module _ {D : Type 0} where
  unfoldable pub new_tier : PinnedKvTierConfig → PinnedKvTier D
  unfolding slots_of
  new_tier c = record {
    cfg = c;
    slot_count = slots_of c;
    free_slots = range 0 (slots_of c);
    block_to_slot = [];
    lru = [];
    heat = [];
    selection_epoch = 0;
    stats = no_stats;
  }

  unfoldable pub block_slot : PinnedKvTier D → ℕ → ℤ
  unfolding find
  block_slot t block_id = elim (find block_id t.block_to_slot) [
    | none ↦ negsuc 0
    | some slot ↦ int32_of_bits slot
  ]

  unfoldable pub erase_lru : PinnedKvTier D → ℕ → PinnedKvTier D
  unfolding erase_first
  erase_lru t block_id = record t { lru = erase_first block_id t.lru }

  unfoldable pub touch : PinnedKvTier D → ℕ → PinnedKvTier D
  unfolding erase_lru
  touch t block_id = let t' = erase_lru t block_id in record t' { lru = t'.lru ++ block_id ∷ [] }

  -- The block gets a slot that is not in use.
  unfoldable pub admit : PinnedKvTier D → ℕ → ℕ → PinnedKvTier D
  unfolding touch assign
  admit t block_id slot =
      let t' = touch (record t { block_to_slot = assign block_id slot t.block_to_slot }) block_id in
      record t' { stats = record (t'.stats) { admissions = add64 t'.stats.admissions 1 } }

  unfoldable pub place_free : PinnedKvTier D → ℕ → List ℕ → PinnedKvTier D × PinnedSlotPlacement
  unfolding admit
  place_free t block_id [] = (t, no_placement)
  place_free t block_id (slot ∷ rest) =
      (admit (record t { free_slots = rest }) block_id slot, placed_at slot)

  unfoldable pub place_block : PinnedKvTier D → ℕ → PinnedKvTier D × PinnedSlotPlacement
  unfolding find place_free
  place_block t block_id = elim (find block_id t.block_to_slot) [
    | some slot ↦ (t, placed_at slot)
    | none ↦ place_free t block_id t.free_slots
  ]

  module _ (o : HeatOps D) where
    unfoldable pub decay_to_current : PinnedKvTier D → Heat D → Heat D
    decay_to_current t h =
        let elapsed = o.of_ℕ (t.selection_epoch - h.last_epoch) in
        let halves = o.div elapsed (o.of_ℕ t.cfg.heat_half_life_epochs) in
        let frequency = o.mul h.frequency (o.exp2 (o.neg halves)) in
        if o.le h.frequency o.zero
          || leb t.selection_epoch h.last_epoch
          || (t.cfg.heat_half_life_epochs == 0)
        then h
        else record h { frequency = if o.lt frequency o.hundredth then o.zero else frequency }

    unfoldable pub effective_heat : PinnedKvTier D → ℕ → D
    unfolding find decay_to_current
    effective_heat t block_id = elim (find block_id t.heat) [
      | none ↦ o.zero
      | some h ↦
          let h' = decay_to_current t h in
          o.add h'.frequency (o.mul o.quarter (o.of_ℕ h'.consecutive))
    ]

    -- The slot of the victim passes to the block.
    unfoldable pub evict : PinnedKvTier D → ℕ → ℕ → ℕ → PinnedKvTier D × PinnedSlotPlacement
    unfolding erase erase_lru admit
    evict t block_id victim slot =
        let t₁ = erase_lru (record t { block_to_slot = erase victim t.block_to_slot }) victim in
        let t₂ = admit t₁ block_id slot in
        (
          record t₂ { stats = record (t₂.stats) { evictions = add64 t₂.stats.evictions 1 } },
          record { slot = int32_of_bits slot; evicted_block = int32_of_bits victim },
        )

    unfoldable pub replace_front :
        PinnedKvTier D → ℕ → List ℕ → PinnedKvTier D × PinnedSlotPlacement
    unfolding effective_heat find evict erase_lru
    replace_front t block_id [] = (t, no_placement)
    replace_front t block_id (victim ∷ rest) =
        if is_heat_aware t.cfg.cache_policy
          && o.lt (effective_heat t block_id) (effective_heat t victim)
        then (
          record t {
            stats = record (t.stats) {
              admission_rejections = add64 t.stats.admission_rejections 1;
            };
          },
          no_placement,
        )
        else elim (find victim t.block_to_slot) [
          | none ↦ (erase_lru t victim, no_placement)
          | some slot ↦ evict t block_id victim slot
        ]

    unfoldable pub replace_lru : PinnedKvTier D → ℕ → PinnedKvTier D × PinnedSlotPlacement
    unfolding replace_front
    replace_lru t block_id = replace_front t block_id t.lru

    unfoldable pub place_block_replacing : PinnedKvTier D → ℕ → PinnedKvTier D × PinnedSlotPlacement
    unfolding find touch replace_lru
    place_block_replacing t block_id = elim (find block_id t.block_to_slot) [
      | some slot ↦ (touch t block_id, placed_at slot)
      | none ↦ replace_lru t block_id
    ]

    unfoldable pub place_or_replace :
        PinnedKvTier D → ℕ → List ℕ → PinnedKvTier D × PinnedSlotPlacement
    unfolding place_block replace_lru
    place_or_replace t block_id [] = replace_lru t block_id
    place_or_replace t block_id (slot ∷ rest) = place_block t block_id

    unfoldable pub place_block_evicting : PinnedKvTier D → ℕ → PinnedKvTier D × PinnedSlotPlacement
    unfolding find touch place_or_replace
    place_block_evicting t block_id = elim (find block_id t.block_to_slot) [
      | some slot ↦ (touch t block_id, placed_at slot)
      | none ↦ place_or_replace t block_id t.free_slots
    ]

    unfoldable pub begin_selection_epoch : PinnedKvTier D → PinnedKvTier D
    begin_selection_epoch t = record t {
      selection_epoch = add64 t.selection_epoch 1;
      stats = record (t.stats) { selection_epochs = add64 t.stats.selection_epochs 1 };
    }

    abbrev pub heat_at : PinnedKvTier D → ℕ → Heat D
    heat_at t block_id = elim (find block_id t.heat) [
      | none ↦ record { frequency = o.zero; last_epoch = 0; consecutive = 0 }
      | some h ↦ h
    ]

    unfoldable pub record_selected : PinnedKvTier D → ℕ → PinnedKvTier D
    unfolding decay_to_current assign block_slot touch
    record_selected t block_id =
        let h = decay_to_current t (heat_at t block_id) in
        let h' = record h {
          consecutive =
              if add64 h.last_epoch 1 == t.selection_epoch then add32 h.consecutive 1 else 1;
          frequency = o.add h.frequency o.one;
          last_epoch = t.selection_epoch;
        } in
        let t' = record t { heat = assign block_id h' t.heat } in
        if is_nonneg (block_slot t' block_id) then touch t' block_id else t'

  unfoldable pub release_block : PinnedKvTier D → ℕ → PinnedKvTier D
  unfolding find erase erase_lru
  release_block t block_id = elim (find block_id t.block_to_slot) [
    | none ↦ t
    | some slot ↦
        erase_lru
          (record t {
            free_slots = slot ∷ t.free_slots;
            block_to_slot = erase block_id t.block_to_slot;
          })
          block_id
  ]

  unfoldable pub lru_victim : PinnedKvTier D → ℤ
  lru_victim t = elim t.lru [ [] ↦ negsuc 0 | victim ∷ rest ↦ int32_of_bits victim ]

  unfoldable pub clear : PinnedKvTier D → PinnedKvTier D
  clear t = record t {
    free_slots = range 0 t.slot_count;
    block_to_slot = [];
    lru = [];
    heat = [];
    selection_epoch = 0;
    stats = no_stats;
  }
