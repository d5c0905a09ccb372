-- ===== src/Tier/Nvme/Invariant.antt =====
-- The bookkeeping of the SSD tier keeps the invariant of a slot pool. Outside the direct-mapped mode
-- it is that of the host-memory tier, whose lemmas serve here.
use kvmem_test.Common.{
  ◌++◌, ◌≤◌, ◌<◌, ◌^◌, ℕ, ap, int32_of_bits, ◌≡◌, refl, List, [], ◌∷◌, true, false, Option-cases,
  inl, inr, some, none, is_nonneg, arith,
}
use kvmem_test.Tier.Pinned.{
  PinnedKvTier, PinnedKvCachePolicy, no_stats, find, erase, assign, erase_first, touch, erase_lru,
}
use kvmem_test.Tier.Pinned as Pinned
use kvmem_test.Tier.Pinned.Count.{find_erased, find-none}
use kvmem_test.Tier.Pinned.Invariant.{
  IsTier, HasSpare, touch-IsTier, admit-IsTier, release_spare, clear-IsTier,
}
use kvmem_test.Tier.Pinned.Places.{slot_in_range, int32_small}
use kvmem_test.Tier.Nvme.{
  NvmeKvTier, NvmeKvTierConfig, new_tier, slots_of, touch_locked, erase_lru_locked, admit,
  place_free, place_block_locked, evict_front, place_block_evicting, release_block, clear,
  evict_if_full, placed_at,
}

-- A slot of a pool of at most 2^31 slots is not negative.
pub slot-is_nonneg : (n slot : ℕ) → slot < n → n ≤ 2 ^ 31 → is_nonneg (int32_of_bits slot) ≡ true
slot-is_nonneg n slot h k = ap is_nonneg (int32_small slot (omega arith))

module _ {F : Type 0} where
  -- The pool's bookkeeping as that of a host-memory tier.
  abbrev pub as_pool : NvmeKvTier F → PinnedKvTier ℕ
  as_pool t = record {
    cfg = record {
      total_bytes = 0;
      slot_bytes = 0;
      cache_policy = PinnedKvCachePolicy.legacy_lru;
      heat_half_life_epochs = 0;
    };
    slot_count = t.slot_count;
    free_slots = t.free_slots;
    block_to_slot = t.block_to_slot;
    lru = t.lru;
    heat = [];
    selection_epoch = 0;
    stats = no_stats;
  }

  -- Each slot is free or holds one block, the order names the resident blocks, and the number of
  -- slots fits `int32_t`.
  pub record IsPool (t : NvmeKvTier F) : Type 0 where
    pub mapped : t.cfg.direct_mapped ≡ false
    pub small : t.slot_count ≤ 2 ^ 31
    pub pool : IsTier (as_pool t)

  erase_lru_locked_lem :
      (t : NvmeKvTier F) (id : ℕ)
      → t.cfg.direct_mapped ≡ false
      → erase_lru_locked t id ≡ record t { lru = erase_first id t.lru }
  unfolding erase_lru_locked
  erase_lru_locked_lem t id d = simp d refl

  pub touch_locked_lem :
      (t : NvmeKvTier F) (id : ℕ)
      → t.cfg.direct_mapped ≡ false
      → touch_locked t id ≡ record t { lru = erase_first id t.lru ++ id ∷ [] }
  unfolding touch_locked erase_lru_locked
  touch_locked_lem t id d = simp d refl

  pub touch_locked-IsPool :
      (t : NvmeKvTier F) (id slot : ℕ)
      → find id t.block_to_slot ≡ some slot
      → IsPool t
      → IsPool (touch_locked t id)
  unfolding touch erase_lru
  touch_locked-IsPool t id slot e v =
      let w = touch-IsTier (as_pool t) id slot e v.pool in
      rw (touch_locked_lem t id v.mapped) (record {
        mapped = v.mapped;
        small = v.small;
        pool = record { slots = w.slots; order = w.order; once = w.once };
      })

  admit-IsPool :
      (t : NvmeKvTier F) (id slot : ℕ)
      → find id t.block_to_slot ≡ none
      → t.cfg.direct_mapped ≡ false
      → t.slot_count ≤ 2 ^ 31
      → HasSpare (as_pool t) slot
      → IsPool (admit t id slot)
  unfolding admit Pinned.admit touch erase_lru
  admit-IsPool t id slot e d n v =
      let w = admit-IsTier (as_pool t) id slot e v in
      rw (touch_locked_lem (record t { block_to_slot = assign id slot t.block_to_slot }) id d)
        (record {
          mapped = d;
          small = n;
          pool = record { slots = w.slots; order = w.order; once = w.once };
        })

  pub place_free-IsPool :
      (t : NvmeKvTier F) (id : ℕ) (free : List ℕ)
      → t.free_slots ≡ free
      → find id t.block_to_slot ≡ none
      → IsPool t
      → IsPool (place_free t id free).0
  unfolding place_free
  place_free-IsPool t id [] h e v = v
  place_free-IsPool t id (slot ∷ rest) h e v =
      admit-IsPool (record t { free_slots = rest }) id slot e v.mapped v.small
        (record {
          slots = λ x. let spare = rw h at (v.pool.slots x) in omega arith;
          order = v.pool.order;
          once = v.pool.once;
        })

  pub place_block_locked-some :
      (t : NvmeKvTier F) (id slot : ℕ)
      → t.cfg.direct_mapped ≡ false
      → find id t.block_to_slot ≡ some slot
      → place_block_locked t id ≡ (touch_locked t id, placed_at slot)
  unfolding place_block_locked
  place_block_locked-some t id slot d e = simp (d, e, place_block_locked) refl

  pub place_block_locked-none :
      (t : NvmeKvTier F) (id : ℕ)
      → t.cfg.direct_mapped ≡ false
      → find id t.block_to_slot ≡ none
      → place_block_locked t id ≡ place_free t id t.free_slots
  unfolding place_block_locked
  place_block_locked-none t id d e = simp (d, e, place_block_locked) refl

  pub place_block_locked-IsPool :
      (t : NvmeKvTier F) (id : ℕ) → IsPool t → IsPool (place_block_locked t id).0
  place_block_locked-IsPool t id v = elim (Option-cases (find id t.block_to_slot)) [
    | inl e ↦
        rw (place_block_locked-none t id v.mapped e) (place_free-IsPool t id t.free_slots refl e v)
    | inr (slot, e) ↦
        rw (place_block_locked-some t id slot v.mapped e) (touch_locked-IsPool t id slot e v)
  ]

  evict_front-IsPool :
      (t : NvmeKvTier F) (id : ℕ) (order : List ℕ)
      → t.lru ≡ order
      → find id t.block_to_slot ≡ none
      → IsPool t
      → IsPool (evict_front t id order).0
  unfolding evict_front erase_lru
  evict_front-IsPool t id [] h e v = v
  evict_front-IsPool t id (victim ∷ rest) h e v =
      elim (Option-cases (find victim t.block_to_slot)) [
        | inl f ↦
            let here = rw h at (v.pool.order victim) in
            absurd (ground (arith, here, find-none victim t.block_to_slot f))
        | inr (slot, f) ↦
            let t' = record t { block_to_slot = erase victim t.block_to_slot } in
            rw (f, evict_front, erase_lru_locked_lem t' victim v.mapped)
              (admit-IsPool (record t' { lru = erase_first victim t.lru }) id slot
                (find_erased id victim slot t.block_to_slot f e) v.mapped v.small
                (let w = release_spare (as_pool t) victim slot f v.pool in
                  record { slots = w.slots; order = w.order; once = w.once }))
      ]

  evict_if_full-IsPool :
      (t : NvmeKvTier F) (id : ℕ) (free : List ℕ)
      → t.free_slots ≡ free
      → find id t.block_to_slot ≡ none
      → IsPool t
      → IsPool (evict_if_full id (place_free t id free)).0
  unfolding place_free evict_if_full
  evict_if_full-IsPool t id [] h e v = simp h (evict_front-IsPool t id t.lru refl e v)
  evict_if_full-IsPool t id (slot ∷ rest) h e v =
      let at = rw h at (v.pool.slots slot) in
      let inside : slot < t.slot_count = ground arith in
      simp (slot-is_nonneg t.slot_count slot inside v.small)
        (place_free-IsPool t id (slot ∷ rest) h e v)

  -- The evicting placement keeps the invariant of the slot pool.
  pub place_block_evicting-IsPool :
      (t : NvmeKvTier F) (id : ℕ) → IsPool t → IsPool (place_block_evicting t id).0
  unfolding place_block_evicting evict_if_full
  place_block_evicting-IsPool t id v = elim (Option-cases (find id t.block_to_slot)) [
    | inl e ↦
        rw (place_block_locked-none t id v.mapped e)
          (evict_if_full-IsPool t id t.free_slots refl e v)
    | inr (slot, e) ↦
        let inside = slot_in_range (as_pool t) id slot v.pool e in
        rw (place_block_locked-some t id slot v.mapped e) (
          simp (slot-is_nonneg t.slot_count slot inside v.small)
            (touch_locked-IsPool t id slot e v))
  ]

  release_block_lem :
      (t : NvmeKvTier F) (id slot : ℕ)
      → t.cfg.direct_mapped ≡ false
      → find id t.block_to_slot ≡ some slot
      → release_block t id ≡ record t {
        free_slots = slot ∷ t.free_slots;
        block_to_slot = erase id t.block_to_slot;
        lru = erase_first id t.lru;
      }
  unfolding release_block erase_lru_locked
  release_block_lem t id slot d e = simp (e, release_block, d) refl

  pub release_block-IsPool : (t : NvmeKvTier F) (id : ℕ) → IsPool t → IsPool (release_block t id)
  unfolding release_block erase_lru
  release_block-IsPool t id v = elim (Option-cases (find id t.block_to_slot)) [
    | inl e ↦ rw (e, release_block) v
    | inr (slot, e) ↦
        let w = release_spare (as_pool t) id slot e v.pool in
        rw (release_block_lem t id slot v.mapped e) (record {
          mapped = v.mapped;
          small = v.small;
          pool = record {
            slots = λ x. let at = w.slots x in omega arith;
            order = w.order;
            once = w.once;
          };
        })
  ]

  pub clear-IsPool : (t : NvmeKvTier F) → IsPool t → IsPool (clear t)
  unfolding clear Pinned.clear
  clear-IsPool t v =
      let w = clear-IsTier (as_pool t) in
      record {
        mapped = v.mapped;
        small = v.small;
        pool = record { slots = λ x. simp v.mapped (w.slots x); order = w.order; once = w.once };
      }

  pub new_tier-IsPool :
      (c : NvmeKvTierConfig) (file : F)
      → c.direct_mapped ≡ false
      → slots_of c ≤ 2 ^ 31
      → IsPool (new_tier c file)
  unfolding new_tier Pinned.clear
  new_tier-IsPool c file d n =
      let w = clear-IsTier (as_pool (new_tier c file)) in
      record {
        mapped = d;
        small = n;
        pool = record { slots = λ x. simp d (w.slots x); order = w.order; once = w.once };
      }
