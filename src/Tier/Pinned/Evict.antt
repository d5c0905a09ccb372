-- ===== src/Tier/Pinned/Evict.antt =====
-- Replacement in the host-memory tier keeps its invariant, and what an eviction guarantees.
use kvmem_test.Common.{
  ℕ, ◌≡◌, refl, List, [], ◌∷◌, arith, some, none, Bool-cases, Option-cases, inl, inr, ◌&&◌,
}
use kvmem_test.Tier.Pinned.{
  PinnedKvTier, HeatOps, find, erase, erase_lru, evict, replace_front, replace_lru,
  place_block_replacing, place_or_replace, is_heat_aware, effective_heat, place_block_evicting,
}
use kvmem_test.Tier.Pinned.Count.{find-none}
use kvmem_test.Tier.Pinned.Count.{find_erased}
use kvmem_test.Tier.Pinned.Invariant.{
  IsTier, touch-IsTier, admit-IsTier, release_spare, place_block-IsTier,
}

module _ {D : Type 0} where
  module _ (o : HeatOps D) where
    evict-IsTier :
        (t : PinnedKvTier D) (id victim slot : ℕ)
        → find id t.block_to_slot ≡ none
        → find victim t.block_to_slot ≡ some slot
        → IsTier t
        → IsTier (evict o t id victim slot).0
    unfolding evict
    evict-IsTier t id victim slot e f v =
        let admitted =
          admit-IsTier
            (erase_lru (record t { block_to_slot = erase victim t.block_to_slot }) victim) id slot
            (find_erased id victim slot t.block_to_slot f e) (release_spare t victim slot f v) in
        record { slots = admitted.slots; order = admitted.order; once = admitted.once }

    replace_front-IsTier :
        (t : PinnedKvTier D) (id : ℕ) (order : List ℕ)
        → t.lru ≡ order
        → find id t.block_to_slot ≡ none
        → IsTier t
        → IsTier (replace_front o t id order).0
    unfolding replace_front
    replace_front-IsTier t id [] h e v = v
    replace_front-IsTier t id (victim ∷ rest) h e v =
        elim (Bool-cases (
          is_heat_aware t.cfg.cache_policy
          && o.lt (effective_heat o t id) (effective_heat o t victim))) [
            | inl cold ↦ rw cold (record { slots = v.slots; order = v.order; once = v.once })
            | inr hot ↦ elim (Option-cases (find victim t.block_to_slot)) [
              | inl f ↦
                  let here = rw h at (v.order victim) in
                  absurd (ground (arith, here, find-none victim t.block_to_slot f))
              | inr (slot, f) ↦ rw (hot, f) (evict-IsTier t id victim slot e f v)
            ]
          ]

    replace_lru-IsTier :
        (t : PinnedKvTier D) (id : ℕ)
        → find id t.block_to_slot ≡ none
        → IsTier t
        → IsTier (replace_lru o t id).0
    unfolding replace_lru
    replace_lru-IsTier t id e v = replace_front-IsTier t id t.lru refl e v

    pub place_block_replacing-IsTier :
        (t : PinnedKvTier D) (id : ℕ) → IsTier t → IsTier (place_block_replacing o t id).0
    unfolding place_block_replacing
    place_block_replacing-IsTier t id v = elim (Option-cases (find id t.block_to_slot)) [
      | inl e ↦ rw (e, place_block_replacing) (replace_lru-IsTier t id e v)
      | inr (slot, e) ↦ rw (e, place_block_replacing) (touch-IsTier t id slot e v)
    ]

    place_or_replace-IsTier :
        (t : PinnedKvTier D) (id : ℕ) (free : List ℕ)
        → find id t.block_to_slot ≡ none
        → IsTier t
        → IsTier (place_or_replace o t id free).0
    unfolding place_or_replace
    place_or_replace-IsTier t id [] e v = replace_lru-IsTier t id e v
    place_or_replace-IsTier t id (slot ∷ rest) e v = place_block-IsTier t id v

    pub place_block_evicting-IsTier :
        (t : PinnedKvTier D) (id : ℕ) → IsTier t → IsTier (place_block_evicting o t id).0
    unfolding place_block_evicting
    place_block_evicting-IsTier t id v = elim (Option-cases (find id t.block_to_slot)) [
      | inl e ↦ rw (e, place_block_evicting) (place_or_replace-IsTier t id t.free_slots e v)
      | inr (slot, e) ↦ rw (e, place_block_evicting) (touch-IsTier t id slot e v)
    ]
