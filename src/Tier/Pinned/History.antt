-- ===== src/Tier/Pinned/History.antt =====
-- Histories of calls of the host-memory tier.
use kvmem_test.Common.{
  ℕ, ◌≡◌, List, [], ◌∷◌, if◌then◌else◌, some, Bool-cases, Option-cases, inl, inr, is_nonneg,
  int32_of_bits,
}
use kvmem_test.Tier.Pinned.{
  PinnedKvTier, PinnedKvTierConfig, HeatOps, find, new_tier, block_slot, touch, place_block,
  place_block_replacing, place_block_evicting, begin_selection_epoch, record_selected,
  release_block, clear,
}
use kvmem_test.Tier.Pinned.Invariant.{
  IsTier, new_tier-IsTier, touch-IsTier, place_block-IsTier, release_block-IsTier, clear-IsTier,
}
use kvmem_test.Tier.Pinned.Evict.{place_block_replacing-IsTier, place_block_evicting-IsTier}

-- A call that changes the tier.
pub data TierCall : Type 0 where
  places evicts replaces releases touches selects : ℕ → TierCall
  begins_epoch clears : TierCall

module _ {D : Type 0} (o : HeatOps D) where
  unfoldable pub call_tier : PinnedKvTier D → TierCall → PinnedKvTier D
  call_tier t (TierCall.places id) = (place_block t id).0
  call_tier t (TierCall.evicts id) = (place_block_evicting o t id).0
  call_tier t (TierCall.replaces id) = (place_block_replacing o t id).0
  call_tier t (TierCall.releases id) = release_block t id
  call_tier t (TierCall.touches id) = touch t id
  call_tier t (TierCall.selects id) = record_selected o t id
  call_tier t TierCall.begins_epoch = begin_selection_epoch o t
  call_tier t TierCall.clears = clear t

  unfoldable pub run_tier : PinnedKvTier D → List TierCall → PinnedKvTier D
  unfolding call_tier
  run_tier t [] = t
  run_tier t (c ∷ cs) = run_tier (call_tier t c) cs

  -- A call of `touch` from outside is for a resident block.
  abbrev pub IsAllowed : PinnedKvTier D → TierCall → Type 0
  IsAllowed t (TierCall.touches id) = (slot : ℕ) × (find id t.block_to_slot ≡ some slot)
  IsAllowed t (TierCall.places id) = Unit {0}
  IsAllowed t (TierCall.evicts id) = Unit {0}
  IsAllowed t (TierCall.replaces id) = Unit {0}
  IsAllowed t (TierCall.releases id) = Unit {0}
  IsAllowed t (TierCall.selects id) = Unit {0}
  IsAllowed t TierCall.begins_epoch = Unit {0}
  IsAllowed t TierCall.clears = Unit {0}

  unfoldable pub AllAllowed : PinnedKvTier D → List TierCall → Type 0
  AllAllowed t [] = Unit {0}
  AllAllowed t (c ∷ cs) = IsAllowed t c × AllAllowed (call_tier t c) cs

  touch_resident :
      (t : PinnedKvTier D) (id : ℕ)
      → IsTier t
      → IsTier (if is_nonneg (block_slot t id) then touch t id else t)
  unfolding block_slot
  touch_resident t id v = elim (Option-cases (find id t.block_to_slot)) [
    | inl e ↦ rw (e, block_slot) v
    | inr (slot, e) ↦ elim (Bool-cases (is_nonneg (int32_of_bits slot))) [
      | inl there ↦ rw (e, block_slot, there) (touch-IsTier t id slot e v)
      | inr absent ↦ rw (e, block_slot, absent) v
    ]
  ]

  record_selected-IsTier :
      (t : PinnedKvTier D) (id : ℕ) → IsTier t → IsTier (record_selected o t id)
  unfolding record_selected
  record_selected-IsTier t id v =
      touch_resident _ id (record { slots = v.slots; order = v.order; once = v.once })

  call_tier-IsTier :
      (t : PinnedKvTier D) (c : TierCall) → IsAllowed t c → IsTier t → IsTier (call_tier t c)
  unfolding call_tier begin_selection_epoch
  call_tier-IsTier t (TierCall.places id) a v = place_block-IsTier t id v
  call_tier-IsTier t (TierCall.evicts id) a v = place_block_evicting-IsTier o t id v
  call_tier-IsTier t (TierCall.replaces id) a v = place_block_replacing-IsTier o t id v
  call_tier-IsTier t (TierCall.releases id) a v = release_block-IsTier t id v
  call_tier-IsTier t (TierCall.touches id) (slot, e) v = touch-IsTier t id slot e v
  call_tier-IsTier t (TierCall.selects id) a v = record_selected-IsTier t id v
  call_tier-IsTier t TierCall.begins_epoch a v = record {
    slots = v.slots;
    order = v.order;
    once = v.once;
  }
  call_tier-IsTier t TierCall.clears a v = clear-IsTier t

  run_tier_keeps :
      (t : PinnedKvTier D) (cs : List TierCall)
      → AllAllowed t cs
      → IsTier t
      → IsTier (run_tier t cs)
  unfolding run_tier AllAllowed
  run_tier_keeps t [] a v = v
  run_tier_keeps t (c ∷ cs) (a, rest) v =
      run_tier_keeps (call_tier t c) cs rest (call_tier-IsTier t c a v)

  -- After any history of calls of a new tier in which `touch` is called for resident blocks only,
  -- each slot of the pool is either free or held by exactly one block, and the eviction order names
  -- the resident blocks, each once.
  pub run_tier-IsTier :
      (c : PinnedKvTierConfig) (cs : List TierCall)
      → AllAllowed (new_tier c) cs
      → IsTier (run_tier (new_tier c) cs)
  run_tier-IsTier c cs a = run_tier_keeps (new_tier c) cs a (new_tier-IsTier c)
