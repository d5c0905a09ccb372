-- ===== src/Tests/Tiers.antt =====
-- The host-memory tier with two slots. The heat counts selections.
use kvmem_test.Common.{
  ℕ, ◌+◌, ◌*◌, ◌<◌, ◌≡◌, refl, List, [], ◌∷◌, ltb, leb, pos, arith, none, int32_of_bits,
}
use kvmem_test.Tier.Pinned.{
  PinnedKvTier, PinnedKvTierConfig, PinnedKvCachePolicy, HeatOps, find, block_slot, new_tier,
  place_block_evicting, no_stats,
}
use kvmem_test.Tier.Pinned.Invariant.{IsTier}
use kvmem_test.Tier.Pinned.Places.{place_block_evicting-places, place_block_evicting-evicts_front}
use kvmem_test.Tier.Pinned.History.{TierCall, AllAllowed, run_tier, run_tier-IsTier}

abbrev pub counted : HeatOps ℕ
counted = record {
  zero = 0;
  one = 1;
  hundredth = 0;
  quarter = 0;
  add = λ x y. x + y;
  mul = λ x y. x * y;
  div = λ x y. x;
  neg = λ x. x;
  exp2 = λ x. 1;
  lt = λ x y. ltb x y;
  le = λ x y. leb x y;
  of_ℕ = λ n. n;
}

abbrev pub two_slots : PinnedKvTierConfig
two_slots = record {
  total_bytes = 200;
  slot_bytes = 100;
  cache_policy = PinnedKvCachePolicy.legacy_lru;
  heat_half_life_epochs = 8;
}

abbrev calls : List TierCall
calls =
    TierCall.places 7
    ∷ TierCall.evicts 5
    ∷ TierCall.begins_epoch
    ∷ TierCall.selects 7
    ∷ TierCall.evicts 3
    ∷ TierCall.releases 7
    ∷ []

run_tier-IsTier_example : IsTier (run_tier counted (new_tier two_slots) calls)
unfolding AllAllowed
run_tier-IsTier_example =
    run_tier-IsTier counted two_slots calls (tt, (tt, (tt, (tt, (tt, (tt, tt))))))

-- Both slots are taken; block 7 is the older one.
abbrev full_tier : PinnedKvTier ℕ
full_tier = record {
  cfg = two_slots;
  slot_count = 2;
  free_slots = [];
  block_to_slot = (5, 1) ∷ (7, 0) ∷ [];
  lru = 7 ∷ 5 ∷ [];
  heat = [];
  selection_epoch = 0;
  stats = no_stats;
}

full_tier-IsTier : IsTier full_tier
full_tier-IsTier = record {
  slots = λ x. ground arith;
  order = λ x. ground arith;
  once = λ x. ground arith;
}

place_block_evicting-places_example :
    (slot : ℕ) × (slot < 2)
    × ((place_block_evicting counted full_tier 3).1.slot ≡ pos slot)
    × (block_slot (place_block_evicting counted full_tier 3).0 3 ≡ pos slot)
place_block_evicting-places_example =
    place_block_evicting-places counted full_tier 3 full_tier-IsTier (omega arith) (omega arith)
      refl

place_block_evicting-evicts_front_example :
    ((place_block_evicting counted full_tier 3).1.evicted_block ≡ int32_of_bits 7)
    × (find 7 (place_block_evicting counted full_tier 3).0.block_to_slot ≡ none)
    × ((place_block_evicting counted full_tier 3).0.lru ≡ 5 ∷ 3 ∷ [])
unfolding find
place_block_evicting-evicts_front_example =
    place_block_evicting-evicts_front counted full_tier 3 7 (5 ∷ []) full_tier-IsTier refl refl refl
      refl
