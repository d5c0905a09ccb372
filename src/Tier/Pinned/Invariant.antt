-- ===== src/Tier/Pinned/Invariant.antt =====
-- The invariant of the host-memory tier: each slot is free or holds one block, and the eviction
-- order names exactly the resident blocks. Every operation keeps it.
use kvmem_test.Common.{
  ℕ, ◌+◌, ◌-◌, ◌≤◌, ◌≡◌, refl, List, [], ◌∷◌, ◌++◌, ◌==◌, ltb, if◌then◌else◌, range, arith, some,
  none, Bool-cases, Option-cases, inl, inr,
}
use kvmem_test.Tier.Pinned.{
  PinnedKvTier, PinnedKvTierConfig, find, erase, assign, erase_first, slots_of, new_tier, erase_lru,
  touch, admit, place_free, place_block, release_block, clear,
}
use kvmem_test.Tier.Pinned.Count.{
  hit, count, count-append, count-range, count-erase_first, count-erase_first_self,
  count-erase_first_ne, keys, values, find-none, erase-none, erase-some,
}

count-range_zero : (x n : ℕ) → count x (range 0 n) ≡ hit (ltb x n)
count-range_zero x n = ground (arith, count-range x 0 n)

-- A touch moves the block to the back of the order.
pub count-touch :
    (x id : ℕ) (ys : List ℕ)
    → count x (erase_first id ys ++ id ∷ []) ≡ (if id == x then count x ys - 1 + 1 else count x ys)
count-touch x id ys = elim (Bool-cases (id == x)) [
  | inl e ↦
      let same : id ≡ x = ground arith in
      rw (e, same)
        (ground (arith, count-append x (erase_first x ys) (x ∷ []), count-erase_first_self x ys))
  | inr e ↦
      rw e (
        ground
          (arith, count-append x (erase_first id ys) (id ∷ []), count-erase_first_ne x id ys e))
]

count_fresh : (id x : ℕ) (ys : List ℕ) → count id ys ≡ 0 → (if id == x then count x ys else 0) ≡ 0
count_fresh id x ys h = elim (Bool-cases (id == x)) [
  | inl e ↦ let same : id ≡ x = ground arith in rw e (rw same at h)
  | inr e ↦ rw e refl
]

module _ {D : Type 0} where
  pub record IsTier (t : PinnedKvTier D) : Type 0 where
    pub slots :
        (x : ℕ) → count x t.free_slots + count x (values t.block_to_slot) ≡ hit (ltb x t.slot_count)
    pub order : (x : ℕ) → count x t.lru ≡ count x (keys t.block_to_slot)
    pub once : (x : ℕ) → count x t.lru ≤ 1

  pub new_tier-IsTier : (c : PinnedKvTierConfig) → IsTier (new_tier c)
  unfolding new_tier
  new_tier-IsTier c = record {
    slots = λ x. omega (arith, count-range_zero x (slots_of c));
    order = λ x. refl;
    once = λ x. omega arith;
  }

  pub touch-IsTier :
      (t : PinnedKvTier D) (id slot : ℕ)
      → find id t.block_to_slot ≡ some slot
      → IsTier t
      → IsTier (touch t id)
  unfolding touch erase_lru
  touch-IsTier t id slot e v =
      let there = λ (x : ℕ). erase-some id slot x t.block_to_slot e in
      record {
        slots = v.slots;
        order = λ x. ground (arith, count-touch x id t.lru, v.order x, (there x).0);
        once = λ x. ground (arith, count-touch x id t.lru, v.once x);
      }

  -- What stands between taking a slot and giving it to a block: the slot is nobody's.
  pub record HasSpare (t : PinnedKvTier D) (slot : ℕ) : Type 0 where
    pub slots :
        (x : ℕ)
        → hit (slot == x) + count x t.free_slots + count x (values t.block_to_slot)
          ≡ hit (ltb x t.slot_count)
    pub order : (x : ℕ) → count x t.lru ≡ count x (keys t.block_to_slot)
    pub once : (x : ℕ) → count x t.lru ≤ 1

  pub admit-IsTier :
      (t : PinnedKvTier D) (id slot : ℕ)
      → find id t.block_to_slot ≡ none
      → HasSpare t slot
      → IsTier (admit t id slot)
  unfolding admit assign touch erase_lru
  admit-IsTier t id slot e v =
      let same = erase-none id t.block_to_slot e in
      let fresh = find-none id t.block_to_slot e in
      record {
        slots = λ x. rw same (omega (arith, v.slots x));
        order = λ x. rw same (
            ground (
              arith,
              count-touch x id t.lru,
              v.order x,
              count_fresh id x (keys t.block_to_slot) fresh,
            ));
        once = λ x. ground (
          arith,
          count-touch x id t.lru,
          v.order x,
          v.once x,
          count_fresh id x (keys t.block_to_slot) fresh,
        );
      }

  place_free-IsTier :
      (t : PinnedKvTier D) (id : ℕ) (free : List ℕ)
      → t.free_slots ≡ free
      → find id t.block_to_slot ≡ none
      → IsTier t
      → IsTier (place_free t id free).0
  unfolding place_free
  place_free-IsTier t id [] h e v = v
  place_free-IsTier t id (slot ∷ rest) h e v =
      admit-IsTier (record t { free_slots = rest }) id slot e
        (record {
          slots = λ x. let spare = rw h at (v.slots x) in omega arith;
          order = v.order;
          once = v.once;
        })

  pub place_block-IsTier : (t : PinnedKvTier D) (id : ℕ) → IsTier t → IsTier (place_block t id).0
  unfolding place_block
  place_block-IsTier t id v = elim (Option-cases (find id t.block_to_slot)) [
    | inl e ↦ rw (e, place_block) (place_free-IsTier t id t.free_slots refl e v)
    | inr (slot, e) ↦ rw (e, place_block) v
  ]

  pub release_spare :
      (t : PinnedKvTier D) (id slot : ℕ)
      → find id t.block_to_slot ≡ some slot
      → IsTier t
      → HasSpare (erase_lru (record t { block_to_slot = erase id t.block_to_slot }) id) slot
  unfolding erase_lru
  release_spare t id slot e v =
      let there = λ (x : ℕ). erase-some id slot x t.block_to_slot e in
      record {
        slots = λ x. omega (arith, v.slots x, (there x).1);
        order = λ x. ground (arith, count-erase_first x id t.lru, v.order x, (there x).0);
        once = λ x. ground (arith, count-erase_first x id t.lru, v.once x);
      }

  pub release_block-IsTier : (t : PinnedKvTier D) (id : ℕ) → IsTier t → IsTier (release_block t id)
  unfolding release_block erase_lru
  release_block-IsTier t id v = elim (Option-cases (find id t.block_to_slot)) [
    | inl e ↦ rw (e, release_block) v
    | inr (slot, e) ↦
        let spare = release_spare t id slot e v in
        rw (e, release_block)
          (record {
            slots = λ x. omega (arith, spare.slots x);
            order = spare.order;
            once = spare.once;
          })
  ]

  pub clear-IsTier : (t : PinnedKvTier D) → IsTier (clear t)
  unfolding clear
  clear-IsTier t = record {
    slots = λ x. omega (arith, count-range_zero x t.slot_count);
    order = λ x. refl;
    once = λ x. omega arith;
  }
