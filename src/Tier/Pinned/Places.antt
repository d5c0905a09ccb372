-- ===== src/Tier/Pinned/Places.antt =====
-- What the evicting placement of the host-memory tier guarantees.
use kvmem_test.Common.{
  ℕ, ◌+◌, ◌≤◌, ◌<◌, ◌^◌, ◌≡◌, refl, ◌∙◌, ap, pos, List, [], ◌∷◌, ◌++◌, ◌==◌, ltb, arith, some, none,
  Bool-cases, Option-cases, inl, inr, true, false, int32_of_bits,
}
use kvmem_test.Tier.Pinned.{
  PinnedKvTier, HeatOps, find, erase, assign, erase_first, erase_lru, touch, admit, place_free,
  place_block, evict, block_slot, replace_front, replace_lru, place_or_replace,
  place_block_evicting, is_heat_aware,
}
use kvmem_test.Tier.Pinned.Count.{
  hit, count, keys, values, find-none, count_none, erase-none, erase-some, find_erased,
}
use kvmem_test.Tier.Pinned.Invariant.{IsTier}

pub int32_small : (n : ℕ) → n < 2 ^ 31 → int32_of_bits n ≡ pos n
int32_small n h = ground arith

pub find-assign : (k v : ℕ) (m : List (ℕ × ℕ)) → find k (assign k v m) ≡ some v
unfolding find assign
find-assign k v m = let same : (k == k) ≡ true = ground arith in rw same refl

no_keys : (m : List (ℕ × ℕ)) → ((x : ℕ) → 0 ≡ count x (keys m)) → m ≡ []
no_keys [] h = refl
no_keys ((k, v) ∷ m) h = absurd (let at = h k in ground arith)

erase_first_absent : (x : ℕ) (ys : List ℕ) → count x ys ≡ 0 → erase_first x ys ≡ ys
unfolding erase_first
erase_first_absent x [] h = refl
erase_first_absent x (y ∷ ys) h = elim (Bool-cases (y == x)) [
  | inl e ↦ absurd (ground arith)
  | inr e ↦ let rest = erase_first_absent x ys (ground arith) in rw (e, rest) refl
]

erase_first_front : (x : ℕ) (ys : List ℕ) → erase_first x (x ∷ ys) ≡ ys
unfolding erase_first
erase_first_front x ys = let same : (x == x) ≡ true = ground arith in rw same refl

gone_after :
    (id victim slot : ℕ) (m : List (ℕ × ℕ))
    → find id m ≡ none
    → find victim m ≡ some slot
    → count victim (keys m) ≤ 1
    → find victim (assign id slot (erase victim m)) ≡ none
unfolding find assign
gone_after id victim slot m e f once = elim (Bool-cases (id == victim)) [
  | inl k ↦ let same : id ≡ victim = ground arith in absurd (let no = rw same at e in cc)
  | inr k ↦
      let absent = find_erased id victim slot m f e in
      let there = erase-some victim slot victim m f in
      let out = count_none victim (erase victim m) (ground (arith, there.0)) in
      rw (k, erase-none id (erase victim m) absent) out
]

module _ {D : Type 0} where
  pub slot_in_range :
      (t : PinnedKvTier D) (id slot : ℕ)
      → IsTier t
      → find id t.block_to_slot ≡ some slot
      → slot < t.slot_count
  slot_in_range t id slot v e =
      let there = erase-some id slot slot t.block_to_slot e in
      let at = v.slots slot in ground (arith, there.1, at)

  place_block-free :
      (t : PinnedKvTier D) (id slot : ℕ) (rest : List ℕ)
      → find id t.block_to_slot ≡ none
      → t.free_slots ≡ slot ∷ rest
      → place_block t id ≡ place_free t id (slot ∷ rest)
  unfolding place_block
  place_block-free t id slot rest e h = rw (e, place_block) (ap (place_free t id) h)

  block_slot-some :
      (t : PinnedKvTier D) (id slot : ℕ)
      → find id t.block_to_slot ≡ some slot
      → block_slot t id ≡ int32_of_bits slot
  unfolding block_slot
  block_slot-some t id slot e = rw (e, block_slot) refl

  fresh_rest :
      (t : PinnedKvTier D) (id victim : ℕ) (rest : List ℕ)
      → IsTier t
      → find id t.block_to_slot ≡ none
      → t.lru ≡ victim ∷ rest
      → count id rest ≡ 0
  fresh_rest t id victim rest v e h =
      let at = rw h at (v.order id) in omega (arith, at, find-none id t.block_to_slot e)

  -- Without a free slot some block is resident.
  no_slots :
      (t : PinnedKvTier D)
      → IsTier t
      → t.lru ≡ []
      → t.free_slots ≡ []
      → 0 < t.slot_count
      → true ≡ false
  no_slots t v h free n =
      let empty : t.block_to_slot ≡ [] = no_keys t.block_to_slot (λ x. rw h at (v.order x)) in
      let at : count 0 [] + count 0 (values []) ≡ hit (ltb 0 t.slot_count) =
        rw (free, empty) at (v.slots 0) in
      ground arith

  front_resident :
      (t : PinnedKvTier D) (victim : ℕ) (rest : List ℕ)
      → IsTier t
      → t.lru ≡ victim ∷ rest
      → find victim t.block_to_slot ≡ none
      → true ≡ false
  front_resident t victim rest v h f =
      let here = rw h at (v.order victim) in
      ground (arith, here, find-none victim t.block_to_slot f)

  module _ (o : HeatOps D) where
    -- The evicting placement with no free slot and the LRU policy.
    replace_front-evicts :
        (t : PinnedKvTier D) (id victim slot : ℕ) (rest : List ℕ)
        → is_heat_aware t.cfg.cache_policy ≡ false
        → find victim t.block_to_slot ≡ some slot
        → replace_front o t id (victim ∷ rest) ≡ evict o t id victim slot
    unfolding replace_front
    replace_front-evicts t id victim slot rest p f = rw (p, f, replace_front) refl

    replace_lru_places :
        (t : PinnedKvTier D) (id : ℕ) (order : List ℕ)
        → IsTier t
        → t.lru ≡ order
        → t.free_slots ≡ []
        → 0 < t.slot_count
        → is_heat_aware t.cfg.cache_policy ≡ false
        → (slot : ℕ) × (slot < t.slot_count)
          × ((replace_front o t id order).1.slot ≡ int32_of_bits slot)
          × (find id (replace_front o t id order).0.block_to_slot ≡ some slot)
    unfolding replace_front evict admit touch erase_lru
    replace_lru_places t id [] v h free n p = absurd (let no = no_slots t v h free n in cc)
    replace_lru_places t id (victim ∷ rest) v h free n p =
        elim (Option-cases (find victim t.block_to_slot)) [
          | inl f ↦ absurd (let no = front_resident t victim rest v h f in cc)
          | inr (slot, f) ↦ rw (replace_front-evicts t id victim slot rest p f) (
            slot,
            slot_in_range t victim slot v f,
            refl,
            find-assign id slot (erase victim t.block_to_slot),
          )
        ]

    place_or_replace_places :
        (t : PinnedKvTier D) (id : ℕ) (free : List ℕ)
        → IsTier t
        → find id t.block_to_slot ≡ none
        → t.free_slots ≡ free
        → 0 < t.slot_count
        → is_heat_aware t.cfg.cache_policy ≡ false
        → (slot : ℕ) × (slot < t.slot_count)
          × ((place_or_replace o t id free).1.slot ≡ int32_of_bits slot)
          × (find id (place_or_replace o t id free).0.block_to_slot ≡ some slot)
    unfolding place_or_replace replace_lru place_free admit touch erase_lru
    place_or_replace_places t id [] v e h n p = replace_lru_places t id t.lru v refl h n p
    place_or_replace_places t id (slot ∷ rest) v e h n p =
        let at = rw h at (v.slots slot) in
        let inside : slot < t.slot_count = ground arith in
        rw (place_block-free t id slot rest e h)
          (slot, inside, refl, find-assign id slot t.block_to_slot)

    evicting-front :
        (t : PinnedKvTier D) (id victim slot : ℕ) (rest : List ℕ)
        → find id t.block_to_slot ≡ none
        → t.free_slots ≡ []
        → t.lru ≡ victim ∷ rest
        → is_heat_aware t.cfg.cache_policy ≡ false
        → find victim t.block_to_slot ≡ some slot
        → place_block_evicting o t id ≡ evict o t id victim slot
    unfolding place_block_evicting place_or_replace replace_lru
    evicting-front t id victim slot rest e free h p f =
        rw (e, place_block_evicting)
          (ap (place_or_replace o t id) free
            ∙ ap (replace_front o t id) h
            ∙ replace_front-evicts t id victim slot rest p f)

    -- With the LRU policy and a pool of 1 to 2^31 slots, `place_block_evicting` always places the
    -- block: it returns a slot of the pool, and the block is resident in that slot.
    pub place_block_evicting-places :
        (t : PinnedKvTier D) (id : ℕ)
        → IsTier t
        → 0 < t.slot_count
        → t.slot_count ≤ 2 ^ 31
        → is_heat_aware t.cfg.cache_policy ≡ false
        → (slot : ℕ) × (slot < t.slot_count)
          × ((place_block_evicting o t id).1.slot ≡ pos slot)
          × (block_slot (place_block_evicting o t id).0 id ≡ pos slot)
    unfolding place_block_evicting touch erase_lru
    place_block_evicting-places t id v n small p = elim (Option-cases (find id t.block_to_slot)) [
      | inl e ↦
          let (slot, inside, at, found) = place_or_replace_places t id t.free_slots v e refl n p in
          let positive = int32_small slot (omega arith) in
          rw (e, place_block_evicting)
            (slot, inside, at ∙ positive, block_slot-some _ id slot found ∙ positive)
      | inr (slot, e) ↦
          let inside = slot_in_range t id slot v e in
          let positive = int32_small slot (omega arith) in
          rw (e, place_block_evicting)
            (slot, inside, positive, block_slot-some (touch t id) id slot e ∙ positive)
    ]

    -- Without a free slot and with the LRU policy, placing a block that is not resident reports the
    -- front of the eviction order as evicted, that block is not resident any more, and the order is
    -- the rest of the old one with the new block at its back.
    pub place_block_evicting-evicts_front :
        (t : PinnedKvTier D) (id victim : ℕ) (rest : List ℕ)
        → IsTier t
        → find id t.block_to_slot ≡ none
        → t.free_slots ≡ []
        → t.lru ≡ victim ∷ rest
        → is_heat_aware t.cfg.cache_policy ≡ false
        → ((place_block_evicting o t id).1.evicted_block ≡ int32_of_bits victim)
          × (find victim (place_block_evicting o t id).0.block_to_slot ≡ none)
          × ((place_block_evicting o t id).0.lru ≡ rest ++ id ∷ [])
    unfolding place_block_evicting evict admit touch erase_lru
    place_block_evicting-evicts_front t id victim rest v e free h p =
        elim (Option-cases (find victim t.block_to_slot)) [
          | inl f ↦ absurd (let no = front_resident t victim rest v h f in cc)
          | inr (slot, f) ↦ rw (evicting-front t id victim slot rest e free h p f) (
            refl,
            gone_after id victim slot t.block_to_slot e f
                (omega (arith, v.order victim, v.once victim)),
            ap (λ l. erase_first id l ++ id ∷ [])
                  (ap (erase_first victim) h ∙ erase_first_front victim rest)
                ∙ ap (λ l. l ++ id ∷ [])
                    (erase_first_absent id rest (fresh_rest t id victim rest v e h)),
          )
        ]
