-- ===== src/Tier/Nvme/Room.antt =====
-- When a write of a block of the SSD tier returns.
use kvmem_test.Common.{
  ◌⊎◌, ◌↔◌, none, add64, ℕ, ◌≤◌, ◌<◌, ◌≡◌, refl, ap, ◌∙◌, List, [], ◌∷◌, length, true, false, not,
  ltb, leb, ◌-◌, Option-cases, inl, inr, some, arith, is_nonneg, pos, ok, throw_if, throw_if-ok,
  sym, returned, Error,
}
use kvmem_test.Tier.Pinned.{find}
use kvmem_test.Tier.Pinned.Places.{slot_in_range, int32_small}
use kvmem_test.Tier.Nvme.{
  place_free, FileOps, NvmeKvTier, enabled, touch_locked, place_block, place_block_locked,
  write_block, write_slot, write_slot_range, validate_io, validate_slot_range_io, slot_offset,
}
use kvmem_test.Tier.Nvme.Invariant.{
  place_block_locked-none, place_block_locked-some, slot-is_nonneg, as_pool, IsPool,
}
use kvmem_test.Tier.Nvme.Data.{place_block_locked-IsPlacedAt}

module _ {F : Type 0} (o : FileOps F) where
  -- The file takes every write.
  abbrev pub TakesWrites : Type 0
  TakesWrites =
      (f : F) (offset : ℕ) (bytes : List ℕ) → (f' : F) × (o.pwrite f offset bytes ≡ some f')

  write_slot-returns :
      (t : NvmeKvTier F) (slot : ℕ) (data' : List ℕ)
      → enabled t ≡ true
      → t.cfg.read_only ≡ false
      → length data' ≤ t.cfg.slot_bytes
      → slot < t.slot_count
      → TakesWrites
      → (t' : NvmeKvTier F) × (write_slot o t (pos slot) data' ≡ ok t')
  unfolding write_slot write_slot_range validate_io validate_slot_range_io
  write_slot-returns t slot data' on writable fits inside takes =
      let short : ltb t.cfg.slot_bytes (length data') ≡ false = ground arith in
      let in_pool : leb t.slot_count slot ≡ false = ground arith in
      let no_offset : ltb t.cfg.slot_bytes 0 ≡ false = ground arith in
      let in_slot : ltb (t.cfg.slot_bytes - 0) (length data') ≡ false = ground arith in
      let (file', wrote) = takes t.file (add64 (slot_offset t slot) 0) data' in
      (
        record t { file = file' },
        simp (on, writable, short, in_pool, no_offset, in_slot, wrote) refl,
      )

  -- A block can have a slot: it is resident, or a slot is free.
  abbrev pub HasRoom : NvmeKvTier F → ℕ → Type 0
  HasRoom t id = ((slot : ℕ) × (find id t.block_to_slot ≡ some slot)) ⊎ (0 < length t.free_slots)

  place_free-room :
      (t : NvmeKvTier F) (id : ℕ) (free : List ℕ)
      → IsPool t
      → t.free_slots ≡ free
      → (is_nonneg (place_free t id free).1.slot ≡ true) ↔ (0 < length free)
  unfolding place_free
  place_free-room t id [] v h = ((λ bad. cc), (λ bad. absurd (omega arith)))
  place_free-room t id (slot ∷ rest) v h =
      let at = rw h at (v.pool.slots slot) in
      let inside : slot < t.slot_count = ground arith in
      ((λ e. omega arith), (λ e. slot-is_nonneg t.slot_count slot inside v.small))

  -- A placement that is not evicting finds a slot exactly if there is one.
  place_block_locked-room :
      (t : NvmeKvTier F) (id : ℕ)
      → IsPool t
      → (is_nonneg (place_block_locked t id).1.slot ≡ true) ↔ HasRoom t id
  place_block_locked-room t id v = elim (Option-cases (find id t.block_to_slot)) [
    | inl e ↦
        let (there, back) = place_free-room t id t.free_slots v refl in
        rw (place_block_locked-none t id v.mapped e) (
          (λ h. inr (there h)),
          (λ h. elim h [
            | inl (slot, f) ↦ absurd (let bad : none ≡ some slot = sym e ∙ f in cc)
            | inr some_free ↦ back some_free
          ]),
        )
    | inr (slot, e) ↦
        let inside = slot_in_range (as_pool t) id slot v.pool e in
        rw (place_block_locked-some t id slot v.mapped e)
          ((λ h. inl (slot, e)), (λ h. slot-is_nonneg t.slot_count slot inside v.small))
  ]

  write_block-placed :
      (t : NvmeKvTier F) (id : ℕ) (data' : List ℕ)
      → IsPool t
      → enabled t ≡ true
      → t.cfg.read_only ≡ false
      → length data' ≤ t.cfg.slot_bytes
      → is_nonneg (place_block t id).1.slot ≡ true
      → TakesWrites
      → (t' : NvmeKvTier F) × (write_block o t id data' ≡ ok t')
  unfolding write_block validate_io
  write_block-placed t id data' v on writable fits placed takes =
      let (slot, inside, at, p) = place_block_locked-IsPlacedAt t id v placed in
      let t₁ = (place_block_locked t id).0 in
      let at' : (place_block_locked t id).1.slot ≡ pos slot =
        at ∙ int32_small slot (omega (arith, v.small)) in
      let short : ltb t.cfg.slot_bytes (length data') ≡ false = ground arith in
      let same_cfg : t₁.cfg ≡ t.cfg = ap (λ x. x.cfg) p.same in
      let same_count : t₁.slot_count ≡ t.slot_count = ap (λ x. x.slot_count) p.same in
      let same_open : t₁.is_open ≡ t.is_open = ap (λ x. x.is_open) p.same in
      let (t₂, wrote) =
        write_slot-returns t₁ slot data' (rw (same_open, same_count) on) (rw same_cfg writable)
          (rw same_cfg fits) (rw same_count inside) takes in
      (touch_locked t₂ id, simp (on, short, at', wrote) refl)

  -- What a write that returns has passed.
  write_block-passed :
      (t t' : NvmeKvTier F) (id : ℕ) (data' : List ℕ)
      → IsPool t
      → write_block o t id data' ≡ ok t'
      → (enabled t ≡ true)
        × (t.cfg.read_only ≡ false)
        × (length data' ≤ t.cfg.slot_bytes)
        × (is_nonneg (place_block t id).1.slot ≡ true)
  unfolding write_block validate_io write_slot write_slot_range
  write_block-passed t t' id data' v h =
      let (_, valid, h₁) = returned (validate_io t (length data')) _ h in
      let (_, on, fits) = returned (throw_if (not (enabled t)) Error.tier_disabled) _ valid in
      let p = place_block_locked t id in
      let (_, nonneg, h₂) = returned (throw_if (not (is_nonneg p.1.slot)) Error.tier_full) _ h₁ in
      let (t₂, wrote, h₃) = returned (write_slot o p.0 p.1.slot data') _ h₂ in
      let (_, writable, h₄) =
        returned (throw_if p.0.cfg.read_only Error.attached_read_only) _ wrote in
      let placed : is_nonneg p.1.slot ≡ true =
        ground (arith, throw_if-ok (not (is_nonneg p.1.slot)) _ nonneg) in
      let (slot, inside, at, q) = place_block_locked-IsPlacedAt t id v placed in
      let same_cfg : p.0.cfg ≡ t.cfg = ap (λ x. x.cfg) q.same in
      (
        ground (arith, throw_if-ok (not (enabled t)) _ on),
        sym (ap (λ c. c.read_only) same_cfg) ∙ throw_if-ok p.0.cfg.read_only _ writable,
        ground (arith, throw_if-ok (ltb t.cfg.slot_bytes (length data')) _ fits),
        placed,
      )

  -- On a slot pool, if the file takes every write, a write of a block returns exactly if the tier is
  -- enabled and not attached for reading, the bytes fit a slot, and the block is resident or a slot
  -- is free.
  pub write_block-returns :
      (t : NvmeKvTier F) (id : ℕ) (data' : List ℕ)
      → IsPool t
      → TakesWrites
      → ((t' : NvmeKvTier F) × (write_block o t id data' ≡ ok t')) ↔ (
          (enabled t ≡ true)
          × (t.cfg.read_only ≡ false)
          × (length data' ≤ t.cfg.slot_bytes)
          × HasRoom t id)
  write_block-returns t id data' v takes =
      let room = place_block_locked-room t id v in
      (
        (λ (t', h).
            let (on, writable, fits, placed) = write_block-passed t t' id data' v h in
            (on, writable, fits, room.0 placed)),
        (λ (on, writable, fits, space).
            write_block-placed t id data' v on writable fits (room.1 space) takes),
      )
