-- ===== src/Tier/Nvme/Data.antt =====
-- What is written to a block of the SSD tier is read back, and other blocks keep their bytes.
use kvmem_test.Common.{
  add64, ℕ, ◌+◌, ◌≤◌, ◌<◌, ◌^◌, ◌≡◌, ◌⊎◌, refl, sym, ap, ◌∙◌, List, [], ◌∷◌, length, true, false,
  not, ltb, leb, ◌==◌, Option-cases, inl, inr, Option, some, none, is_nonneg, arith, pos,
  int32_of_bits, Error, ok, throw_if, throw_if-ok, ◌>>=◌, returned, ◌-◌,
}
use kvmem_test.Common.{◌++◌}
use kvmem_test.Tier.Pinned.{find, assign, erase_first}
use kvmem_test.Tier.Pinned.Count.{erase-none}
use kvmem_test.Tier.Pinned.Places.{slot_in_range, int32_small, find-assign}
use kvmem_test.Tier.Nvme.{
  FileOps, NvmeKvTier, enabled, block_slot, touch_locked, admit, place_free, place_block_locked,
  slot_offset, validate_io, validate_slot_range_io, or_throw, write_slot_range, write_slot,
  read_slot_range, read_slot, write_block, read_block,
}
use kvmem_test.Tier.Nvme.Invariant.{
  IsPool, as_pool, touch_locked_lem, touch_locked-IsPool, place_block_locked-IsPool,
  place_block_locked-some, place_block_locked-none,
}

-- What the tier relies on of a file: bytes that were written are read back, and a write leaves the
-- bytes outside its range alone.
pub record FileLaws {F : Type 0} (o : FileOps F) : Type 0 where
  pub read_written :
      (f f' : F) (offset : ℕ) (data' : List ℕ)
      → o.pwrite f offset data' ≡ some f'
      → o.pread f' offset (length data') ≡ some data'
  pub read_other :
      (f f' : F) (offset : ℕ) (data' : List ℕ) (start bytes : ℕ)
      → o.pwrite f offset data' ≡ some f'
      → (start + bytes ≤ offset) ⊎ (offset + length data' ≤ start)
      → o.pread f' start bytes ≡ o.pread f start bytes

find-assign_ne :
    (k j v : ℕ) (m : List (ℕ × ℕ))
    → find k m ≡ none
    → (k == j) ≡ false
    → find j (assign k v m) ≡ find j m
unfolding find assign
find-assign_ne k j v m e h = rw (h, erase-none k m e) refl

or_throw-ok : {A : Type 0} (x : Option A) {a : A} → or_throw x ≡ ok a → x ≡ some a
or_throw-ok none h = cc
or_throw-ok (some b) h = cc

module _ {F : Type 0} where
  -- A placement that has found a slot.
  pub record IsPlacedAt (t t' : NvmeKvTier F) (id slot : ℕ) : Type 0 where
    pub same :
        t' ≡ record t { free_slots = t'.free_slots; block_to_slot = t'.block_to_slot; lru = t'.lru }
    pub found : find id t'.block_to_slot ≡ some slot
    pub others : (j : ℕ) → (id == j) ≡ false → find j t'.block_to_slot ≡ find j t.block_to_slot

  place_free-IsPlacedAt :
      (t : NvmeKvTier F) (id : ℕ) (free : List ℕ)
      → IsPool t
      → t.free_slots ≡ free
      → find id t.block_to_slot ≡ none
      → is_nonneg (place_free t id free).1.slot ≡ true
      → (slot : ℕ) × (slot < t.slot_count)
        × ((place_free t id free).1.slot ≡ int32_of_bits slot)
        × IsPlacedAt t (place_free t id free).0 id slot
  unfolding place_free admit
  place_free-IsPlacedAt t id [] v h e p = cc
  place_free-IsPlacedAt t id (slot ∷ rest) v h e p =
      let at = rw h at (v.pool.slots slot) in
      let inside : slot < t.slot_count = ground arith in
      let t₁ = record t { free_slots = rest; block_to_slot = assign id slot t.block_to_slot } in
      (
        slot,
        inside,
        refl,
        rw (touch_locked_lem t₁ id v.mapped) (record {
          same = refl;
          found = find-assign id slot t.block_to_slot;
          others = λ j k. find-assign_ne id j slot t.block_to_slot e k;
        }),
      )

  pub place_block_locked-IsPlacedAt :
      (t : NvmeKvTier F) (id : ℕ)
      → IsPool t
      → is_nonneg (place_block_locked t id).1.slot ≡ true
      → (slot : ℕ) × (slot < t.slot_count)
        × ((place_block_locked t id).1.slot ≡ int32_of_bits slot)
        × IsPlacedAt t (place_block_locked t id).0 id slot
  place_block_locked-IsPlacedAt t id v p = elim (Option-cases (find id t.block_to_slot)) [
    | inl e ↦
        let same = place_block_locked-none t id v.mapped e in
        rw same (place_free-IsPlacedAt t id t.free_slots v refl e (rw same at p))
    | inr (slot, e) ↦
        rw (place_block_locked-some t id slot v.mapped e, touch_locked_lem t id v.mapped)
          (
            slot,
            slot_in_range (as_pool t) id slot v.pool e,
            refl,
            record { same = refl; found = e; others = λ j k. refl },
          )
  ]

  module _ (o : FileOps F) where
    -- A read of a resident block is a read of the file at its slot.
    pub read_block-resident :
        (t : NvmeKvTier F) (id slot bytes : ℕ)
        → find id t.block_to_slot ≡ some slot
        → slot < t.slot_count
        → t.slot_count ≤ 2 ^ 31
        → enabled t ≡ true
        → bytes ≤ t.cfg.slot_bytes
        → read_block o t id bytes ≡ (
            or_throw (o.pread t.file (add64 (slot_offset t slot) 0) bytes) >>= λ data'.
            ok (touch_locked t id, data'))
    unfolding read_block block_slot read_slot read_slot_range validate_slot_range_io validate_io
    read_block-resident t id slot bytes e inside small on fits =
        let at : block_slot t id ≡ pos slot = rw (e, block_slot) (int32_small slot (omega arith)) in
        let short : ltb t.cfg.slot_bytes bytes ≡ false = ground arith in
        let in_pool : leb t.slot_count slot ≡ false = ground arith in
        let no_offset : ltb t.cfg.slot_bytes 0 ≡ false = ground arith in
        let in_slot : ltb (t.cfg.slot_bytes - 0) bytes ≡ false = ground arith in
        rw (on, short, at, in_pool, no_offset, in_slot) refl

    write_slot-ok :
        (t : NvmeKvTier F) (slot : ℕ) (data' : List ℕ) {t' : NvmeKvTier F}
        → write_slot o t (pos slot) data' ≡ ok t'
        → (file' : F) × (o.pwrite t.file (add64 (slot_offset t slot) 0) data' ≡ some file')
          × (t' ≡ record t { file = file' })
    unfolding write_slot write_slot_range
    write_slot-ok t slot data' h =
        let (_, _, h₁) = returned (throw_if t.cfg.read_only Error.attached_read_only) _ h in
        let (_, _, h₂) = returned (validate_slot_range_io t (pos slot) 0 (length data')) _ h₁ in
        let (file', written, h₃) = returned (or_throw (o.pwrite t.file _ data')) _ h₂ in
        (file', or_throw-ok _ written, cc)

    -- What a write that returns has done.
    pub record IsWritten (t t' : NvmeKvTier F) (id : ℕ) (data' : List ℕ) : Type 0 where
      pub on : enabled t ≡ true
      pub fits : length data' ≤ t.cfg.slot_bytes
      pub slot : ℕ
      pub inside : slot < t.slot_count
      pub same : t' ≡ record t {
        file = t'.file;
        free_slots = t'.free_slots;
        block_to_slot = t'.block_to_slot;
        lru = t'.lru;
      }
      pub written : o.pwrite t.file (add64 (slot_offset t slot) 0) data' ≡ some t'.file
      pub found : find id t'.block_to_slot ≡ some slot
      pub others : (j : ℕ) → (id == j) ≡ false → find j t'.block_to_slot ≡ find j t.block_to_slot
      pub pool : IsPool t'

    IsPlacedAt-IsWritten :
        (t t₁ : NvmeKvTier F) (id slot : ℕ) (data' : List ℕ) (file' : F)
        → t.cfg.direct_mapped ≡ false
        → enabled t ≡ true
        → length data' ≤ t.cfg.slot_bytes
        → slot < t.slot_count
        → IsPlacedAt t t₁ id slot
        → IsPool t₁
        → o.pwrite t₁.file (add64 (slot_offset t₁ slot) 0) data' ≡ some file'
        → IsWritten t (touch_locked (record t₁ { file = file' }) id) id data'
    unfolding slot_offset
    IsPlacedAt-IsWritten t t₁ id slot data' file' d on fits inside placed v₁ written =
        let same_cfg : t₁.cfg ≡ t.cfg = ap (λ x. x.cfg) placed.same in
        let same_file : t₁.file ≡ t.file = ap (λ x. x.file) placed.same in
        let d' : t₁.cfg.direct_mapped ≡ false = ap (λ c. c.direct_mapped) same_cfg ∙ d in
        rw (touch_locked_lem (record t₁ { file = file' }) id d') (record {
          on = on;
          fits = fits;
          slot = slot;
          inside = inside;
          same =
              ap
                (λ (x : NvmeKvTier F). record x {
                  file = file';
                  lru = erase_first id t₁.lru ++ id ∷ [];
                })
                placed.same;
          written = rw (← same_cfg, ← same_file) written;
          found = placed.found;
          others = placed.others;
          pool = rw (← touch_locked_lem (record t₁ { file = file' }) id d') (
              touch_locked-IsPool (record t₁ { file = file' }) id slot placed.found
                (record {
                  mapped = v₁.mapped;
                  small = v₁.small;
                  pool = record {
                    slots = v₁.pool.slots;
                    order = v₁.pool.order;
                    once = v₁.pool.once;
                  };
                }));
        })

    pub write_block-IsWritten :
        (t t' : NvmeKvTier F) (id : ℕ) (data' : List ℕ)
        → IsPool t
        → write_block o t id data' ≡ ok t'
        → IsWritten t t' id data'
    unfolding write_block validate_io
    write_block-IsWritten t t' id data' v h =
        let (_, valid, h₁) = returned (validate_io t (length data')) _ h in
        let (_, on, fits) = returned (throw_if (not (enabled t)) Error.tier_disabled) _ valid in
        let (_, nonneg, h₂) =
          returned (throw_if (not (is_nonneg (place_block_locked t id).1.slot)) Error.tier_full) _
            h₁ in
        let p = place_block_locked t id in
        let on' : enabled t ≡ true = ground (arith, throw_if-ok (not (enabled t)) _ on) in
        let fits' : length data' ≤ t.cfg.slot_bytes =
          ground (arith, throw_if-ok (ltb t.cfg.slot_bytes (length data')) _ fits) in
        let nonneg' : is_nonneg p.1.slot ≡ true =
          ground (arith, throw_if-ok (not (is_nonneg p.1.slot)) _ nonneg) in
        let (t₂, wrote, h₃) = returned (write_slot o p.0 p.1.slot data') _ h₂ in
        let (slot, inside, at, placed) = place_block_locked-IsPlacedAt t id v nonneg' in
        let at' : p.1.slot ≡ pos slot = at ∙ int32_small slot (omega (arith, v.small)) in
        let wrote' : write_slot o p.0 (pos slot) data' ≡ ok t₂ =
          sym (ap (λ s. write_slot o p.0 s data') at') ∙ wrote in
        let (file', written, same) = write_slot-ok p.0 slot data' wrote' in
        let whole : ok (touch_locked (record (p.0) { file = file' }) id) ≡ ok t' =
          sym (ap (λ x. ok (touch_locked x id)) same) ∙ h₃ in
        let result : touch_locked (record (p.0) { file = file' }) id ≡ t' = cc in
        rw (← result) (
          IsPlacedAt-IsWritten t p.0 id slot data' file' v.mapped on' fits' inside placed
            (place_block_locked-IsPool t id v) written)

  module _ (o : FileOps F) (laws : FileLaws o) where
    -- If `write_block` returns, on a slot pool, then `read_block` of the same number of bytes of
    -- that block returns what was written.
    pub write_block-read_block :
        (t t' : NvmeKvTier F) (id : ℕ) (data' : List ℕ)
        → IsPool t
        → write_block o t id data' ≡ ok t'
        → (t'' : NvmeKvTier F) × (read_block o t' id (length data') ≡ ok (t'', data'))
    unfolding slot_offset
    write_block-read_block t t' id data' v h =
        let w = write_block-IsWritten o t t' id data' v h in
        let same_cfg : t'.cfg ≡ t.cfg = ap (λ x. x.cfg) w.same in
        let same_count : t'.slot_count ≡ t.slot_count = ap (λ x. x.slot_count) w.same in
        let same_open : t'.is_open ≡ t.is_open = ap (λ x. x.is_open) w.same in
        let on = w.on in
        let fits = w.fits in
        let inside = w.inside in
        let bytes : o.pread t'.file (add64 (slot_offset t' w.slot) 0) (length data') ≡ some data' =
          rw same_cfg
            (laws.read_written t.file t'.file (add64 (slot_offset t w.slot) 0) data' w.written) in
        rw
          (
            read_block-resident o t' id w.slot (length data') w.found (rw same_count inside)
                (rw same_count v.small) (rw (same_open, same_count) on) (rw same_cfg fits),
            bytes,
          )
          (touch_locked t' id, refl)
