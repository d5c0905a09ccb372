-- ===== src/Tier/Nvme/History.antt =====
-- Histories of calls of the SSD tier.
use kvmem_test.Common.{
  ℤ, throw, ℕ, ◌≤◌, ◌^◌, ◌≡◌, refl, List, [], ◌∷◌, length, false, not, Option-cases, inl, inr, some,
  is_nonneg, Result, ok, kept, throw_if, returned, ◌>>=◌, Error,
}
use kvmem_test.Tier.Pinned.{find}
use kvmem_test.Tier.Nvme.{
  or_throw, touch, mark_present_range, FileOps, NvmeKvTier, NvmeKvTierConfig, new_tier, slots_of,
  block_slot, touch_locked, place_block, place_block_evicting, release_block, clear, write_block,
  write_slot_range, read_block, read_slot, validate_io, validate_slot_range_io,
}
use kvmem_test.Tier.Nvme.Invariant.{
  IsPool, touch_locked-IsPool, place_block_locked-IsPool, place_block_evicting-IsPool,
  release_block-IsPool, clear-IsPool, new_tier-IsPool,
}
use kvmem_test.Tier.Nvme.Data.{write_block-IsWritten}

-- A public call that changes the tier. The batches of spans, which write to the file alone, are not
-- among them.
pub data NvmeCall : Type 0 where
  places evicts releases touches : ℕ → NvmeCall
  marks : ℕ → ℕ → NvmeCall
  clears : NvmeCall
  writes : ℕ → List ℕ → NvmeCall
  writes_range : ℤ → ℕ → List ℕ → NvmeCall
  reads : ℕ → ℕ → NvmeCall

module _ {F : Type 0} (o : FileOps F) where
  unfoldable pub nvme_step : NvmeKvTier F → NvmeCall → Result (NvmeKvTier F)
  nvme_step t (NvmeCall.places id) = ok (place_block t id).0
  nvme_step t (NvmeCall.evicts id) = ok (place_block_evicting t id).0
  nvme_step t (NvmeCall.releases id) = ok (release_block t id)
  nvme_step t (NvmeCall.touches id) = ok (touch t id)
  nvme_step t (NvmeCall.marks begin end) = mark_present_range t begin end
  nvme_step t NvmeCall.clears = ok (clear t)
  nvme_step t (NvmeCall.writes id data') = write_block o t id data'
  nvme_step t (NvmeCall.writes_range slot off data') = write_slot_range o t slot off data'
  nvme_step t (NvmeCall.reads id bytes) = read_block o t id bytes >>= λ r. ok r.0

  unfoldable pub run_nvme : NvmeKvTier F → List NvmeCall → Result (NvmeKvTier F)
  unfolding nvme_step
  run_nvme t [] = ok t
  run_nvme t (call ∷ calls) = nvme_step t call >>= λ t'. run_nvme t' calls

  -- A call of `touch` from outside is for a resident block.
  abbrev pub IsAllowed : NvmeKvTier F → NvmeCall → Type 0
  IsAllowed t (NvmeCall.touches id) = (slot : ℕ) × (find id t.block_to_slot ≡ some slot)
  IsAllowed t (NvmeCall.places id) = Unit {0}
  IsAllowed t (NvmeCall.evicts id) = Unit {0}
  IsAllowed t (NvmeCall.releases id) = Unit {0}
  IsAllowed t (NvmeCall.marks begin end) = Unit {0}
  IsAllowed t NvmeCall.clears = Unit {0}
  IsAllowed t (NvmeCall.writes id data') = Unit {0}
  IsAllowed t (NvmeCall.writes_range slot off data') = Unit {0}
  IsAllowed t (NvmeCall.reads id bytes) = Unit {0}

  -- Every call is allowed in the state in which it is made.
  unfoldable pub AllAllowed : NvmeKvTier F → List NvmeCall → Type 0
  unfolding nvme_step
  AllAllowed t [] = Unit {0}
  AllAllowed t (call ∷ calls) =
      IsAllowed t call
      × elim (nvme_step t call) [ throw error ↦ Unit {0} | ok t' ↦ AllAllowed t' calls ]

  read_block-IsPool :
      (t t' : NvmeKvTier F) (id bytes : ℕ) (data' : List ℕ)
      → IsPool t
      → read_block o t id bytes ≡ ok (t', data')
      → IsPool t'
  unfolding read_block block_slot
  read_block-IsPool t t' id bytes data' v h =
      let (_, _, h₁) = returned (validate_io t bytes) _ h in
      let (_, resident, h₂) =
        returned (throw_if (not (is_nonneg (block_slot t id))) Error.not_resident) _ h₁ in
      elim (Option-cases (find id t.block_to_slot)) [
        | inl e ↦ absurd (let bad = rw (e, block_slot) at resident in cc)
        | inr (slot, e) ↦
            let (read, _, h₃) = returned (read_slot o t (block_slot t id) bytes) _ h₂ in
            let same : touch_locked t id ≡ t' = cc in
            rw (← same) (touch_locked-IsPool t id slot e v)
      ]

  write_slot_range-IsPool :
      (t t' : NvmeKvTier F) (slot : ℤ) (off : ℕ) (data' : List ℕ)
      → IsPool t
      → write_slot_range o t slot off data' ≡ ok t'
      → IsPool t'
  unfolding write_slot_range
  write_slot_range-IsPool t t' slot off data' v h =
      let (_, _, h₁) = returned (throw_if t.cfg.read_only Error.attached_read_only) _ h in
      let (_, _, h₂) = returned (validate_slot_range_io t slot off (length data')) _ h₁ in
      let (file', _, h₃) = returned (or_throw (o.pwrite t.file _ data')) _ h₂ in
      kept IsPool h₃ (record { mapped = v.mapped; small = v.small; pool = v.pool })

  mark_present_range-throws :
      (t : NvmeKvTier F) (begin end : ℕ)
      → t.cfg.direct_mapped ≡ false
      → mark_present_range t begin end ≡ throw Error.not_direct_mapped
  unfolding mark_present_range
  mark_present_range-throws t begin end d = simp d refl

  nvme_step-IsPool :
      (t t' : NvmeKvTier F) (call : NvmeCall)
      → IsAllowed t call
      → IsPool t
      → nvme_step t call ≡ ok t'
      → IsPool t'
  unfolding nvme_step
  nvme_step-IsPool t t' (NvmeCall.touches id) (slot, e) v h =
      kept IsPool h (touch_locked-IsPool t id slot e v)
  nvme_step-IsPool t t' (NvmeCall.marks begin end) a v h =
      absurd (let thrown = mark_present_range-throws t begin end v.mapped in cc)
  nvme_step-IsPool t t' (NvmeCall.writes_range slot off data') a v h =
      write_slot_range-IsPool t t' slot off data' v h
  nvme_step-IsPool t t' (NvmeCall.places id) a v h =
      kept IsPool h (place_block_locked-IsPool t id v)
  nvme_step-IsPool t t' (NvmeCall.evicts id) a v h =
      kept IsPool h (place_block_evicting-IsPool t id v)
  nvme_step-IsPool t t' (NvmeCall.releases id) a v h = kept IsPool h (release_block-IsPool t id v)
  nvme_step-IsPool t t' NvmeCall.clears a v h = kept IsPool h (clear-IsPool t v)
  nvme_step-IsPool t t' (NvmeCall.writes id data') a v h =
      (write_block-IsWritten o t t' id data' v h).pool
  nvme_step-IsPool t t' (NvmeCall.reads id bytes) a v h =
      let ((t₁, data'), e, h₁) = returned (read_block o t id bytes) _ h in
      kept IsPool h₁ (read_block-IsPool t t₁ id bytes data' v e)

  run_from-IsPool :
      (t t' : NvmeKvTier F) (calls : List NvmeCall)
      → AllAllowed t calls
      → IsPool t
      → run_nvme t calls ≡ ok t'
      → IsPool t'
  unfolding run_nvme AllAllowed
  run_from-IsPool t t' [] a v h = kept IsPool h v
  run_from-IsPool t t' (call ∷ calls) (a, later) v h =
      let (t₁, e, h₁) = returned (nvme_step t call) _ h in
      let later' : AllAllowed t₁ calls = rw e at later in
      run_from-IsPool t₁ t' calls later' (nvme_step-IsPool t t₁ call a v e) h₁

  -- After any history of calls that return, on a new tier of at most 2^31 slots outside the
  -- direct-mapped mode, where `touch` is called only for resident blocks, each slot is free or holds
  -- one block, and the eviction order names the resident blocks once each. The calls are the
  -- placements, releases, touches, marks and clears, the writes of blocks and of parts of slots, and
  -- the reads of blocks.
  pub run_nvme-IsPool :
      (c : NvmeKvTierConfig) (file : F) (calls : List NvmeCall) (t : NvmeKvTier F)
      → c.direct_mapped ≡ false
      → slots_of c ≤ 2 ^ 31
      → AllAllowed (new_tier c file) calls
      → run_nvme (new_tier c file) calls ≡ ok t
      → IsPool t
  run_nvme-IsPool c file calls t d n allowed h =
      run_from-IsPool (new_tier c file) t calls allowed (new_tier-IsPool c file d n) h
