-- ===== src/Tier/Nvme/Separate.antt =====
-- A write to one block of the SSD tier leaves the bytes of the others.
use kvmem_test.Common.{
  add64, ℕ, zero, suc, ◌+◌, ◌*◌, ◌%◌, ◌≤◌, ◌<◌, ◌≡◌, ◌⊎◌, refl, ap, ◌∙◌, List, [], ◌∷◌, length,
  false, ltb, ◌==◌, Bool-cases, inl, inr, Option, some, none, arith, u64_mod, Result, ok, ◌>>=◌,
  if◌then◌else◌,
}
use native.Mathlib.Nat.{mul-le-mul_right}
use kvmem_test.Tier.Pinned.{find, erase}
use kvmem_test.Tier.Pinned.Count.{count, values, erase-some}
use kvmem_test.Tier.Pinned.Places.{slot_in_range}
use kvmem_test.Tier.Nvme.{
  FileOps, NvmeKvTier, slot_offset, or_throw, touch_locked, write_block, read_block,
}
use kvmem_test.Tier.Nvme.Invariant.{IsPool, as_pool}
use kvmem_test.Tier.Nvme.Data.{FileLaws, write_block-IsWritten, read_block-resident}

find-erase_ne : (i j : ℕ) (m : List (ℕ × ℕ)) → (i == j) ≡ false → find j (erase i m) ≡ find j m
unfolding find erase
find-erase_ne i j [] h = refl
find-erase_ne i j ((k, v) ∷ m) h = elim (Bool-cases (k == i)) [
  | inl e ↦ let other : (k == j) ≡ false = ground arith in rw (e, other) refl
  | inr e ↦ rw e (ap (λ x. if k == j then some v else x) (find-erase_ne i j m h))
]

-- Two blocks with one slot are two entries with it.
shared_slot :
    (i j v : ℕ) (m : List (ℕ × ℕ))
    → find i m ≡ some v
    → find j m ≡ some v
    → (i == j) ≡ false
    → 2 ≤ count v (values m)
shared_slot i j v m e f h =
    let first = erase-some i v v m e in
    let second = erase-some j v v (erase i m) (find-erase_ne i j m h ∙ f) in
    ground (arith, first.1, second.1)

pub slot_end : (a b k : ℕ) → a < b → a * k + k ≤ b * k
slot_end a b k h = let step : (a + 1) * k ≤ b * k = mul-le-mul_right k (omega arith) in ground arith

unwrapped : (x : ℕ) → x < u64_mod → add64 (x % u64_mod) 0 ≡ x
unwrapped x h = omega arith

-- The byte ranges of two slots of a file of at most 2^64 bytes.
slots_apart :
    (a b n k bytes len : ℕ)
    → (a == b) ≡ false
    → a < n
    → b < n
    → n * k ≤ u64_mod
    → bytes ≤ k
    → len ≤ k
    → (add64 (b * k % u64_mod) 0 + bytes ≤ add64 (a * k % u64_mod) 0)
      ⊎ (add64 (a * k % u64_mod) 0 + len ≤ add64 (b * k % u64_mod) 0)
slots_apart a b n zero bytes len ne ha hb fit hbytes hlen = inl (ground arith)
slots_apart a b n (suc k) bytes len ne ha hb fit hbytes hlen =
    let first = slot_end a n (suc k) ha in
    let second = slot_end b n (suc k) hb in
    let at_a : add64 (a * suc k % u64_mod) 0 ≡ a * suc k = unwrapped (a * suc k) (omega arith) in
    let at_b : add64 (b * suc k % u64_mod) 0 ≡ b * suc k = unwrapped (b * suc k) (omega arith) in
    rw (at_a, at_b)
      (elim (Bool-cases (ltb a b)) [
        | inl h ↦ let step = slot_end a b (suc k) (ground arith) in inr (ground arith)
        | inr h ↦ let step = slot_end b a (suc k) (ground arith) in inl (ground arith)
      ])

abbrev with_tier : {T : Type 0} → T → List ℕ → Result (T × List ℕ)
with_tier t data' = ok (t, data')

same_read :
    {T : Type 0} (r : Option (List ℕ)) (t t' : T)
    → (or_throw r >>= with_tier t >>= λ x. ok x.1) ≡ (or_throw r >>= with_tier t' >>= λ x. ok x.1)
same_read none t t' = refl
same_read (some x) t t' = refl

module _ {F : Type 0} (o : FileOps F) (laws : FileLaws o) where
  -- On a slot pool whose bytes are counted in 64 bits, a `write_block` that returns leaves what `read_block` returns of any other resident block as it was.
  pub write_block-read_other :
      (t t' : NvmeKvTier F) (id j slot bytes : ℕ) (data' : List ℕ)
      → IsPool t
      → t.slot_count * t.cfg.slot_bytes ≤ u64_mod
      → write_block o t id data' ≡ ok t'
      → (id == j) ≡ false
      → find j t.block_to_slot ≡ some slot
      → bytes ≤ t.cfg.slot_bytes
      → (read_block o t' j bytes >>= λ r. ok r.1) ≡ (read_block o t j bytes >>= λ r. ok r.1)
  unfolding slot_offset
  write_block-read_other t t' id j slot bytes data' v fit64 h ne e fits =
      let w = write_block-IsWritten o t t' id data' v h in
      let same_cfg : t'.cfg ≡ t.cfg = ap (λ x. x.cfg) w.same in
      let same_count : t'.slot_count ≡ t.slot_count = ap (λ x. x.slot_count) w.same in
      let same_open : t'.is_open ≡ t.is_open = ap (λ x. x.is_open) w.same in
      let on = w.on in
      let inside : slot < t.slot_count = slot_in_range (as_pool t) j slot v.pool e in
      let there : find j t'.block_to_slot ≡ some slot = w.others j ne ∙ e in
      let apart : (w.slot == slot) ≡ false = elim (Bool-cases (w.slot == slot)) [
        | inl k ↦
            let same : w.slot ≡ slot = ground arith in
            absurd (
              ground (
                arith,
                shared_slot id j slot t'.block_to_slot (w.found ∙ ap some same) there ne,
                w.pool.pool.slots slot,
              ))
        | inr k ↦ k
      ] in
      let untouched : o.pread t'.file (add64 (slot_offset t' slot) 0) bytes
          ≡ o.pread t.file (add64 (slot_offset t slot) 0) bytes =
        rw same_cfg (
          laws.read_other t.file t'.file _ data' _ bytes w.written (
            slots_apart w.slot slot t.slot_count t.cfg.slot_bytes bytes (length data') apart
              w.inside inside fit64 fits w.fits)) in
      rw
        (
          read_block-resident o t j slot bytes e inside v.small on fits,
          read_block-resident o t' j slot bytes there (rw same_count inside) (rw same_count v.small)
              (rw (same_open, same_count) on) (rw same_cfg fits),
          untouched,
        )
        (same_read (o.pread t.file (add64 (slot_offset t slot) 0) bytes) (touch_locked t' j)
          (touch_locked t j))
