-- ===== src/Tier/Nvme/Spans/Merge.antt =====
-- Spans that are merged to one write, and the same writes one by one.
use kvmem_test.Common.{
  ℕ, zero, suc, ◌+◌, ◌*◌, ◌%◌, ◌≤◌, ◌<◌, ◌≡◌, refl, sym, ap, ◌∙◌, ℤ, pos, negsuc, true, false, ◌&&◌,
  List, [], ◌∷◌, ◌++◌, Option, none, some, ltb, ◌==◌, length, take, drop, slice, add64, u64_mod,
  arith, All, Bool-cases, inl, inr, ok, ◌>>◌, length-take, length-drop,
}
use kvmem_test.Tier.Nvme.Separate.{slot_end}
use kvmem_test.Tier.Nvme.{
  FileOps, NvmeKvTier, enabled, slot_offset, slot_index, outside, validate_io,
}
use kvmem_test.Tier.Nvme.Spans.{NvmeIoSpan, validate_slot_io, check_span, follows, gather}

abbrev pub and_then : {A : Type 0} → Option A → (A → Option A) → Option A
and_then none next = none
and_then (some x) next = next x

and_then_assoc :
    {A : Type 0} (x : Option A) (f g : A → Option A)
    → and_then (and_then x f) g ≡ and_then x (λ a. and_then (f a) g)
and_then_assoc none f g = refl
and_then_assoc (some a) f g = refl

-- A write of bytes and of more bytes is a write of the first and then of the others behind them.
pub record AppendLaw {F : Type 0} (o : FileOps F) : Type 0 where
  pub write_append :
      (f : F) (offset : ℕ) (xs ys : List ℕ)
      → o.pwrite f offset (xs ++ ys)
        ≡ and_then (o.pwrite f offset xs) (λ f'. o.pwrite f' (offset + length xs) ys)

take_add : {A : Type 0} (n m : ℕ) (xs : List A) → take (n + m) xs ≡ take n xs ++ take m (drop n xs)
take_add zero m xs = let e : 0 + m ≡ m = omega arith in ap (λ k. take k xs) e
take_add (suc n) zero [] = let e : suc n + 0 ≡ suc n = omega arith in ap (λ k. take k []) e
take_add (suc n) (suc m) [] =
    let e : suc n + suc m ≡ suc (n + suc m) = omega arith in ap (λ k. take k []) e
take_add (suc n) m (x ∷ xs) =
    let e : suc n + m ≡ suc (n + m) = omega arith in
    ap (λ k. take k (x ∷ xs)) e ∙ ap (λ l. x ∷ l) (take_add n m xs)

drop_add : {A : Type 0} (n m : ℕ) (xs : List A) → drop (n + m) xs ≡ drop m (drop n xs)
drop_add zero m xs = let e : 0 + m ≡ m = omega arith in ap (λ k. drop k xs) e
drop_add (suc n) zero [] = let e : suc n + 0 ≡ suc n = omega arith in ap (λ k. drop k []) e
drop_add (suc n) (suc m) [] =
    let e : suc n + suc m ≡ suc (n + suc m) = omega arith in ap (λ k. drop k []) e
drop_add (suc n) m (x ∷ xs) =
    let e : suc n + m ≡ suc (n + m) = omega arith in ap (λ k. drop k (x ∷ xs)) e ∙ drop_add n m xs

slice_append :
    {A : Type 0} (from n m : ℕ) (xs : List A)
    → slice from (n + m) xs ≡ slice from n xs ++ slice (from + n) m xs
slice_append from n m xs =
    take_add n m (drop from xs) ∙ ap (λ l. slice from n xs ++ take m l) (sym (drop_add from n xs))

pub length-slice :
    {A : Type 0} (from n : ℕ) (xs : List A) → from + n ≤ length xs → length (slice from n xs) ≡ n
length-slice from n xs h =
    let rest = length-drop from xs in omega (arith, length-take n (drop from xs))

pub inside_index : (z : ℤ) (n : ℕ) → outside z n ≡ false → slot_index z < n
inside_index (pos slot) n h = ground (arith, h)
inside_index (negsuc _) n h = cc

three_equal :
    (x y p q u w : ℕ) → ((x == y) && (p == q) && (u == w)) ≡ true → (x ≡ y) × (p ≡ q) × (u ≡ w)
three_equal x y p q u w h = ground arith

next_slot :
    (p n size : ℕ)
    → p + 1 < n
    → n * size ≤ u64_mod
    → (p + 1) * size % u64_mod ≡ p * size % u64_mod + size
next_slot p n zero h fit = omega arith
next_slot p n (suc k) h fit =
    let after = slot_end (p + 1) n (suc k) h in
    let step : (p + 1) * suc k ≡ p * suc k + suc k = ground arith in omega (arith, after, step)

-- A span of a slot that its bytes fit, with its bytes in the buffer.
pub record IsSpan (slot_bytes count size : ℕ) (span : NvmeIoSpan) : Type 0 where
  pub inside : outside span.slot count ≡ false
  pub fits : span.bytes ≤ slot_bytes
  pub buffered : span.buffer_offset + span.bytes ≤ size

module _ {F : Type 0} where
  next_offset :
      (t : NvmeKvTier F) (p : ℕ)
      → p + 1 < t.slot_count
      → t.slot_count * t.cfg.slot_bytes ≤ u64_mod
      → slot_offset t (p + 1) ≡ slot_offset t p + t.cfg.slot_bytes
  unfolding slot_offset
  next_offset t p h fit = next_slot p t.slot_count t.cfg.slot_bytes h fit

  pub check_span-ok :
      (t : NvmeKvTier F) (size : ℕ) (span : NvmeIoSpan)
      → enabled t ≡ true
      → size < u64_mod
      → IsSpan t.cfg.slot_bytes t.slot_count size span
      → check_span t size span ≡ ok tt
  unfolding check_span validate_slot_io validate_io
  check_span-ok t size span on small v =
      let fits = v.fits in
      let buffered = v.buffered in
      let short : ltb t.cfg.slot_bytes span.bytes ≡ false = ground arith in
      let within : ltb size (add64 span.buffer_offset span.bytes) ≡ false = ground arith in
      rw (on, short, v.inside, within) refl

  module _ (o : FileOps F) where
    -- One span after the other, in the file.
    abbrev pub file_each : NvmeKvTier F → List ℕ → List NvmeIoSpan → F → Option F
    file_each t buffer [] f = some f
    file_each t buffer (span ∷ spans) f =
        and_then
          (o.pwrite f (slot_offset t (slot_index span.slot))
            (slice span.buffer_offset span.bytes buffer))
          (file_each t buffer spans)

    -- The write of merged bytes and of one more span, as two writes.
    merged_writes :
        (laws : AppendLaw o) (f : F) (offset offset' from n m : ℕ) (buffer : List ℕ)
        → from + n ≤ length buffer
        → offset' ≡ offset + n
        → o.pwrite f offset (slice from (n + m) buffer)
          ≡ and_then
              (o.pwrite f offset (slice from n buffer))
              (λ f'. o.pwrite f' offset' (slice (from + n) m buffer))
    merged_writes laws f offset offset' from n m buffer h e =
        let size : offset + length (slice from n buffer) ≡ offset' =
          omega (arith, length-slice from n buffer h) in
        ap (o.pwrite f offset) (slice_append from n m buffer)
        ∙ laws.write_append f offset _ _
        ∙ ap
            (λ at.
              and_then (o.pwrite f offset (slice from n buffer))
                (λ f'. o.pwrite f' at (slice (from + n) m buffer)))
            size

    -- What a run of merged spans is: its bytes, the spans left, and the same writes.
    pub record IsGathered (t : NvmeKvTier F) (buffer : List ℕ) (first : NvmeIoSpan) (merged : ℕ)
        (prev : NvmeIoSpan) (spans : List NvmeIoSpan) : Type 0 where
      pub total : ℕ
      pub rest : List NvmeIoSpan
      pub ran : gather t (length buffer) first merged prev spans ≡ ok (total, rest)
      pub shorter : length rest ≤ length spans
      pub valid : All (IsSpan t.cfg.slot_bytes t.slot_count (length buffer)) rest
      pub same :
          (f : F)
          → and_then
              (o.pwrite f
                (slot_offset t (slot_index first.slot))
                (slice first.buffer_offset total buffer))
              (file_each t buffer rest)
            ≡ and_then
                (o.pwrite f
                  (slot_offset t (slot_index first.slot))
                  (slice first.buffer_offset merged buffer))
                (file_each t buffer spans)

    pub gather-IsGathered :
        (laws : AppendLaw o) (t : NvmeKvTier F) (buffer : List ℕ) (first : NvmeIoSpan) (merged : ℕ)
        (prev : NvmeIoSpan) (spans : List NvmeIoSpan)
        → enabled t ≡ true
        → length buffer < u64_mod
        → t.slot_count * t.cfg.slot_bytes ≤ u64_mod
        → IsSpan t.cfg.slot_bytes t.slot_count (length buffer) prev
        → slot_offset t (slot_index first.slot) + merged
          ≡ slot_offset t (slot_index prev.slot) + prev.bytes
        → first.buffer_offset + merged ≤ length buffer
        → All (IsSpan t.cfg.slot_bytes t.slot_count (length buffer)) spans
        → IsGathered t buffer first merged prev spans
    unfolding gather
    gather-IsGathered laws t buffer first merged prev [] on small fit64 vp at within vs = record {
      total = merged;
      rest = [];
      ran = refl;
      shorter = omega arith;
      valid = tt;
      same = λ f. refl;
    }
    gather-IsGathered laws t buffer first merged prev (next ∷ spans) on small fit64 vp at within
          (v, vs) =
        elim (Bool-cases (follows t first merged prev next)) [
          | inl h ↦
              let (slots, whole, starts) =
                three_equal (slot_index next.slot) (slot_index prev.slot + 1) prev.bytes
                  t.cfg.slot_bytes next.buffer_offset (add64 first.buffer_offset merged) h in
              let buffered = v.buffered in
              let start : next.buffer_offset ≡ first.buffer_offset + merged = omega arith in
              let sum : add64 merged next.bytes ≡ merged + next.bytes = omega arith in
              let below = inside_index next.slot t.slot_count v.inside in
              let step : slot_offset t (slot_index next.slot)
                  ≡ slot_offset t (slot_index prev.slot) + t.cfg.slot_bytes =
                ap (slot_offset t) slots
                ∙ next_offset t (slot_index prev.slot) (omega arith) fit64 in
              let g =
                gather-IsGathered laws t buffer first (merged + next.bytes) next spans on small
                  fit64 v (omega arith) (omega arith) vs in
              let shorter = g.shorter in
              record {
                total = g.total;
                rest = g.rest;
                ran =
                    rw (h, gather)
                      (ap
                          (λ c.
                            c
                            >> gather t (length buffer) first (add64 merged next.bytes) next spans)
                          (check_span-ok t (length buffer) next on small v)
                        ∙ ap (λ m. gather t (length buffer) first m next spans) sum
                        ∙ g.ran);
                shorter = omega arith;
                valid = g.valid;
                same = λ f.
                    g.same f
                    ∙ ap (λ x. and_then x (file_each t buffer spans))
                        (merged_writes laws f (slot_offset t (slot_index first.slot))
                            (slot_offset t (slot_index next.slot)) first.buffer_offset merged
                            next.bytes buffer within (omega arith)
                          ∙ ap
                              (λ at.
                                and_then
                                  (o.pwrite f (slot_offset t (slot_index first.slot))
                                    (slice first.buffer_offset merged buffer))
                                  (λ f'.
                                    o.pwrite f' (slot_offset t (slot_index next.slot))
                                      (slice at next.bytes buffer)))
                              (sym start))
                    ∙ and_then_assoc
                        (o.pwrite f (slot_offset t (slot_index first.slot))
                          (slice first.buffer_offset merged buffer))
                        (λ f'.
                          o.pwrite f' (slot_offset t (slot_index next.slot))
                            (slice next.buffer_offset next.bytes buffer))
                        (file_each t buffer spans);
              }
          | inr h ↦ record {
            total = merged;
            rest = next ∷ spans;
            ran = rw (h, gather) refl;
            shorter = omega arith;
            valid = (v, vs);
            same = λ f. refl;
          }
        ]
