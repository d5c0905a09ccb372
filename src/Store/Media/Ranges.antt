-- ===== src/Store/Media/Ranges.antt =====
-- The media groups of kvmem_store.cpp against the media ranges that they are made from.
use kvmem_test.Common.{
  ℕ, zero, suc, ◌+◌, ◌-◌, ◌*◌, ◌/◌, ◌≤◌, ◌<◌, ◌≡◌, ◌↔◌, refl, sym, ap, ◌∙◌, Bool, true, false, not,
  ◌&&◌, ◌||◌, List, [], ◌∷◌, some, get_elem?, ltb, leb, min, max, add32, sub32, u32_mod, arith,
  Bool-cases, inl, inr, All,
}
use native.Mathlib.Nat.{mul-le-mul_right}
use kvmem_test.Store.Types.{KvMemStore, block_count}
use kvmem_test.Store.Table.Layout.{IsLaid, Laid-count}
use kvmem_test.Store.Budget.Keep.{div_mono}
use kvmem_test.Store.Media.{merge_group, group_of, add_groups, media_groups}
use kvmem_test.Store.Media.Keep.{group_of_self}
use kvmem_test.Store.Media.Whole.{
  Apart, StartsBefore, InOrder, merge_group-Apart, group_of_member, add_groups-Apart,
  StartsBefore-weaken,
}

-- A group of the list holds block `i` and the next one.
abbrev pairs : List (ℕ × ℕ) → ℕ → Bool
pairs [] i = false
pairs ((a, b) ∷ groups) i = (leb a i && ltb (i + 1) b) || pairs groups i

-- The blocks of a range that the source takes hold block `i` and the next one.
abbrev spans : ℕ → ℕ → ℕ → ℕ × ℕ → ℕ → Bool
spans n bt total (start, end) i =
    not (leb total start || leb end start)
    && leb (start / bt) i
    && ltb (i + 1) (min n (sub32 (add32 end bt) 1 / bt))

abbrev spanned : ℕ → ℕ → ℕ → List (ℕ × ℕ) → ℕ → Bool
spanned n bt total [] i = false
spanned n bt total (r ∷ ranges) i = spans n bt total r i || spanned n bt total ranges i

joined :
    (a b f e i : ℕ)
    → a ≤ f
    → f < b
    → (leb a i && ltb (i + 1) (max b e))
      ≡ ((leb f i && ltb (i + 1) e) || (leb a i && ltb (i + 1) b))
joined a b f e i h k = ground arith

or_assoc : (a b c : Bool) → ((a || b) || c) ≡ (a || (b || c))
or_assoc true b c = refl
or_assoc false b c = refl

pushed :
    (later x first rest : Bool) → x ≡ (first || rest) → (later || x) ≡ ((first || later) || rest)
pushed true x true rest e = refl
pushed true x false rest e = refl
pushed false x true rest e = e
pushed false x false rest e = e

or_false : (b : Bool) → (b || false) ≡ b
or_false true = refl
or_false false = refl

merge_group-pairs :
    (first end i : ℕ) (groups : List (ℕ × ℕ))
    → StartsBefore first groups
    → pairs (merge_group first end groups) i ≡ ((leb first i && ltb (i + 1) end) || pairs groups i)
unfolding merge_group
merge_group-pairs first end i [] h = refl
merge_group-pairs first end i ((a, b) ∷ groups) h = elim (Bool-cases (ltb first b)) [
  | inl inside ↦ rw inside (
      ap (λ x. x || pairs groups i) (joined a b first end i h (ground arith))
      ∙ or_assoc (leb first i && ltb (i + 1) end) (leb a i && ltb (i + 1) b) (pairs groups i))
  | inr after ↦ rw after refl
]

-- The group of a block ends behind the next one exactly if a group of the list holds both.
pairs-below :
    (a i : ℕ) (groups : List (ℕ × ℕ)) → All (λ g. g.1 ≤ a) groups → a ≤ i → pairs groups i ≡ false
pairs-below a i [] v h = refl
pairs-below a i ((c, d) ∷ groups) (e, v) h = ground (arith, pairs-below a i groups v h)

group_of-pairs :
    (groups : List (ℕ × ℕ)) (i : ℕ) → i + 1 < (group_of groups i).1 → pairs groups i ≡ true
unfolding group_of
group_of-pairs [] i h = absurd (omega arith)
group_of-pairs ((a, b) ∷ groups) i h = elim (Bool-cases (leb a i && ltb i b)) [
  | inl here ↦ let h' : i + 1 < b = rw here at h in ground arith
  | inr later ↦
      let h' : i + 1 < (group_of groups i).1 = rw later at h in
      ground (arith, group_of-pairs groups i h')
]

pairs-group_of :
    (groups : List (ℕ × ℕ)) (i : ℕ)
    → Apart groups
    → pairs groups i ≡ true
    → i + 1 < (group_of groups i).1
unfolding group_of
pairs-group_of [] i v h = absurd (ground arith)
pairs-group_of ((a, b) ∷ groups) i (v, w) h = elim (Bool-cases (leb a i && ltb i b)) [
  | inl here ↦
      let none_below = pairs-below a i groups v (ground arith) in
      rw here (ground (arith, none_below))
  | inr later ↦ rw later (pairs-group_of groups i w (ground arith))
]

same_group-pairs :
    (groups : List (ℕ × ℕ)) (i : ℕ)
    → Apart groups
    → (group_of groups i ≡ group_of groups (i + 1)) ↔ (pairs groups i ≡ true)
same_group-pairs groups i v = (
  (λ same.
      let (lo, hi) = group_of_self groups (i + 1) in
      let hi' : i + 1 < (group_of groups i).1 = rw (← same) at hi in group_of-pairs groups i hi'),
  (λ h.
      let (lo, hi) = group_of_self groups i in
      sym (group_of_member groups i (i + 1) v (omega arith) (pairs-group_of groups i v h))),
)

-- A range reaches over a boundary between two blocks of the table exactly if it starts before it and
-- ends behind it.
quotient_le : (start i bt : ℕ) → 0 < bt → leb (start / bt) i ≡ ltb start ((i + 1) * bt)
quotient_le start i bt h = grind arith

rounded_up : (end i bt : ℕ) → 0 < bt → ltb (i + 1) ((end + bt - 1) / bt) ≡ ltb ((i + 1) * bt) end
rounded_up end i bt h = grind arith

boundary_inside : (i n bt total : ℕ) → i + 1 < n → n * bt < total + bt → (i + 1) * bt < total
boundary_inside i n bt total h fits =
    let step : (i + 1 + 1) * bt ≤ n * bt = mul-le-mul_right bt (omega arith) in omega arith

no_wrap : (end bt : ℕ) → 0 < bt → end + bt ≤ u32_mod → sub32 (add32 end bt) 1 ≡ end + bt - 1
no_wrap end bt h fits = omega arith

crosses :
    (start end total n first last i boundary : ℕ)
    → boundary < total
    → i + 1 < n
    → leb first i ≡ ltb start boundary
    → ltb (i + 1) last ≡ ltb boundary end
    → (not (leb total start || leb end start) && leb first i && ltb (i + 1) (min n last))
      ≡ (ltb start boundary && ltb boundary end)
crosses start end total n first last i boundary h k e f = ground (arith, e, f)

spans-crosses :
    (n bt total start end i : ℕ)
    → 0 < bt
    → n * bt < total + bt
    → i + 1 < n
    → end + bt ≤ u32_mod
    → spans n bt total (start, end) i ≡ (ltb start ((i + 1) * bt) && ltb ((i + 1) * bt) end)
spans-crosses n bt total start end i h fits inside small =
    let last : ltb (i + 1) (sub32 (add32 end bt) 1 / bt) ≡ ltb ((i + 1) * bt) end =
      ap (λ x. ltb (i + 1) (x / bt)) (no_wrap end bt h small) ∙ rounded_up end i bt h in
    crosses start end total n (start / bt) (sub32 (add32 end bt) 1 / bt) i ((i + 1) * bt)
      (boundary_inside i n bt total inside fits) inside (quotient_le start i bt h) last

-- Some range of the list reaches over the boundary.
abbrev pub Crossed : ℕ → List (ℕ × ℕ) → Type 0
Crossed boundary ranges =
    (k : ℕ) × (start : ℕ) × (end : ℕ) × (get_elem? ranges k ≡ some (start, end))
    × (start < boundary)
    × (boundary < end)

spanned-Crossed :
    (n bt total i : ℕ) (ranges : List (ℕ × ℕ))
    → 0 < bt
    → n * bt < total + bt
    → i + 1 < n
    → All (λ r. r.1 + bt ≤ u32_mod) ranges
    → (spanned n bt total ranges i ≡ true) ↔ Crossed ((i + 1) * bt) ranges
spanned-Crossed n bt total i [] h fits inside v = ((λ e. cc), (λ (k, start, end, e, _, _). cc))
spanned-Crossed n bt total i ((start, end) ∷ ranges) h fits inside (small, v) =
    let here = spans-crosses n bt total start end i h fits inside small in
    let (there, back) = spanned-Crossed n bt total i ranges h fits inside v in
    (
      (λ e. elim (Bool-cases (spans n bt total (start, end) i)) [
        | inl first ↦
            let crossed : (ltb start ((i + 1) * bt) && ltb ((i + 1) * bt) end) ≡ true =
              sym here ∙ first in
            (0, start, end, refl, ground arith, ground arith)
        | inr later ↦ let (k, a, b, f, lo, hi) = there (ground arith) in (suc k, a, b, f, lo, hi)
      ]),
      (λ crossed. from_crossed ranges (spans n bt total (start, end) i) here back crossed),
    )
  where
    from_crossed :
        {start end boundary : ℕ} {rest : Bool} (ranges : List (ℕ × ℕ)) (first : Bool)
        → first ≡ (ltb start boundary && ltb boundary end)
        → (Crossed boundary ranges → rest ≡ true)
        → Crossed boundary ((start, end) ∷ ranges)
        → (first || rest) ≡ true
    from_crossed {start} {end} ranges first e back (zero, a, b, f, lo, hi) =
        let same : Path (ℕ × ℕ) (start, end) (a, b) = cc in
        let left : start ≡ a = ap (λ r. r.0) same in
        let right : end ≡ b = ap (λ r. r.1) same in ground (arith, e)
    from_crossed ranges first e back (suc k, a, b, f, lo, hi) =
        let later = back (k, a, b, f, lo, hi) in ground (arith, later)

module _ {D : Type 0} where
  add_groups-pairs :
      (s : KvMemStore D) (lo i : ℕ) (ranges groups : List (ℕ × ℕ))
      → 0 < s.block_tokens
      → InOrder lo ranges
      → StartsBefore (lo / s.block_tokens) groups
      → Apart groups
      → pairs (add_groups s ranges groups) i
        ≡ (spanned (block_count s) s.block_tokens s.total_tokens ranges i || pairs groups i)
  unfolding add_groups
  add_groups-pairs s lo i [] groups bt o b v = refl
  add_groups-pairs s lo i ((start, end) ∷ ranges) groups bt (le, o) b v =
      let b' =
        StartsBefore-weaken (lo / s.block_tokens) (start / s.block_tokens) groups
          (div_mono lo start s.block_tokens bt le) b in
      elim (Bool-cases (leb s.total_tokens start || leb end start)) [
        | inl skipped ↦ rw skipped (add_groups-pairs s start i ranges groups bt o b' v)
        | inr used ↦
            let (w, c) = merge_group-Apart (start / s.block_tokens) _ groups b' v in
            rw used (
              add_groups-pairs s start i ranges _ bt o c w
              ∙ pushed (spanned (block_count s) s.block_tokens s.total_tokens ranges i) _ _ _
                  (merge_group-pairs (start / s.block_tokens) _ i groups b'))
      ]

  -- On a laid table with media ranges in the order of their starts, whose ends rounded up to a block
  -- fit 32 bits, two blocks in a row are in one media group exactly if one of the ranges reaches over
  -- the boundary between them.
  pub media_groups-Crossed :
      (s : KvMemStore D) (i : ℕ)
      → IsLaid s
      → InOrder 0 s.media_ranges
      → All (λ r. r.1 + s.block_tokens ≤ u32_mod) s.media_ranges
      → i + 1 < block_count s
      → (group_of (media_groups s) i ≡ group_of (media_groups s) (i + 1))
        ↔ Crossed ((i + 1) * s.block_tokens) s.media_ranges
  media_groups-Crossed s i v order small inside =
      let bt = s.block_tokens in
      let n = block_count s in
      let total = s.total_tokens in
      let groups = media_groups s in
      let apart = add_groups-Apart s 0 s.media_ranges [] v.positive order tt tt in
      let (lo, hi) = Laid-count bt 0 0 s.blocks total v.laid (omega arith) in
      let listed : pairs groups i ≡ spanned n bt total s.media_ranges i =
        add_groups-pairs s 0 i s.media_ranges [] v.positive order tt tt ∙ or_false _ in
      let (there, back) =
        spanned-Crossed n bt total i s.media_ranges v.positive (omega arith) inside small in
      let (paired, grouped) = same_group-pairs groups i apart in
      ((λ e. there (sym listed ∙ paired e)), (λ c. grouped (listed ∙ back c)))
