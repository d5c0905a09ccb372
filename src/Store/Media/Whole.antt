-- ===== src/Store/Media/Whole.antt =====
-- The blocks of a media group are selected together or not at all.
use kvmem_test.Common.{
  ℕ, zero, suc, ◌+◌, ◌/◌, ◌≤◌, ◌<◌, ◌≡◌, refl, sym, ap, ◌∙◌, Bool, true, false, ◌&&◌, ◌||◌, List,
  [], ◌∷◌, ltb, leb, ◌==◌, length, arith, contains, Bool-cases, inl, inr, ◌⊎◌, ok, returned, All,
}
use kvmem_test.Store.Types.{DoubleOps, KvMemStore, block_count, budget_blocks}
use kvmem_test.Store.Select.{Kept, none_kept, kept_ids, pick_topk_ungrouped}
use kvmem_test.Store.Select.Flags.{Counted, is_kept, is_kept-keep_all, none_kept-Counted}
use kvmem_test.Store.Select.Ids.{contains-kept_ids, contains-range}
use kvmem_test.Store.Semantic.Bounds.{keep_all-budget}
use kvmem_test.Store.Budget.Keep.{div_mono}
use kvmem_test.Store.Media.{
  merge_group, group_of, members, keep_group, add_groups, media_groups, media_kept, constrain_media,
  pick_topk_blocks,
}
use kvmem_test.Store.Media.Keep.{keep_group-cases, contains-members, group_of_self}
use kvmem_test.Store.Media.Fits.{media_kept-keeps}

-- Groups from the last one on, each of which starts where or after those before it end.
abbrev pub Apart : List (ℕ × ℕ) → Type 0
Apart [] = Unit {0}
Apart ((a, b) ∷ groups) = All (λ g. g.1 ≤ a) groups × Apart groups

-- The last group starts at or before `x`.
abbrev pub StartsBefore : ℕ → List (ℕ × ℕ) → Type 0
StartsBefore x [] = Unit {0}
StartsBefore x ((a, b) ∷ groups) = a ≤ x

-- Media ranges in the order of their starts, from `lo` on.
abbrev pub InOrder : ℕ → List (ℕ × ℕ) → Type 0
InOrder lo [] = Unit {0}
InOrder lo ((start, end) ∷ ranges) = (lo ≤ start) × InOrder start ranges

ends_before :
    (x y : ℕ) (groups : List (ℕ × ℕ))
    → x ≤ y
    → All (λ g. g.1 ≤ x) groups
    → All (λ g. g.1 ≤ y) groups
ends_before x y [] h v = tt
ends_before x y (g ∷ groups) h (e, v) = (omega arith, ends_before x y groups h v)

pub merge_group-Apart :
    (first end : ℕ) (groups : List (ℕ × ℕ))
    → StartsBefore first groups
    → Apart groups
    → Apart (merge_group first end groups) × StartsBefore first (merge_group first end groups)
unfolding merge_group
merge_group-Apart first end [] h v = ((tt, tt), omega arith)
merge_group-Apart first end ((a, b) ∷ groups) h (v, w) = elim (Bool-cases (ltb first b)) [
  | inl inside ↦ rw inside ((v, w), h)
  | inr after ↦ rw after (((ground arith, ends_before a first groups h v), (v, w)), omega arith)
]

-- A block's group is itself alone, or one of the list.
group_end :
    (groups : List (ℕ × ℕ)) (i a : ℕ)
    → All (λ g. g.1 ≤ a) groups
    → (group_of groups i ≡ (i, i + 1)) ⊎ ((group_of groups i).1 ≤ a)
unfolding group_of
group_end [] i a v = inl refl
group_end ((c, d) ∷ groups) i a (e, v) = elim (Bool-cases (leb c i && ltb i d)) [
  | inl first ↦ rw first (inr e)
  | inr later ↦ rw later (group_end groups i a v)
]

-- All members of a block's group have that group.
pub group_of_member :
    (groups : List (ℕ × ℕ)) (i j : ℕ)
    → Apart groups
    → (group_of groups i).0 ≤ j
    → j < (group_of groups i).1
    → group_of groups j ≡ group_of groups i
unfolding group_of
group_of_member [] i j v lo hi = let same : i ≡ j = omega arith in rw same refl
group_of_member ((a, b) ∷ groups) i j (v, w) lo hi = elim (Bool-cases (leb a i && ltb i b)) [
  | inl first ↦
      let here = rw first at lo in
      let there = rw first at hi in
      let also : (leb a j && ltb j b) ≡ true = ground arith in rw (first, also) refl
  | inr later ↦
      let from : (group_of groups i).0 ≤ j = rw later at lo in
      let until : j < (group_of groups i).1 = rw later at hi in
      elim (group_end groups i a v) [
        | inl alone ↦
            let same : i ≡ j =
              (let f' = rw alone at from in let u' = rw alone at until in omega arith) in
            rw same refl
        | inr ended ↦
            let before : (leb a j && ltb j b) ≡ false = ground arith in
            rw (later, before) (group_of_member groups i j w from until)
      ]
]

same_test : (a b : Bool) → (a ≡ true → b ≡ true) → (b ≡ true → a ≡ true) → a ≡ b
same_test true b f g = sym (f refl)
same_test false true f g = g refl
same_test false false f g = refl

in_members :
    (groups : List (ℕ × ℕ)) (id i j : ℕ)
    → Apart groups
    → group_of groups i ≡ group_of groups j
    → contains i (members groups id) ≡ true
    → contains j (members groups id) ≡ true
in_members groups id i j v same h =
    let at : (leb (group_of groups id).0 i && ltb i (group_of groups id).1) ≡ true =
      sym (contains-members groups id i) ∙ h in
    let (lo, hi) = both (group_of groups id).0 (group_of groups id).1 i at in
    let of_j : group_of groups j ≡ group_of groups id =
      sym same ∙ group_of_member groups id i v lo hi in
    let (from, until) = group_of_self groups j in
    contains-members groups id j
    ∙ inside (group_of groups id).0 (group_of groups id).1 j (rw of_j at from) (rw of_j at until)
  where
    both : (a b i : ℕ) → (leb a i && ltb i b) ≡ true → (a ≤ i) × (i < b)
    both a b i h = ground arith

    inside : (a b i : ℕ) → a ≤ i → i < b → (leb a i && ltb i b) ≡ true
    inside a b i h k = ground arith

-- The flags are those of whole groups.
record Closed (groups : List (ℕ × ℕ)) (n : ℕ) (k : Kept) : Type 0 where
  counted : Counted n k
  whole :
      (i j : ℕ) → i < n → j < n → group_of groups i ≡ group_of groups j → is_kept k i ≡ is_kept k j

keep_group-Closed :
    (groups : List (ℕ × ℕ)) (n budget : ℕ) (required : Bool) (id : ℕ) (k k' : Kept)
    → Apart groups
    → Closed groups n k
    → keep_group groups budget required id k ≡ ok k'
    → Closed groups n k'
keep_group-Closed groups n budget required id k k' apart v =
    keep_group-cases (Closed groups n) groups budget required id k k' (λ skipped. v)
      (λ inside fits. record {
        counted = (keep_all-budget n (members groups id) k v.counted).0;
        whole = λ i j a b same.
            let tests =
              same_test (contains i (members groups id)) (contains j (members groups id))
                (in_members groups id i j apart same) (in_members groups id j i apart (sym same)) in
            let before = v.whole i j a b same in
            let size = v.counted.size in
            is_kept-keep_all (members groups id) k i
            ∙ ground (arith, tests, before)
            ∙ sym (is_kept-keep_all (members groups id) k j);
      })

pub StartsBefore-weaken :
    (x y : ℕ) (groups : List (ℕ × ℕ)) → x ≤ y → StartsBefore x groups → StartsBefore y groups
StartsBefore-weaken x y [] h v = tt
StartsBefore-weaken x y ((a, b) ∷ groups) h v = omega arith

none_kept-clear : (n i : ℕ) → is_kept (none_kept n) i ≡ false
unfolding none_kept
none_kept-clear zero i = refl
none_kept-clear (suc n) zero = refl
none_kept-clear (suc n) (suc i) = none_kept-clear n i

no_ranges : (ranges : List (ℕ × ℕ)) → (length ranges == 0) ≡ true → ranges ≡ []
no_ranges [] h = refl
no_ranges (r ∷ ranges) h = absurd (ground arith)

module _ {D : Type 0} where
  pub add_groups-Apart :
      (s : KvMemStore D) (lo : ℕ) (ranges groups : List (ℕ × ℕ))
      → 0 < s.block_tokens
      → InOrder lo ranges
      → StartsBefore (lo / s.block_tokens) groups
      → Apart groups
      → Apart (add_groups s ranges groups)
  unfolding add_groups
  add_groups-Apart s lo [] groups bt o b v = v
  add_groups-Apart s lo ((start, end) ∷ ranges) groups bt (le, o) b v =
      let b' =
        StartsBefore-weaken (lo / s.block_tokens) (start / s.block_tokens) groups
          (div_mono lo start s.block_tokens bt le) b in
      elim (Bool-cases (leb s.total_tokens start || leb end start)) [
        | inl skipped ↦ rw skipped (add_groups-Apart s start ranges groups bt o b' v)
        | inr used ↦
            let (w, c) = merge_group-Apart (start / s.block_tokens) _ groups b' v in
            rw used (add_groups-Apart s start ranges _ bt o c w)
      ]

  module _ (o : DoubleOps D) where
    media_kept-Closed :
        (s : KvMemStore D) (selected mandatory : List ℕ) (budget : ℕ) (recency : Bool) (k : Kept)
        → 0 < s.block_tokens
        → InOrder 0 s.media_ranges
        → media_kept o s selected mandatory budget recency ≡ ok k
        → Closed (media_groups s) (block_count s) k
    media_kept-Closed s selected mandatory budget recency k bt order =
        let apart = add_groups-Apart s 0 s.media_ranges [] bt order tt tt in
        media_kept-keeps o (Closed (media_groups s) (block_count s)) s selected mandatory budget
          recency k
          (λ required id k k' v h.
            keep_group-Closed (media_groups s) (block_count s) budget required id k k' apart v h)
          (record {
            counted = none_kept-Counted (block_count s);
            whole = λ i j a b same.
                none_kept-clear (block_count s) i ∙ sym (none_kept-clear (block_count s) j);
          })

    unchanged_whole :
        (s : KvMemStore D) (mandatory : List ℕ) (i j : ℕ)
        → i < block_count s
        → j < block_count s
        → group_of (media_groups s) i ≡ group_of (media_groups s) j
        → ((length s.media_ranges == 0)
            || leb (block_count s) (budget_blocks s)
            || (budget_blocks s == 0))
          ≡ true
        → contains i (pick_topk_ungrouped o s mandatory)
          ≡ contains j (pick_topk_ungrouped o s mandatory)
    unfolding pick_topk_ungrouped add_groups group_of
    unchanged_whole s mandatory i j a b same h = elim (Bool-cases (length s.media_ranges == 0)) [
      | inl none ↦
          let alone = rw (no_ranges s.media_ranges none) at same in
          let equal : i ≡ j = ap (λ g. g.0) alone in rw equal refl
      | inr some ↦
          let all : ((budget_blocks s == 0) || leb (block_count s) (budget_blocks s)) ≡ true =
            ground arith in
          rw (all, contains-range i 0 (block_count s), contains-range j 0 (block_count s))
            (ground arith)
    ]

    -- With media ranges in the order of their starts, blocks of one media group are both selected by
    -- `pick_topk_blocks` or both not.
    pub pick_topk_blocks-group :
        (s : KvMemStore D) (mandatory ids : List ℕ) (i j : ℕ)
        → 0 < s.block_tokens
        → InOrder 0 s.media_ranges
        → i < block_count s
        → j < block_count s
        → group_of (media_groups s) i ≡ group_of (media_groups s) j
        → pick_topk_blocks o s mandatory ≡ ok ids
        → contains i ids ≡ contains j ids
    unfolding pick_topk_blocks constrain_media
    pick_topk_blocks-group s mandatory ids i j bt order a b same h =
        let selected = pick_topk_ungrouped o s mandatory in
        let budget = budget_blocks s in
        elim (Bool-cases
          ((length s.media_ranges == 0) || leb (block_count s) budget || (budget == 0))) [
            | inl as_it_is ↦
                let equal : selected ≡ ids = (let h' = rw as_it_is at h in cc) in
                rw (← equal) (unchanged_whole s mandatory i j a b same as_it_is)
            | inr changed ↦
                let (k, kept, h₁) =
                  returned (media_kept o s selected mandatory budget false) _ (rw changed at h) in
                let equal : kept_ids k ≡ ids = cc in
                let v = media_kept-Closed s selected mandatory budget false k bt order kept in
                rw (← equal, contains-kept_ids i k, contains-kept_ids j k) (v.whole i j a b same)
          ]
