-- ===== src/Store/Select/Optimal.antt =====
-- The top-k policy is optimal: no block that `pick_topk_ungrouped` leaves out has a better score
-- than a block that it chose by score.
use kvmem_test.Common.{
  ℕ, zero, suc, ◌-◌, ◌≤◌, ◌<◌, ◌≡◌, refl, ◌∙◌, Bool, true, false, ◌||◌, List, [], ◌∷◌, ltb, leb,
  ◌==◌, length, take, range, arith, All, Bool-cases, inl, inr, ◌⊎◌,
}
use kvmem_test.Store.Types.{DoubleOps, KvMemBlock, KvMemStore, block_count, budget_blocks}
use kvmem_test.Store.Select.{
  candidates, insert, sort, best, better, score_at, keep_forced, top_fill, is_quota, topk_kept,
  pick_topk_ungrouped,
}
use kvmem_test.Store.Select.Flags.{is_kept, is_kept-keep_all}
use kvmem_test.Common.{contains}
use kvmem_test.Store.Select.Ids.{contains-kept_ids, contains-candidates, contains-range}
use kvmem_test.Store.Select.TopK.{keep_forced-Keeps}

-- What the comparisons rely on of `double`, for scores that are not NaN.
pub record OrderLaws {D : Type 0} (o : DoubleOps D) : Type 0 where
  pub gt_asym : (a b : D) → o.gt a b ≡ true → o.gt b a ≡ false
  pub gt_trans : (a b c : D) → o.gt a b ≡ true → o.gt b c ≡ true → o.gt a c ≡ true
  pub ne_comm : (a b : D) → o.ne a b ≡ o.ne b a
  pub gt_ne : (a b : D) → o.gt a b ≡ true → o.ne a b ≡ true
  pub eq_ne : (a b c : D) → o.ne a b ≡ false → o.ne a c ≡ o.ne b c
  pub eq_gt_left : (a b c : D) → o.ne a b ≡ false → o.gt a c ≡ o.gt b c
  pub eq_gt_right : (a b c : D) → o.ne a b ≡ false → o.gt c a ≡ o.gt c b

-- No later number comes before an earlier one.
abbrev pub Sorted : (ℕ → ℕ → Bool) → List ℕ → Type 0
Sorted less [] = Unit {0}
Sorted less (x ∷ xs) = All (λ y. less y x ≡ false) xs × Sorted less xs

contains-insert :
    (less : ℕ → ℕ → Bool) (j x : ℕ) (ys : List ℕ)
    → contains j (insert less x ys) ≡ ((x == j) || contains j ys)
unfolding insert
contains-insert less j x [] = refl
contains-insert less j x (y ∷ ys) = ground (arith, contains-insert less j x ys)

pub contains-sort :
    (less : ℕ → ℕ → Bool) (j : ℕ) (xs : List ℕ) → contains j (sort less xs) ≡ contains j xs
unfolding sort
contains-sort less j [] = refl
contains-sort less j (x ∷ xs) =
    ground (arith, contains-insert less j x (sort less xs), contains-sort less j xs)

All-contains :
    (less : ℕ → ℕ → Bool) (x y : ℕ) (ys : List ℕ)
    → All (λ z. less z x ≡ false) ys
    → contains y ys ≡ true
    → less y x ≡ false
All-contains less x y [] a h = cc
All-contains less x y (z ∷ ys) (p, a) h = elim (Bool-cases (z == y)) [
  | inl e ↦ ground arith
  | inr e ↦ All-contains less x y ys a (ground arith)
]

All-insert :
    (less : ℕ → ℕ → Bool) (x y : ℕ) (ys : List ℕ)
    → less y x ≡ false
    → All (λ z. less z x ≡ false) ys
    → All (λ z. less z x ≡ false) (insert less y ys)
unfolding insert
All-insert less x y [] h a = (h, tt)
All-insert less x y (z ∷ ys) h (p, a) = elim (Bool-cases (less y z)) [
  | inl e ↦ rw e (h, (p, a))
  | inr e ↦ rw e (p, All-insert less x y ys h a)
]

module _ (less : ℕ → ℕ → Bool)
    (trans : (a b c : ℕ) → less a b ≡ true → less b c ≡ true → less a c ≡ true)
    (asym : (a b : ℕ) → less a b ≡ true → less b a ≡ false) where
  All-behind :
      (x y : ℕ) (ys : List ℕ)
      → less x y ≡ true
      → All (λ z. less z y ≡ false) ys
      → All (λ z. less z x ≡ false) ys
  All-behind x y [] h a = tt
  All-behind x y (z ∷ ys) h (p, a) =
      (ground (arith, trans z x y, Bool-cases (less z x)), All-behind x y ys h a)

  insert-Sorted : (x : ℕ) (ys : List ℕ) → Sorted less ys → Sorted less (insert less x ys)
  unfolding insert
  insert-Sorted x [] s = (tt, tt)
  insert-Sorted x (y ∷ ys) (a, s) = elim (Bool-cases (less x y)) [
    | inl e ↦ rw e ((asym x y e, All-behind x y ys e a), (a, s))
    | inr e ↦ rw e (All-insert less y x ys e a, insert-Sorted x ys s)
  ]

  pub sort-Sorted : (xs : List ℕ) → Sorted less (sort less xs)
  unfolding sort
  sort-Sorted [] = tt
  sort-Sorted (x ∷ xs) = insert-Sorted x (sort less xs) (sort-Sorted xs)

  take-best :
      (n x y : ℕ) (zs : List ℕ)
      → Sorted less zs
      → contains x (take n zs) ≡ true
      → contains y zs ≡ true
      → contains y (take n zs) ≡ false
      → less y x ≡ false
  take-best zero x y zs s cx cy out = cc
  take-best (suc n) x y [] s cx cy out = cc
  take-best (suc n) x y (z ∷ zs) (a, s) cx cy out = elim (Bool-cases (z == x)) [
    | inl e ↦
        let cy' : contains y zs ≡ true = ground arith in
        let q = All-contains less z y zs a cy' in ground arith
    | inr e ↦ take-best n x y zs s (ground arith) (ground arith) (ground arith)
  ]

  -- What `best` leaves out is not better than what it takes.
  best-best :
      (need x y : ℕ) (cs : List ℕ)
      → contains x (best less need cs) ≡ true
      → contains y cs ≡ true
      → contains y (best less need cs) ≡ false
      → less y x ≡ false
  unfolding best
  best-best need x y cs cx cy out = elim (Bool-cases (ltb need (length cs))) [
    | inl e ↦
        take-best need x y (sort less cs) (sort-Sorted cs) (ground arith)
          (contains-sort less y cs ∙ cy) (ground arith)
    | inr e ↦ absurd (ground arith)
  ]

module _ {D : Type 0} (o : DoubleOps D) (laws : OrderLaws o) where
  better-asym :
      (score : KvMemBlock D → D) (bs : List (KvMemBlock D)) (a b : ℕ)
      → better o score bs a b ≡ true
      → better o score bs b a ≡ false
  unfolding better
  better-asym score bs a b h =
      let sa = score_at o.zero score bs a in
      let sb = score_at o.zero score bs b in ground (arith, laws.gt_asym sa sb, laws.ne_comm sa sb)

  better_trans :
      (score : KvMemBlock D → D) (bs : List (KvMemBlock D)) (a b c : ℕ)
      → better o score bs a b ≡ true
      → better o score bs b c ≡ true
      → better o score bs a c ≡ true
  unfolding better
  better_trans score bs a b c h k =
      let sa = score_at o.zero score bs a in
      let sb = score_at o.zero score bs b in
      let sc = score_at o.zero score bs c in
      ground (
        arith,
        laws.gt_trans sa sb sc,
        laws.gt_asym sb sc,
        laws.ne_comm sa sb,
        laws.ne_comm sb sc,
        laws.ne_comm sa sc,
        laws.eq_ne sa sb sc,
        laws.eq_ne sc sb sa,
        laws.eq_ne sa sc sb,
        laws.eq_gt_left sa sb sc,
        laws.eq_gt_right sc sb sa,
        laws.eq_gt_left sa sc sb,
      )

  -- The score that a block number stands for.
  abbrev pub attn_of : KvMemStore D → ℕ → D
  attn_of s i = score_at o.zero (λ b. b.attn_score) s.blocks i

  -- The comparison that `topk_kept` decides by.
  topk_kept-optimal :
      (s : KvMemStore D) (mandatory : List ℕ) (i j : ℕ)
      → is_quota o s.select_policy ≡ false
      → j < block_count s
      → is_kept (keep_forced o s mandatory) i ≡ false
      → is_kept (topk_kept o s mandatory) i ≡ true
      → is_kept (topk_kept o s mandatory) j ≡ false
      → better o (λ b. b.attn_score) s.blocks j i ≡ false
  unfolding topk_kept top_fill
  topk_kept-optimal s mandatory i j policy h free chosen out =
      let budget = budget_blocks s in
      let k = keep_forced o s mandatory in
      let v = keep_forced-Keeps o s mandatory in
      let len = v.counted.size in
      let score : KvMemBlock D → D = λ b. b.attn_score in
      let less = better o score s.blocks in
      let need = budget - k.count in
      let taken = best less need (candidates k) in
      let law_i = is_kept-keep_all taken k i in
      let law_j = is_kept-keep_all taken k j in
      let room : ltb k.count budget ≡ true = ground arith in
      let in_i : contains i taken ≡ true = ground arith in
      let clear_j : is_kept k j ≡ false = ground arith in
      let out_j : contains j taken ≡ false = ground arith in
      let cand_j : contains j (candidates k) ≡ true =
        ground (arith, contains-candidates j k (omega arith)) in
      best-best less (better_trans score s.blocks) (better-asym score s.blocks) need i j
        (candidates k) in_i cand_j out_j

  -- Under the top-k policy, let `i` be a selected block that is not kept by force and `j` a block of
  -- the table that is not selected. Then the score of `j` is not above that of `i`, and if the two
  -- are equal then `j` is the older block.
  pub pick_topk_ungrouped-optimal :
      (s : KvMemStore D) (mandatory : List ℕ) (i j : ℕ)
      → is_quota o s.select_policy ≡ false
      → j < block_count s
      → is_kept (keep_forced o s mandatory) i ≡ false
      → contains i (pick_topk_ungrouped o s mandatory) ≡ true
      → contains j (pick_topk_ungrouped o s mandatory) ≡ false
      → (o.gt (attn_of s j) (attn_of s i) ≡ false)
        × ((o.ne (attn_of s j) (attn_of s i) ≡ true) ⊎ (j ≤ i))
  unfolding pick_topk_ungrouped better
  pick_topk_ungrouped-optimal s mandatory i j policy h free chosen out =
      let n = block_count s in
      let ids_i = contains-kept_ids i (topk_kept o s mandatory) in
      let ids_j = contains-kept_ids j (topk_kept o s mandatory) in
      elim (Bool-cases ((budget_blocks s == 0) || leb n (budget_blocks s))) [
        | inl few ↦
            let all : contains j (range 0 n) ≡ true = ground (arith, contains-range j 0 n) in
            absurd (ground arith)
        | inr many ↦
            let chosen_i : is_kept (topk_kept o s mandatory) i ≡ true = ground arith in
            let out_j : is_kept (topk_kept o s mandatory) j ≡ false = ground arith in
            let worse = topk_kept-optimal s mandatory i j policy h free chosen_i out_j in
            (ground (arith, laws.gt_ne (attn_of s j) (attn_of s i)), ground arith)
      ]
