-- ===== src/Store/Select/Loops.antt =====
-- The two budgeted keep loops, described by what they leave.
use kvmem_test.Common.{
  ℕ, ◌+◌, ◌≤◌, ◌<◌, ◌≡◌, true, false, ◌||◌, List, [], ◌∷◌, ltb, if◌then◌else◌, length, arith, inl,
  ◌⊎◌,
}
use kvmem_test.Store.Select.{Kept, keep, keep_front, keep_back}
use kvmem_test.Store.Select.Flags.{is_kept, Counted, is_kept-keep, keep-Counted, keep-count}
use kvmem_test.Common.{contains}

-- From `k` to `k'` the numbers `ids` were offered under the budget.
pub record Keeps (budget n : ℕ) (ids : List ℕ) (k k' : Kept) : Type 0 where
  pub counted : Counted n k'
  pub bounded : k.count ≤ budget → k'.count ≤ budget
  pub grows : k.count ≤ k'.count
  pub slow : k'.count ≤ k.count + length ids
  pub mono : (j : ℕ) → is_kept k j ≡ true → is_kept k' j ≡ true
  pub origin : (j : ℕ) → is_kept k' j ≡ true → (is_kept k j ≡ true) ⊎ (contains j ids ≡ true)
  pub full : (j : ℕ) → j < n → contains j ids ≡ true → is_kept k' j ≡ false → budget ≤ k'.count
  pub all :
      k.count + length ids ≤ budget → (j : ℕ) → j < n → contains j ids ≡ true → is_kept k' j ≡ true

-- One offer.
abbrev pub offer : ℕ → ℕ → Kept → Kept
offer budget id k = if ltb k.count budget then keep id k else k

offer-Keeps :
    (budget n id : ℕ) (k : Kept) → Counted n k → Keeps budget n (id ∷ []) k (offer budget id k)
offer-Keeps budget n id k v = record {
  counted = ground (arith, keep-Counted n id k v);
  bounded = λ h. ground (arith, keep-count id k);
  grows = ground (arith, keep-count id k);
  slow = ground (arith, keep-count id k);
  mono = λ j h. ground (arith, is_kept-keep id j k);
  origin = λ j h. ground (arith, is_kept-keep id j k);
  full = λ j h c e. ground (arith, is_kept-keep id j k, v.size);
  all = λ h j l c. ground (arith, is_kept-keep id j k, v.size);
}

pub Keeps-nil : (budget n : ℕ) (k : Kept) → Counted n k → Keeps budget n [] k k
Keeps-nil budget n k v = record {
  counted = v;
  bounded = λ h. h;
  grows = omega arith;
  slow = omega arith;
  mono = λ j h. h;
  origin = λ j h. inl h;
  full = λ j h c e. cc;
  all = λ h j l c. cc;
}

-- One run of offers after another: `ids` are the numbers of both.
pub Keeps-then :
    (budget n : ℕ) (xs ys ids : List ℕ) (k k₁ k₂ : Kept)
    → ((j : ℕ) → contains j ids ≡ (contains j xs || contains j ys))
    → length ids ≡ length xs + length ys
    → Keeps budget n xs k k₁
    → Keeps budget n ys k₁ k₂
    → Keeps budget n ids k k₂
Keeps-then budget n xs ys ids k k₁ k₂ e len p q = record {
  counted = q.counted;
  bounded = λ h. q.bounded (p.bounded h);
  grows = omega (arith, p.grows, q.grows);
  slow = omega (arith, p.slow, q.slow);
  mono = λ j h. q.mono j (p.mono j h);
  origin = λ j h. ground (arith, q.origin j h, p.origin j, e j);
  full = λ j h c miss. ground (arith, e j, q.full j h, p.full j h, q.mono j, q.grows);
  all = λ h j l c.
      ground (arith, e j, q.all (omega (arith, p.slow)) j l, p.all (omega arith) j l, q.mono j);
}

pub keep_front-Keeps :
    (budget n : ℕ) (ids : List ℕ) (k : Kept)
    → Counted n k
    → Keeps budget n ids k (keep_front budget ids k)
unfolding keep_front
keep_front-Keeps budget n [] k v = Keeps-nil budget n k v
keep_front-Keeps budget n (id ∷ ids) k v =
    let p = offer-Keeps budget n id k v in
    Keeps-then budget n (id ∷ []) ids (id ∷ ids) k (offer budget id k) _ (λ j. ground arith)
      (omega arith) p (keep_front-Keeps budget n ids (offer budget id k) p.counted)

pub keep_back-Keeps :
    (budget n : ℕ) (ids : List ℕ) (k : Kept)
    → Counted n k
    → Keeps budget n ids k (keep_back budget ids k)
unfolding keep_back
keep_back-Keeps budget n [] k v = Keeps-nil budget n k v
keep_back-Keeps budget n (id ∷ ids) k v =
    let p = keep_back-Keeps budget n ids k v in
    let k₁ = keep_back budget ids k in
    Keeps-then budget n ids (id ∷ []) (id ∷ ids) k k₁ (offer budget id k₁) (λ j. ground arith)
      (omega arith) p (offer-Keeps budget n id k₁ p.counted)
