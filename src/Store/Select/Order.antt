-- ===== src/Store/Select/Order.antt =====
-- The candidates of a selection: fresh numbers, which stay fresh under sorting and cutting, so that
-- keeping them advances the counter by their number.
use kvmem_test.Common.{
  ℕ, zero, suc, ◌+◌, ◌<◌, ◌≡◌, refl, sym, ap, ◌∙◌, subst, Bool, true, false, List, [], ◌∷◌, min,
  ltb, length, get_or, set, take, arith, All, Ascending, Bool-cases, inl, inr, length-set,
  length-take,
}
use kvmem_test.Store.Select.{Kept, keep, keep_all, flagged, candidates, insert, sort, best}
use kvmem_test.Store.Select.Flags.{Counted, get_or-set, count_true-set}
use kvmem_test.Store.Select.Ids.{flagged-Ascending}

-- Each number is in range and not kept when its turn comes.
abbrev pub Fresh : List Bool → List ℕ → Type 0
Fresh fs [] = Unit {0}
Fresh fs (x ∷ xs) = (x < length fs) × (get_or fs x false ≡ false) × Fresh (set fs x true) xs

pub length-insert :
    (less : ℕ → ℕ → Bool) (x : ℕ) (ys : List ℕ) → length (insert less x ys) ≡ suc (length ys)
unfolding insert
length-insert less x [] = refl
length-insert less x (y ∷ ys) = ground (arith, length-insert less x ys)

pub length-sort : (less : ℕ → ℕ → Bool) (xs : List ℕ) → length (sort less xs) ≡ length xs
unfolding sort
length-sort less [] = refl
length-sort less (x ∷ xs) = length-insert less x (sort less xs) ∙ ap suc (length-sort less xs)

pub length-best :
    (less : ℕ → ℕ → Bool) (need : ℕ) (xs : List ℕ)
    → length (best less need xs) ≡ min need (length xs)
unfolding best
length-best less need xs = ground (arith, length-take need (sort less xs), length-sort less xs)

pub set_comm : (fs : List Bool) (x y : ℕ) → set (set fs x true) y true ≡ set (set fs y true) x true
set_comm [] x y = refl
set_comm (f ∷ fs) zero zero = refl
set_comm (f ∷ fs) zero (suc y) = refl
set_comm (f ∷ fs) (suc x) zero = refl
set_comm (f ∷ fs) (suc x) (suc y) = ap (◌∷◌ f) (set_comm fs x y)

pub Fresh-swap :
    (fs : List Bool) (x y : ℕ) (zs : List ℕ) → Fresh fs (x ∷ y ∷ zs) → Fresh fs (y ∷ x ∷ zs)
Fresh-swap fs x y zs (lx, fx, (ly, fy, rest)) = (
  omega (arith, length-set fs x true),
  ground (arith, get_or-set fs x y),
  (
    omega (arith, length-set fs y true),
    ground (arith, get_or-set fs x y, get_or-set fs y x),
    rw (set_comm fs y x) rest,
  ),
)

pub Fresh-insert :
    (less : ℕ → ℕ → Bool) (fs : List Bool) (x : ℕ) (ys : List ℕ)
    → Fresh fs (x ∷ ys)
    → Fresh fs (insert less x ys)
unfolding insert
Fresh-insert less fs x [] h = h
Fresh-insert less fs x (y ∷ ys) h = elim (Bool-cases (less x y)) [
  | inl e ↦ rw e h
  | inr e ↦
      let (ly, fy, rest) = Fresh-swap fs x y ys h in
      rw e (ly, fy, Fresh-insert less (set fs y true) x ys rest)
]

pub Fresh-sort :
    (less : ℕ → ℕ → Bool) (fs : List Bool) (xs : List ℕ) → Fresh fs xs → Fresh fs (sort less xs)
unfolding sort
Fresh-sort less fs [] h = h
Fresh-sort less fs (x ∷ xs) (l, f, rest) =
    Fresh-insert less fs x (sort less xs) (l, f, Fresh-sort less (set fs x true) xs rest)

pub Fresh-take : (fs : List Bool) (n : ℕ) (xs : List ℕ) → Fresh fs xs → Fresh fs (take n xs)
Fresh-take fs zero xs h = tt
Fresh-take fs (suc n) [] h = tt
Fresh-take fs (suc n) (x ∷ xs) (l, f, rest) = (l, f, Fresh-take (set fs x true) n xs rest)

pub Fresh-best :
    (less : ℕ → ℕ → Bool) (fs : List Bool) (need : ℕ) (xs : List ℕ)
    → Fresh fs xs
    → Fresh fs (best less need xs)
unfolding best
Fresh-best less fs need xs h = elim (Bool-cases (ltb need (length xs))) [
  | inl e ↦ rw e (Fresh-take fs need (sort less xs) (Fresh-sort less fs xs h))
  | inr e ↦ rw e h
]

-- Ascending numbers whose flags are clear are fresh.
Fresh-of_clear :
    (fs : List Bool) (lo : ℕ) (xs : List ℕ)
    → Ascending lo xs
    → All (λ x. (x < length fs) × (get_or fs x false ≡ false)) xs
    → Fresh fs xs
Fresh-of_clear fs lo [] a h = tt
Fresh-of_clear fs lo (x ∷ xs) a (p, rest) = (
  p.0,
  p.1,
  Fresh-of_clear (set fs x true) (x + 1) xs a.1 (still (x + 1) xs (omega arith) a.1 rest),
)
  where
    still :
        (hi : ℕ) (ys : List ℕ)
        → x < hi
        → Ascending hi ys
        → All (λ y. (y < length fs) × (get_or fs y false ≡ false)) ys
        → All (λ y. (y < length (set fs x true)) × (get_or (set fs x true) y false ≡ false)) ys
    still hi [] l a h = tt
    still hi (y ∷ ys) l a (p, rest) = (
      (omega (arith, length-set fs x true), ground (arith, get_or-set fs x y)),
      still (y + 1) ys (omega arith) a.1 rest,
    )

flagged-clear :
    (i : ℕ) (gs fs : List Bool)
    → ((j : ℕ)
        → j < length fs
        → (i + j < length gs) × (get_or gs (i + j) false ≡ get_or fs j false))
    → All (λ x. (x < length gs) × (get_or gs x false ≡ false)) (flagged false i fs)
unfolding flagged
flagged-clear i gs [] h = tt
flagged-clear i gs (true ∷ fs) h =
    flagged-clear (i + 1) gs fs
      λ j l. let e : i + 1 + j ≡ i + suc j = omega arith in rw e (h (suc j) (omega arith))
flagged-clear i gs (false ∷ fs) h =
    let e : i + 0 ≡ i = omega arith in
    (
      (rw e at (h 0 (omega arith))),
      flagged-clear (i + 1) gs fs
          λ j l. let e' : i + 1 + j ≡ i + suc j = omega arith in rw e' (h (suc j) (omega arith)),
    )

pub candidates-Fresh : (k : Kept) → Fresh k.flags (candidates k)
unfolding candidates
candidates-Fresh k = Fresh-of_clear k.flags 0 (candidates k) (flagged-Ascending false 0 k.flags) (
    flagged-clear 0 k.flags k.flags
      (λ j h. (omega arith, ap (λ a. get_or k.flags a false) (omega arith))))

-- Keeping fresh numbers advances the counter by their number.
pub keep_all-count :
    (n : ℕ) (xs : List ℕ) (k : Kept)
    → Counted n k
    → Fresh k.flags xs
    → Counted n (keep_all xs k) × ((keep_all xs k).count ≡ k.count + length xs)
unfolding keep_all keep
keep_all-count n [] k v h = (v, omega arith)
keep_all-count n (x ∷ xs) k v (l, f, rest) =
    let k₁ : Kept = record { flags = set k.flags x true; count = k.count + 1 } in
    let e : keep x k ≡ k₁ = ground arith in
    let v₁ : Counted n k₁ = record {
      size = length-set k.flags x true ∙ v.size;
      counted = omega (arith, count_true-set k.flags x l f);
    } in
    let (w, c) = keep_all-count n xs k₁ v₁ rest in
    let total : (keep_all xs k₁).count ≡ k.count + suc (length xs) = omega arith in
    (subst (λ q. Counted n (keep_all xs q)) (sym e) w, ap (λ q. (keep_all xs q).count) e ∙ total)
