-- ===== src/Store/Select/Ids.antt =====
-- The selected numbers: ascending, in range, and as many as the flags that are set.
use kvmem_test.Common.{
  ℕ, zero, suc, ◌+◌, ◌≤◌, ◌<◌, ◌≡◌, refl, ap, ◌∙◌, Bool, true, false, not, ◌&&◌, List, [], ◌∷◌, ltb,
  leb, ◌==◌, length, get_or, range, arith, All, Ascending, Ascending-weaken,
}
use kvmem_test.Store.Select.{Kept, flagged, kept_ids, candidates}
use kvmem_test.Store.Select.Flags.{is_kept, count_true, Counted}
use kvmem_test.Common.{contains}

-- What every selection is: ascending block numbers below `n`.
pub record IsSelection (n : ℕ) (xs : List ℕ) : Type 0 where
  pub ascending : Ascending 0 xs
  pub in_range : All (λ x. x < n) xs

pub contains_below : (a lo : ℕ) (xs : List ℕ) → a < lo → Ascending lo xs → contains a xs ≡ false
contains_below a lo [] h v = refl
contains_below a lo (x ∷ xs) h v = ground (arith, contains_below a (x + 1) xs (omega arith) v.1)

pub flagged-Ascending : (v : Bool) (i : ℕ) (fs : List Bool) → Ascending i (flagged v i fs)
unfolding flagged
flagged-Ascending v i [] = tt
flagged-Ascending true i (true ∷ fs) = (omega arith, flagged-Ascending true (i + 1) fs)
flagged-Ascending true i (false ∷ fs) =
    Ascending-weaken i (i + 1) _ (omega arith) (flagged-Ascending true (i + 1) fs)
flagged-Ascending false i (true ∷ fs) =
    Ascending-weaken i (i + 1) _ (omega arith) (flagged-Ascending false (i + 1) fs)
flagged-Ascending false i (false ∷ fs) = (omega arith, flagged-Ascending false (i + 1) fs)

pub flagged-in_range :
    (v : Bool) (i n : ℕ) (fs : List Bool) → i + length fs ≡ n → All (λ x. x < n) (flagged v i fs)
unfolding flagged
flagged-in_range v i n [] h = tt
flagged-in_range true i n (true ∷ fs) h =
    (omega arith, flagged-in_range true (i + 1) n fs (omega arith))
flagged-in_range true i n (false ∷ fs) h = flagged-in_range true (i + 1) n fs (omega arith)
flagged-in_range false i n (true ∷ fs) h = flagged-in_range false (i + 1) n fs (omega arith)
flagged-in_range false i n (false ∷ fs) h =
    (omega arith, flagged-in_range false (i + 1) n fs (omega arith))

pub length-flagged-true : (i : ℕ) (fs : List Bool) → length (flagged true i fs) ≡ count_true fs
unfolding flagged
length-flagged-true i [] = refl
length-flagged-true i (true ∷ fs) = ap suc (length-flagged-true (i + 1) fs)
length-flagged-true i (false ∷ fs) = length-flagged-true (i + 1) fs

pub length-flagged-false :
    (i : ℕ) (fs : List Bool) → length (flagged false i fs) + count_true fs ≡ length fs
unfolding flagged
length-flagged-false i [] = omega arith
length-flagged-false i (true ∷ fs) = omega (arith, length-flagged-false (i + 1) fs)
length-flagged-false i (false ∷ fs) = omega (arith, length-flagged-false (i + 1) fs)

-- The flag of number `i + j` is flag `j`.
contains-flagged_from :
    (i j : ℕ) (fs : List Bool) → contains (i + j) (flagged true i fs) ≡ get_or fs j false
unfolding flagged
contains-flagged_from i j [] = refl
contains-flagged_from i zero (true ∷ fs) = ground arith
contains-flagged_from i zero (false ∷ fs) =
    contains_below (i + 0) (i + 1) _ (omega arith) (flagged-Ascending true (i + 1) fs)
contains-flagged_from i (suc j) (true ∷ fs) =
    let e : i + suc j ≡ i + 1 + j = omega arith in
    let miss : (i == i + suc j) ≡ false = ground arith in
    rw miss (ap (λ a. contains a (flagged true (i + 1) fs)) e ∙ contains-flagged_from (i + 1) j fs)
contains-flagged_from i (suc j) (false ∷ fs) =
    let e : i + suc j ≡ i + 1 + j = omega arith in
    ap (λ a. contains a (flagged true (i + 1) fs)) e ∙ contains-flagged_from (i + 1) j fs

-- A number is a candidate if its flag is clear.
contains-clear_from :
    (i j : ℕ) (fs : List Bool) → contains (i + j) (flagged false i fs) ≡ not (get_or fs j true)
unfolding flagged
contains-clear_from i j [] = refl
contains-clear_from i zero (true ∷ fs) =
    contains_below (i + 0) (i + 1) _ (omega arith) (flagged-Ascending false (i + 1) fs)
contains-clear_from i zero (false ∷ fs) = ground arith
contains-clear_from i (suc j) (true ∷ fs) =
    let e : i + suc j ≡ i + 1 + j = omega arith in
    ap (λ a. contains a (flagged false (i + 1) fs)) e ∙ contains-clear_from (i + 1) j fs
contains-clear_from i (suc j) (false ∷ fs) =
    let e : i + suc j ≡ i + 1 + j = omega arith in
    let miss : (i == i + suc j) ≡ false = ground arith in
    rw miss (ap (λ a. contains a (flagged false (i + 1) fs)) e ∙ contains-clear_from (i + 1) j fs)

get_or-in_range : (fs : List Bool) (j : ℕ) → j < length fs → get_or fs j true ≡ get_or fs j false
get_or-in_range [] j h = absurd (omega arith)
get_or-in_range (f ∷ fs) zero h = refl
get_or-in_range (f ∷ fs) (suc j) h = get_or-in_range fs j (omega arith)

pub contains-candidates :
    (j : ℕ) (k : Kept) → j < length k.flags → contains j (candidates k) ≡ not (is_kept k j)
unfolding candidates
contains-candidates j k h =
    let e : 0 + j ≡ j = omega arith in
    (rw e at (contains-clear_from 0 j k.flags)) ∙ ap not (get_or-in_range k.flags j h)

pub contains-kept_ids : (j : ℕ) (k : Kept) → contains j (kept_ids k) ≡ is_kept k j
unfolding kept_ids
contains-kept_ids j k =
    let e : 0 + j ≡ j = omega arith in rw e at (contains-flagged_from 0 j k.flags)

pub kept_ids-IsSelection : (n : ℕ) (k : Kept) → Counted n k → IsSelection n (kept_ids k)
unfolding kept_ids
kept_ids-IsSelection n k v = record {
  ascending = flagged-Ascending true 0 k.flags;
  in_range = flagged-in_range true 0 n k.flags (omega arith);
}

pub length-kept_ids : (n : ℕ) (k : Kept) → Counted n k → length (kept_ids k) ≡ k.count
unfolding kept_ids
length-kept_ids n k v = length-flagged-true 0 k.flags ∙ v.counted

pub length-candidates : (n : ℕ) (k : Kept) → Counted n k → length (candidates k) + k.count ≡ n
unfolding candidates
length-candidates n k v = omega (arith, length-flagged-false 0 k.flags)

pub contains-range : (j lo n : ℕ) → contains j (range lo n) ≡ (leb lo j && ltb j (lo + n))
contains-range j lo zero = ground arith
contains-range j lo (suc n) = ground (arith, contains-range j (lo + 1) n)

pub range-Ascending : (lo n : ℕ) → Ascending lo (range lo n)
range-Ascending lo zero = tt
range-Ascending lo (suc n) = (omega arith, range-Ascending (lo + 1) n)

range-in_range : (lo n m : ℕ) → lo + n ≤ m → All (λ x. x < m) (range lo n)
range-in_range lo zero m h = tt
range-in_range lo (suc n) m h = (omega arith, range-in_range (lo + 1) n m (omega arith))

pub range-IsSelection : (n : ℕ) → IsSelection n (range 0 n)
range-IsSelection n = record {
  ascending = range-Ascending 0 n;
  in_range = range-in_range 0 n n (omega arith);
}
