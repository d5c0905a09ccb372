-- ===== src/Store/Select/Flags.antt =====
-- The kept flags and their counter: the counter counts the flags, and each loop keeps what it is
-- given until the budget is used up.
use kvmem_test.Common.{
  ℕ, zero, suc, ◌+◌, ◌≤◌, ◌<◌, ◌≡◌, refl, ◌∙◌, Bool, true, false, ◌&&◌, ◌||◌, List, [], ◌∷◌, ◌++◌,
  ltb, ◌==◌, length, get_or, set, replicate, arith, contains, length-set, length-replicate,
}
use kvmem_test.Store.Select.{Kept, none_kept, keep, keep_all}

abbrev pub is_kept : Kept → ℕ → Bool
is_kept k id = get_or k.flags id false

abbrev pub count_true : List Bool → ℕ
count_true [] = 0
count_true (true ∷ fs) = suc (count_true fs)
count_true (false ∷ fs) = count_true fs

-- The table has `n` flags, and the counter counts those that are set.
pub record Counted (n : ℕ) (k : Kept) : Type 0 where
  pub size : length k.flags ≡ n
  pub counted : count_true k.flags ≡ k.count

pub get_or-set :
    (fs : List Bool) (i j : ℕ)
    → get_or (set fs i true) j false ≡ (get_or fs j false || ((i == j) && ltb i (length fs)))
get_or-set [] i j = ground arith
get_or-set (f ∷ fs) zero zero = ground arith
get_or-set (f ∷ fs) zero (suc j) = ground arith
get_or-set (f ∷ fs) (suc i) zero = ground arith
get_or-set (f ∷ fs) (suc i) (suc j) = ground (arith, get_or-set fs i j)

pub count_true-set :
    (fs : List Bool) (i : ℕ)
    → i < length fs
    → get_or fs i false ≡ false
    → count_true (set fs i true) ≡ count_true fs + 1
count_true-set [] i h e = elim h [ ]
count_true-set (true ∷ fs) zero h e = cc
count_true-set (false ∷ fs) zero h e = omega arith
count_true-set (true ∷ fs) (suc i) h e = omega (arith, count_true-set fs i (omega arith) e)
count_true-set (false ∷ fs) (suc i) h e = omega (arith, count_true-set fs i (omega arith) e)

-- What `keep` does to each flag.
pub is_kept-keep :
    (id j : ℕ) (k : Kept)
    → is_kept (keep id k) j ≡ (is_kept k j || ((id == j) && ltb id (length k.flags)))
unfolding keep
is_kept-keep id j k = ground (arith, get_or-set k.flags id j)

pub keep-Counted : (n id : ℕ) (k : Kept) → Counted n k → Counted n (keep id k)
unfolding keep
keep-Counted n id k v = ground (arith, length-set k.flags id true, count_true-set k.flags id)

pub keep-count :
    (id : ℕ) (k : Kept) → (k.count ≤ (keep id k).count) × ((keep id k).count ≤ k.count + 1)
unfolding keep
keep-count id k = ground arith

pub none_kept-Counted : (n : ℕ) → Counted n (none_kept n)
unfolding none_kept
none_kept-Counted n = record { size = length-replicate n false; counted = none n }
  where
    none : (n : ℕ) → count_true (replicate n false) ≡ 0
    none zero = refl
    none (suc n) = none n

pub contains-append :
    (j : ℕ) (xs ys : List ℕ) → contains j (xs ++ ys) ≡ (contains j xs || contains j ys)
contains-append j [] ys = refl
contains-append j (x ∷ xs) ys = ground (arith, contains-append j xs ys)

pub length-keep : (id : ℕ) (k : Kept) → length (keep id k).flags ≡ length k.flags
unfolding keep
length-keep id k = ground (arith, length-set k.flags id true)

-- What a full run of `keep` does to each flag.
pub is_kept-keep_all :
    (xs : List ℕ) (k : Kept) (j : ℕ)
    → is_kept (keep_all xs k) j ≡ (is_kept k j || (contains j xs && ltb j (length k.flags)))
unfolding keep_all
is_kept-keep_all [] k j = ground arith
is_kept-keep_all (x ∷ xs) k j =
    is_kept-keep_all xs (keep x k) j ∙ ground (arith, is_kept-keep x j k, length-keep x k)

pub keep_all_mono :
    (xs : List ℕ) (k : Kept) (j : ℕ) → is_kept k j ≡ true → is_kept (keep_all xs k) j ≡ true
keep_all_mono xs k j h = ground (arith, is_kept-keep_all xs k j)
