-- ===== src/Store/Plan/Normalize.antt =====
-- Sorting, deduplication and the range filter of `set_selection`: the result is the ascending list
-- of the existing block numbers in the input.
use kvmem_test.Common.{
  ℕ, ◌+◌, ◌≤◌, ◌<◌, ◌≡◌, refl, ap, ◌∙◌, ◌&&◌, List, [], ◌∷◌, ltb, leb, ◌==◌, contains, arith, All,
  Ascending, Ascending-weaken, Bool-cases, inl, inr,
}
use kvmem_test.Store.Select.{sort}
use kvmem_test.Store.Select.Ids.{IsSelection}
use kvmem_test.Store.Select.Optimal.{Sorted, contains-sort, sort-Sorted}
use kvmem_test.Store.Plan.{unique, drop_from, normalize}

unique-Ascending :
    (lo x : ℕ) (ys : List ℕ) → lo ≤ x → Sorted ltb (x ∷ ys) → Ascending lo (unique (x ∷ ys))
unfolding unique
unique-Ascending lo x [] h s = (h, tt)
unique-Ascending lo x (y ∷ ys) h ((p, a), s) = elim (Bool-cases (x == y)) [
  | inl e ↦ rw e (unique-Ascending lo y ys (ground arith) s)
  | inr e ↦ rw e (h, unique-Ascending (x + 1) y ys (ground arith) s)
]

contains-unique : (j : ℕ) (xs : List ℕ) → contains j (unique xs) ≡ contains j xs
unfolding unique
contains-unique j [] = refl
contains-unique j (x ∷ []) = refl
contains-unique j (x ∷ y ∷ ys) = elim (Bool-cases (x == y)) [
  | inl e ↦ rw e (contains-unique j (y ∷ ys) ∙ ground arith)
  | inr e ↦ rw e (ground (arith, contains-unique j (y ∷ ys)))
]

drop_from-Ascending : (n lo : ℕ) (xs : List ℕ) → Ascending lo xs → Ascending lo (drop_from n xs)
unfolding drop_from
drop_from-Ascending n lo [] a = tt
drop_from-Ascending n lo (x ∷ xs) (h, a) = elim (Bool-cases (leb n x)) [
  | inl e ↦ rw e (
      Ascending-weaken lo (x + 1) (drop_from n xs) (omega arith)
        (drop_from-Ascending n (x + 1) xs a))
  | inr e ↦ rw e (h, drop_from-Ascending n (x + 1) xs a)
]

drop_from-in_range : (n : ℕ) (xs : List ℕ) → All (λ x. x < n) (drop_from n xs)
unfolding drop_from
drop_from-in_range n [] = tt
drop_from-in_range n (x ∷ xs) = elim (Bool-cases (leb n x)) [
  | inl e ↦ rw e (drop_from-in_range n xs)
  | inr e ↦ rw e (ground arith, drop_from-in_range n xs)
]

contains-drop_from :
    (n j : ℕ) (xs : List ℕ) → contains j (drop_from n xs) ≡ (contains j xs && ltb j n)
unfolding drop_from
contains-drop_from n j [] = refl
contains-drop_from n j (x ∷ xs) = elim (Bool-cases (leb n x)) [
  | inl e ↦ rw e (contains-drop_from n j xs ∙ ground arith)
  | inr e ↦ rw e (ground (arith, contains-drop_from n j xs))
]

Sorted-unique-Ascending : (xs : List ℕ) → Sorted ltb xs → Ascending 0 (unique xs)
unfolding unique
Sorted-unique-Ascending [] s = tt
Sorted-unique-Ascending (x ∷ xs) s = unique-Ascending 0 x xs (omega arith) s

pub normalize-IsSelection : (n : ℕ) (ids : List ℕ) → IsSelection n (normalize n ids)
unfolding normalize
normalize-IsSelection n ids =
    let sorted = sort-Sorted ltb (λ a b c h k. ground arith) (λ a b h. ground arith) ids in
    record {
      ascending = drop_from-Ascending n 0 _ (Sorted-unique-Ascending (sort ltb ids) sorted);
      in_range = drop_from-in_range n (unique (sort ltb ids));
    }

pub contains-normalize :
    (n j : ℕ) (ids : List ℕ) → contains j (normalize n ids) ≡ (contains j ids && ltb j n)
unfolding normalize
contains-normalize n j ids =
    contains-drop_from n j (unique (sort ltb ids))
    ∙ ap (λ b. b && ltb j n) (contains-unique j (sort ltb ids) ∙ contains-sort ltb j ids)
