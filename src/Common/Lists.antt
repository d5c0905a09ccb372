-- ===== src/Common/Lists.antt =====
-- Vectors: lists measured and indexed by native numbers, under the library's names.
use Prim.Native.Nat.{ℕ, zero, suc, ◌+◌, ◌-◌, ◌≤◌, min}
use mathlib.Core.Path.{◌≡◌, refl, ap}
use mathlib.Core.Logic.{◌≢◌}
use mathlib.Core.List.{List, [], ◌∷◌, ◌++◌, map}
use mathlib.Core.Option.{Option, none, some}
use mathlib.Core.Bool.{Bool, false, ◌||◌}
use native.Mathlib.Omega.{arith}
use kvmem_test.Common.Tests.{◌==◌}

module _ {ℓ} {A : Type ℓ} where
  abbrev pub length : List A → ℕ
  length [] = 0
  length (x ∷ xs) = suc (length xs)

  abbrev pub get_elem? : List A → ℕ → Option A
  get_elem? [] i = none
  get_elem? (x ∷ xs) zero = some x
  get_elem? (x ∷ xs) (suc i) = get_elem? xs i

  abbrev pub get_or : List A → ℕ → A → A
  get_or [] i d = d
  get_or (x ∷ xs) zero d = x
  get_or (x ∷ xs) (suc i) d = get_or xs i d

  -- A write out of bounds changes nothing.
  abbrev pub set : List A → ℕ → A → List A
  set [] i v = []
  set (x ∷ xs) zero v = v ∷ xs
  set (x ∷ xs) (suc i) v = x ∷ set xs i v

  -- The element at an index, changed in place.
  abbrev pub modify : List A → ℕ → (A → A) → List A
  modify [] i f = []
  modify (x ∷ xs) zero f = f x ∷ xs
  modify (x ∷ xs) (suc i) f = x ∷ modify xs i f

  abbrev pub take : ℕ → List A → List A
  take zero xs = []
  take (suc n) [] = []
  take (suc n) (x ∷ xs) = x ∷ take n xs

  abbrev pub drop : ℕ → List A → List A
  drop zero xs = xs
  drop (suc n) [] = []
  drop (suc n) (x ∷ xs) = drop n xs

  -- `n` elements from index `from` on.
  abbrev pub slice : ℕ → ℕ → List A → List A
  slice from n xs = take n (drop from xs)

  -- std::memcpy(dst + off, src, ...) into a buffer that holds the bytes.
  unfoldable pub copy_into : ℕ → List A → List A → List A
  copy_into off src dst = take off dst ++ src ++ drop (off + length src) dst

  abbrev pub replicate : ℕ → A → List A
  replicate zero a = []
  replicate (suc n) a = a ∷ replicate n a

  -- A predicate by recursion computes to tuples, which the tactics read and build.
  abbrev pub All {κ} : (A → Type κ) → List A → Type κ
  All P [] = Unit
  All P (x ∷ xs) = P x × All P xs

abbrev pub contains : ℕ → List ℕ → Bool
contains a [] = false
contains a (x ∷ xs) = (x == a) || contains a xs

-- lo, lo + 1, ..., lo + n - 1.
abbrev pub range : ℕ → ℕ → List ℕ
range lo zero = []
range lo (suc n) = lo ∷ range (lo + 1) n

-- Strictly ascending, from `lo` on.
abbrev pub Ascending : ℕ → List ℕ → Type 0
Ascending lo [] = Unit {0}
Ascending lo (x ∷ xs) = (lo ≤ x) × Ascending (x + 1) xs

module _ {ℓ} {A : Type ℓ} where
  pub length-append : (xs ys : List A) → length (xs ++ ys) ≡ length xs + length ys
  length-append [] ys = omega arith
  length-append (x ∷ xs) ys = omega (arith, length-append xs ys)

  pub length-set : (xs : List A) (i : ℕ) (v : A) → length (set xs i v) ≡ length xs
  length-set [] i v = refl
  length-set (x ∷ xs) zero v = refl
  length-set (x ∷ xs) (suc i) v = ap suc (length-set xs i v)

  pub length-modify : (xs : List A) (i : ℕ) (f : A → A) → length (modify xs i f) ≡ length xs
  length-modify [] i f = refl
  length-modify (x ∷ xs) zero f = refl
  length-modify (x ∷ xs) (suc i) f = ap suc (length-modify xs i f)

  pub get_elem?-modify_self :
      (xs : List A) (i : ℕ) (f : A → A) (x : A)
      → get_elem? xs i ≡ some x
      → get_elem? (modify xs i f) i ≡ some (f x)
  get_elem?-modify_self [] i f x h = cc
  get_elem?-modify_self (y ∷ xs) zero f x h = cc
  get_elem?-modify_self (y ∷ xs) (suc i) f x h = get_elem?-modify_self xs i f x h

  pub get_elem?-modify_ne :
      (xs : List A) (i j : ℕ) (f : A → A) → i ≢ j → get_elem? (modify xs i f) j ≡ get_elem? xs j
  get_elem?-modify_ne [] i j f h = refl
  get_elem?-modify_ne (x ∷ xs) zero zero f h = absurd (h refl)
  get_elem?-modify_ne (x ∷ xs) zero (suc j) f h = refl
  get_elem?-modify_ne (x ∷ xs) (suc i) zero f h = refl
  get_elem?-modify_ne (x ∷ xs) (suc i) (suc j) f h =
      get_elem?-modify_ne xs i j f (λ e. h (ap suc e))

  pub length-take : (n : ℕ) (xs : List A) → length (take n xs) ≡ min n (length xs)
  length-take zero xs = omega arith
  length-take (suc n) [] = omega arith
  length-take (suc n) (x ∷ xs) = omega (arith, length-take n xs)

  pub length-drop : (n : ℕ) (xs : List A) → length (drop n xs) ≡ length xs - n
  length-drop zero xs = omega arith
  length-drop (suc n) [] = omega arith
  length-drop (suc n) (x ∷ xs) = omega (arith, length-drop n xs)

  pub take-take : (i j : ℕ) (xs : List A) → i ≤ j → take i (take j xs) ≡ take i xs
  take-take zero j xs h = refl
  take-take (suc i) zero xs h = absurd (omega arith)
  take-take (suc i) (suc j) [] h = refl
  take-take (suc i) (suc j) (x ∷ xs) h = ap (λ l. x ∷ l) (take-take i j xs (omega arith))

  pub take-append_le : (i : ℕ) (xs ys : List A) → i ≤ length xs → take i (xs ++ ys) ≡ take i xs
  take-append_le zero xs ys h = refl
  take-append_le (suc i) [] ys h = absurd (omega arith)
  take-append_le (suc i) (x ∷ xs) ys h = ap (λ l. x ∷ l) (take-append_le i xs ys (omega arith))

  pub take_all : (n : ℕ) (xs : List A) → length xs ≤ n → take n xs ≡ xs
  take_all zero [] h = refl
  take_all zero (x ∷ xs) h = absurd (omega arith)
  take_all (suc n) [] h = refl
  take_all (suc n) (x ∷ xs) h = ap (λ l. x ∷ l) (take_all n xs (omega arith))

  pub get_elem?-append :
      (xs ys : List A) (i : ℕ) (x : A) → get_elem? xs i ≡ some x → get_elem? (xs ++ ys) i ≡ some x
  get_elem?-append [] ys i x h = cc
  get_elem?-append (y ∷ xs) ys zero x h = h
  get_elem?-append (y ∷ xs) ys (suc i) x h = get_elem?-append xs ys i x h

  pub get_elem?-found :
      (xs : List A) (i : ℕ) → suc i ≤ length xs → (x : A) × (get_elem? xs i ≡ some x)
  get_elem?-found [] i h = absurd (omega arith)
  get_elem?-found (x ∷ xs) zero h = (x, refl)
  get_elem?-found (x ∷ xs) (suc i) h = get_elem?-found xs i (omega arith)

  pub length-replicate : (n : ℕ) (a : A) → length (replicate n a) ≡ n
  length-replicate zero a = refl
  length-replicate (suc n) a = ap suc (length-replicate n a)

  pub length-map {κ} : {B : Type κ} (f : A → B) (xs : List A) → length (map f xs) ≡ length xs
  length-map f [] = refl
  length-map f (x ∷ xs) = ap suc (length-map f xs)

pub length-range : (lo n : ℕ) → length (range lo n) ≡ n
length-range lo zero = refl
length-range lo (suc n) = ap suc (length-range (lo + 1) n)

pub Ascending-weaken : (lo hi : ℕ) (xs : List ℕ) → lo ≤ hi → Ascending hi xs → Ascending lo xs
Ascending-weaken lo hi [] h a = tt
Ascending-weaken lo hi (x ∷ xs) h a = (omega arith, a.1)
