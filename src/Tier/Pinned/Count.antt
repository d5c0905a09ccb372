-- ===== src/Tier/Pinned/Count.antt =====
-- How often a number occurs, and what erasing and assigning do to it.
use kvmem_test.Common.{
  ℕ, zero, suc, ◌+◌, ◌-◌, ◌≡◌, refl, List, [], ◌∷◌, ◌++◌, ◌==◌, leb, ltb, if◌then◌else◌, range,
  arith, some, none, Bool-cases, inl, inr, true, false, Bool, ◌&&◌,
}
use kvmem_test.Tier.Pinned.{find, erase, erase_first}

-- 1 if the test holds, else 0.
abbrev pub hit : Bool → ℕ
hit true = 1
hit false = 0

abbrev pub count : ℕ → List ℕ → ℕ
count x [] = 0
count x (y ∷ ys) = hit (y == x) + count x ys

pub count-append : (x : ℕ) (ys zs : List ℕ) → count x (ys ++ zs) ≡ count x ys + count x zs
count-append x [] zs = omega arith
count-append x (y ∷ ys) zs = omega (arith, count-append x ys zs)

pub count-range : (x lo n : ℕ) → count x (range lo n) ≡ hit (leb lo x && ltb x (lo + n))
count-range x lo zero = ground arith
count-range x lo (suc n) = ground (arith, count-range x (lo + 1) n)

pub count-erase_first_self : (x : ℕ) (ys : List ℕ) → count x (erase_first x ys) ≡ count x ys - 1
unfolding erase_first
count-erase_first_self x [] = omega arith
count-erase_first_self x (y ∷ ys) = ground (arith, count-erase_first_self x ys)

pub count-erase_first_ne :
    (x z : ℕ) (ys : List ℕ) → (z == x) ≡ false → count x (erase_first z ys) ≡ count x ys
unfolding erase_first
count-erase_first_ne x z [] h = refl
count-erase_first_ne x z (y ∷ ys) h = elim (Bool-cases (y == z)) [
  | inl e ↦ rw e (ground arith)
  | inr e ↦ rw e (omega (arith, count-erase_first_ne x z ys h))
]

pub count-erase_first :
    (x z : ℕ) (ys : List ℕ)
    → count x (erase_first z ys) ≡ (if z == x then count x ys - 1 else count x ys)
count-erase_first x z ys = elim (Bool-cases (z == x)) [
  | inl e ↦ let same : z ≡ x = ground arith in rw (e, same) (count-erase_first_self x ys)
  | inr e ↦ rw e (count-erase_first_ne x z ys e)
]

abbrev pub keys {ℓ} : {A : Type ℓ} → List (ℕ × A) → List ℕ
keys [] = []
keys ((k, v) ∷ m) = k ∷ keys m

abbrev pub values : List (ℕ × ℕ) → List ℕ
values [] = []
values ((k, v) ∷ m) = v ∷ values m

pub find-none : (k : ℕ) (m : List (ℕ × ℕ)) → find k m ≡ none → count k (keys m) ≡ 0
unfolding find
find-none k [] h = refl
find-none k ((j, v) ∷ m) h = elim (Bool-cases (j == k)) [
  | inl e ↦ absurd (ground arith)
  | inr e ↦ let rest = find-none k m (ground arith) in ground arith
]

pub count_none : (k : ℕ) (m : List (ℕ × ℕ)) → count k (keys m) ≡ 0 → find k m ≡ none
unfolding find
count_none k [] h = refl
count_none k ((j, v) ∷ m) h = elim (Bool-cases (j == k)) [
  | inl e ↦ absurd (ground arith)
  | inr e ↦ rw e (count_none k m (ground arith))
]

pub erase-none : (k : ℕ) (m : List (ℕ × ℕ)) → find k m ≡ none → erase k m ≡ m
unfolding find erase
erase-none k [] h = refl
erase-none k ((j, v) ∷ m) h = elim (Bool-cases (j == k)) [
  | inl e ↦ absurd (ground arith)
  | inr e ↦ let rest = erase-none k m (ground arith) in rw (e, rest) refl
]

-- An entry that is found is taken out of the keys and out of the values, once.
pub erase-some :
    (k v x : ℕ) (m : List (ℕ × ℕ))
    → find k m ≡ some v
    → (count x (keys m) ≡ hit (k == x) + count x (keys (erase k m)))
      × (count x (values m) ≡ hit (v == x) + count x (values (erase k m)))
unfolding find erase
erase-some k v x [] h = cc
erase-some k v x ((j, w) ∷ m) h = elim (Bool-cases (j == k)) [
  | inl e ↦
      let same : w ≡ v = ground arith in
      let key : j ≡ k = ground arith in rw (e, same, key) (refl, refl)
  | inr e ↦ let (a, b) = erase-some k v x m (ground arith) in rw e (omega arith, omega arith)
]

pub find_erased :
    (id victim slot : ℕ) (m : List (ℕ × ℕ))
    → find victim m ≡ some slot
    → find id m ≡ none
    → find id (erase victim m) ≡ none
find_erased id victim slot m f e =
    let there = erase-some victim slot id m f in
    count_none id (erase victim m) (omega (arith, there.0, find-none id m e))
