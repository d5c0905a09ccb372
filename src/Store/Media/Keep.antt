-- ===== src/Store/Media/Keep.antt =====
-- What one call of `keep`, and each loop of calls, does to the flags.
use kvmem_test.Common.{
  ℕ, ◌+◌, ◌-◌, ◌≤◌, ◌<◌, ◌≡◌, refl, Bool, true, false, ◌&&◌, List, [], ◌∷◌, ltb, leb, ◌==◌, length,
  arith, contains, Bool-cases, inl, inr, ok, throw, returned, Error, subst, if◌then◌else◌,
}
use kvmem_test.Store.Select.{Kept, none_kept, keep_all}
use kvmem_test.Store.Select.Flags.{
  Counted, is_kept, none_kept-Counted, keep_all_mono, is_kept-keep_all,
}
use kvmem_test.Store.Select.Ids.{contains-range}
use kvmem_test.Store.Semantic.{count_new}
use kvmem_test.Store.Semantic.Bounds.{keep_all-budget}
use kvmem_test.Store.Media.{group_of, members, keep_group, keep_groups, keep_latest}

-- The counter counts the flags and is within the budget.
pub record Within (n budget : ℕ) (k : Kept) : Type 0 where
  pub counted : Counted n k
  pub within : k.count ≤ budget

-- A call of `keep` that returns has done nothing, or it has kept the block's whole group within the
-- budget. A required block in range is kept.
pub keep_group-cases :
    (P : Kept → Type 0) (groups : List (ℕ × ℕ)) (budget : ℕ) (required : Bool) (id : ℕ)
    (k k' : Kept)
    → ((required && ltb id (length k.flags)) ≡ false → P k)
    → (id < length k.flags
        → k.count + count_new k.flags (members groups id) ≤ budget
        → P (keep_all (members groups id) k))
    → keep_group groups budget required id k ≡ ok k'
    → P k'
unfolding keep_group
keep_group-cases P groups budget required id k k' left taken h =
    elim (Bool-cases (leb (length k.flags) id)) [
      | inl out ↦ let same : k ≡ k' = ground arith in subst P same (left (ground arith))
      | inr inside ↦
          elim (Bool-cases (ltb budget (k.count + count_new k.flags (members groups id)))) [
            | inl over ↦
                optional P required k k' (rw (inside, over) at h) (λ no. left (ground arith))
            | inr fits ↦
                let same : keep_all (members groups id) k ≡ k' = ground arith in
                subst P same (taken (ground arith) (ground arith))
          ]
    ]
  where
    optional :
        (P : Kept → Type 0) (required : Bool) (k k' : Kept)
        → (if required then throw Error.mandatory_exceeds_budget else ok k) ≡ ok k'
        → (required ≡ false → P k)
        → P k'
    optional P true k k' h go = cc
    optional P false k k' h go = let same : k ≡ k' = cc in subst P same (go refl)

pub keep_group-Within :
    (groups : List (ℕ × ℕ)) (n budget : ℕ) (required : Bool) (id : ℕ) (k k' : Kept)
    → Within n budget k
    → keep_group groups budget required id k ≡ ok k'
    → Within n budget k'
keep_group-Within groups n budget required id k k' v =
    keep_group-cases (Within n budget) groups budget required id k k' (λ no. v)
      (λ inside fits.
        let (w, le) = keep_all-budget n (members groups id) k v.counted in
        record { counted = w; within = omega arith })

pub keep_groups-keeps :
    (P : Kept → Type 0) (groups : List (ℕ × ℕ)) (budget : ℕ) (required : Bool)
    → ((id : ℕ) (k k' : Kept) → P k → keep_group groups budget required id k ≡ ok k' → P k')
    → (ids : List ℕ) (k k' : Kept) → P k
    → keep_groups groups budget required ids k ≡ ok k'
    → P k'
unfolding keep_groups
keep_groups-keeps P groups budget required step [] k k' v h =
    let same : k ≡ k' = cc in subst P same v
keep_groups-keeps P groups budget required step (id ∷ ids) k k' v h =
    let (k₁, e, h₁) = returned (keep_group groups budget required id k) _ h in
    keep_groups-keeps P groups budget required step ids k₁ k' (step id k k₁ v e) h₁

pub keep_latest-keeps :
    (P : Kept → Type 0) (groups : List (ℕ × ℕ)) (budget : ℕ)
    → ((id : ℕ) (k k' : Kept) → P k → keep_group groups budget true id k ≡ ok k' → P k')
    → (k k' : Kept) → P k
    → keep_latest groups budget k ≡ ok k'
    → P k'
unfolding keep_latest
keep_latest-keeps P [] budget step k k' v h = let same : k ≡ k' = cc in subst P same v
keep_latest-keeps P ((a, b) ∷ groups) budget step k k' v h = step a k k' v h

pub is_kept-grows :
    (groups : List (ℕ × ℕ)) (budget : ℕ) (required : Bool) (j id : ℕ) (k k' : Kept)
    → is_kept k j ≡ true
    → keep_group groups budget required id k ≡ ok k'
    → is_kept k' j ≡ true
is_kept-grows groups budget required j id k k' v =
    keep_group-cases (λ x. is_kept x j ≡ true) groups budget required id k k' (λ skipped. v)
      (λ inside fits. keep_all_mono (members groups id) k j v)

-- A block is in its own group.
pub group_of_self :
    (groups : List (ℕ × ℕ)) (id : ℕ) → ((group_of groups id).0 ≤ id) × (id < (group_of groups id).1)
unfolding group_of
group_of_self [] id = (omega arith, omega arith)
group_of_self ((a, b) ∷ groups) id = ground (arith, group_of_self groups id)

pub contains-members :
    (groups : List (ℕ × ℕ)) (id j : ℕ)
    → contains j (members groups id)
      ≡ (leb (group_of groups id).0 j && ltb j (group_of groups id).1)
unfolding members
contains-members groups id j =
    let own = group_of_self groups id in
    ground (
      arith,
      contains-range j (group_of groups id).0 ((group_of groups id).1 - (group_of groups id).0),
    )

pub keep_required :
    (groups : List (ℕ × ℕ)) (n budget : ℕ) (ids : List ℕ) (j : ℕ) (k k' : Kept)
    → Within n budget k
    → j < n
    → contains j ids ≡ true
    → keep_groups groups budget true ids k ≡ ok k'
    → is_kept k' j ≡ true
unfolding keep_groups
keep_required groups n budget [] j k k' v inside c h = cc
keep_required groups n budget (id ∷ ids) j k k' v inside c h =
    let (k₁, e, h₁) = returned (keep_group groups budget true id k) _ h in
    elim (Bool-cases (id == j)) [
      | inl here ↦
          let same : id ≡ j = ground arith in
          let size = v.counted.size in
          keep_groups-keeps (λ x. is_kept x j ≡ true) groups budget true
            (is_kept-grows groups budget true j) ids k₁ k'
            (keep_group-cases (λ x. is_kept x j ≡ true) groups budget true id k k₁
              (λ skipped. absurd (ground arith))
              (λ in_range fits.
                let own = group_of_self groups id in
                ground
                  (arith, is_kept-keep_all (members groups id) k j, contains-members groups id j))
              e)
            h₁
      | inr other ↦
          keep_required groups n budget ids j k₁ k'
            (keep_group-Within groups n budget true id k k₁ v e) inside (ground arith) h₁
    ]

pub none_kept-Within : (n budget : ℕ) → Within n budget (none_kept n)
unfolding none_kept
none_kept-Within n budget = record { counted = none_kept-Counted n; within = omega arith }
