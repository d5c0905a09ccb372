-- ===== src/Store/Plan/Pack.antt =====
-- The window that `set_selection` packs: the selected blocks in chronological order, one behind the
-- other, each block's position and remap at its place.
use kvmem_test.Common.{
  ℕ, zero, suc, ◌+◌, ◌*◌, ◌≤◌, ◌<◌, ◌^◌, ◌≡◌, refl, sym, ap, ◌∙◌, pos, Bool, true, false, not, List,
  [], ◌∷◌, ◌++◌, map, ◌==◌, get_elem?, modify, length, some, none, add32_small, arith, Option-cases,
  Bool-cases, inl, inr, contains, All, Ascending, get_elem?-modify_self, get_elem?-modify_ne,
  length-modify, length-map, to_int32-pos, ok,
}
use mathlib.Core.Path.{subst}
use kvmem_test.Store.Types.{
  KvMemBlock, KvMemRemap, KvMemPlan, KvMemStore, KvMemStoreConfig, block_count,
}
use kvmem_test.Store.Table.Layout.{Laid, IsLaid, Laid-start-le}
use kvmem_test.Store.Select.Ids.{contains_below}
use kvmem_test.Store.Plan.{
  Window, leaves, count_block, normalize, plan_remap, move_block, leave_window, set_selection,
  start_window,
}
use kvmem_test.Store.Plan.Normalize.{normalize-IsSelection}
use kvmem_test.Store.Plan.Run.{run_block, run_ids, run_ids-some, run_ids-none, set_selection-run}

mul_mono : (a b n : ℕ) → a ≤ b → a * n ≤ b * n
mul_mono a b n h = grind arith

pub get_elem?-in_range {ℓ} :
    {A : Type ℓ} (xs : List A) (i : ℕ) → i < length xs → (x : A) × (get_elem? xs i ≡ some x)
get_elem?-in_range [] i h = absurd (omega arith)
get_elem?-in_range (x ∷ xs) zero h = (x, refl)
get_elem?-in_range (x ∷ xs) (suc i) h = get_elem?-in_range xs i (omega arith)

pub get_elem?-map {ℓ κ} :
    {A : Type ℓ} {B : Type κ} (f : A → B) (xs : List A) (i : ℕ) (y : B)
    → get_elem? (map f xs) i ≡ some y
    → (x : A) × (get_elem? xs i ≡ some x) × (y ≡ f x)
get_elem?-map f [] i y h = cc
get_elem?-map f (x ∷ xs) zero y h = (x, refl, cc)
get_elem?-map f (x ∷ xs) (suc i) y h = get_elem?-map f xs i y h

module _ {D : Type 0} where
  -- What a block of a laid table covers.
  pub record IsPlaced (bt total id : ℕ) (b : KvMemBlock D) : Type 0 where
    pub numbered : b.block_id ≡ id
    pub small : b.n_tokens ≤ bt
    pub ends : id * bt + b.n_tokens ≤ total

  pub Laid-IsPlaced :
      (bt id start total k : ℕ) (bs : List (KvMemBlock D)) (b : KvMemBlock D)
      → Laid bt id start bs total
      → get_elem? bs k ≡ some b
      → IsPlaced bt total (id + k) b
  Laid-IsPlaced bt id start total k [] b h e = cc
  Laid-IsPlaced bt id start total zero (c ∷ bs) b h e =
      let end = Laid-start-le bt (id + 1) (start + c.n_tokens) bs total h.5 in
      let same : c ≡ b = cc in
      rw (sym same) (record { numbered = omega arith; small = h.4; ends = omega arith })
  Laid-IsPlaced bt id start total (suc k) (c ∷ bs) b h e =
      let e' : id + 1 + k ≡ id + suc k = omega arith in
      rw e' at (Laid-IsPlaced bt (id + 1) (start + c.n_tokens) total k bs b h.5 e)

  -- Every block of the table is where the layout has it.
  abbrev pub AllPlaced : ℕ → ℕ → List (KvMemBlock D) → Type 0
  AllPlaced bt total table =
      (id : ℕ) (b : KvMemBlock D) → get_elem? table id ≡ some b → IsPlaced bt total id b

  -- The plan's remaps are those of the selected blocks in their order, the window is contiguous
  -- from `p` up to `total`, and each block has the position of its remap.
  pub Packed : List (KvMemBlock D) → ℕ → List ℕ → List KvMemRemap → ℕ → Type 0
  Packed table p [] [] total = p ≡ total
  Packed table p [] (rm ∷ rms) total = true ≡ false
  Packed table p (id ∷ ids) [] total = true ≡ false
  Packed table p (id ∷ ids) (rm ∷ rms) total =
      (b : KvMemBlock D) × (get_elem? table id ≡ some b)
      × (b.baked_pos ≡ pos p)
      × (b.in_working_set ≡ true)
      × (rm.block_id ≡ b.block_id)
      × (rm.n_tokens ≡ b.n_tokens)
      × (rm.to_base ≡ pos p)
      × Packed table (p + b.n_tokens) ids rms total

  pub move_block-moved :
      (rm : KvMemRemap) (p : ℕ) (b : KvMemBlock D)
      → ((move_block rm p b).baked_pos ≡ pos p)
        × ((move_block rm p b).in_working_set ≡ true)
        × ((move_block rm p b).block_id ≡ b.block_id)
        × ((move_block rm p b).n_tokens ≡ b.n_tokens)
  unfolding move_block
  move_block-moved rm p b = elim (Bool-cases rm.skip) [
    | inl e ↦ rw e (refl, refl, refl, refl)
    | inr e ↦ elim (Bool-cases rm.raw_refresh) [
      | inl k ↦ rw (e, k) (refl, refl, refl, refl)
      | inr k ↦ rw (e, k) (refl, refl, refl, refl)
    ]
  ]

  move_block-IsPlaced :
      (bt total id p : ℕ) (rm : KvMemRemap) (b : KvMemBlock D)
      → IsPlaced bt total id b
      → IsPlaced bt total id (move_block rm p b)
  move_block-IsPlaced bt total id p rm b v =
      let (_, _, same_id, same_n) = move_block-moved rm p b in
      let numbered = v.numbered in
      let small = v.small in
      let ends = v.ends in
      record { numbered = same_id ∙ numbered; small = omega arith; ends = omega arith }

  modify-AllPlaced :
      (bt total id p : ℕ) (rm : KvMemRemap) (b : KvMemBlock D) (table : List (KvMemBlock D))
      → get_elem? table id ≡ some b
      → AllPlaced bt total table
      → AllPlaced bt total (modify table id (move_block rm p))
  modify-AllPlaced bt total id p rm b table e v j c h = elim (Bool-cases (id == j)) [
    | inl k ↦
        let same : id ≡ j = ground arith in
        let at : get_elem? (modify table id (move_block rm p)) j ≡ some (move_block rm p b) =
          rw (sym same) (get_elem?-modify_self table id (move_block rm p) b e) in
        let same_block : move_block rm p b ≡ c = cc in
        rw (sym same_block) (rw (sym same) (move_block-IsPlaced bt total id p rm b (v id b e)))
    | inr k ↦ v j c (sym (get_elem?-modify_ne table id j (move_block rm p) (ground arith)) ∙ h)
  ]

  module _ (c : KvMemStoreConfig D) (force : Bool) (was : List Bool) where
    -- The remaps that the loop appends.
    remaps_of : List ℕ → Window D → List KvMemRemap
    remaps_of [] w = []
    remaps_of (id ∷ ids) w = elim (get_elem? w.table id) [
      | none ↦ remaps_of ids w
      | some b ↦ plan_remap c force id w.window_pos b ∷ remaps_of ids (run_block c force was id b w)
    ]

    append_assoc : (xs ys zs : List KvMemRemap) → (xs ++ ys) ++ zs ≡ xs ++ (ys ++ zs)
    append_assoc [] ys zs = refl
    append_assoc (x ∷ xs) ys zs = ap (λ t. x ∷ t) (append_assoc xs ys zs)

    append_nil : (xs : List KvMemRemap) → xs ++ [] ≡ xs
    append_nil [] = refl
    append_nil (x ∷ xs) = ap (λ t. x ∷ t) (append_nil xs)

    remaps_of-some :
        (id : ℕ) (ids : List ℕ) (b : KvMemBlock D) (w : Window D)
        → get_elem? w.table id ≡ some b
        → remaps_of (id ∷ ids) w
          ≡ plan_remap c force id w.window_pos b ∷ remaps_of ids (run_block c force was id b w)
    unfolding remaps_of
    remaps_of-some id ids b w e = rw (e, remaps_of) refl

    remaps_of-none :
        (id : ℕ) (ids : List ℕ) (w : Window D)
        → get_elem? w.table id ≡ none
        → remaps_of (id ∷ ids) w ≡ remaps_of ids w
    unfolding remaps_of
    remaps_of-none id ids w e = rw (e, remaps_of) refl

    run_ids-remaps :
        (ids : List ℕ) (w : Window D)
        → (run_ids c force was ids w).plan.remaps ≡ w.plan.remaps ++ remaps_of ids w
    unfolding run_ids remaps_of count_block
    run_ids-remaps [] w = sym (append_nil w.plan.remaps)
    run_ids-remaps (id ∷ ids) w = elim (Option-cases (get_elem? w.table id)) [
      | inl e ↦
          rw (run_ids-none c force was id ids w e, remaps_of-none id ids w e) (run_ids-remaps ids w)
      | inr (b, e) ↦
          rw (run_ids-some c force was id ids b w e, remaps_of-some id ids b w e)
            (run_ids-remaps ids (run_block c force was id b w)
              ∙ append_assoc w.plan.remaps (plan_remap c force id w.window_pos b ∷ [])
                  (remaps_of ids (run_block c force was id b w)))
    ]

    -- The loop leaves the blocks that are not selected alone.
    pub run_ids-other :
        (ids : List ℕ) (w : Window D) (j : ℕ)
        → contains j ids ≡ false
        → get_elem? (run_ids c force was ids w).table j ≡ get_elem? w.table j
    unfolding run_ids
    run_ids-other [] w j h = refl
    run_ids-other (id ∷ ids) w j h = elim (Option-cases (get_elem? w.table id)) [
      | inl e ↦ rw (run_ids-none c force was id ids w e) (run_ids-other ids w j (ground arith))
      | inr (b, e) ↦ rw (run_ids-some c force was id ids b w e) (
          run_ids-other ids (run_block c force was id b w) j (ground arith)
          ∙ get_elem?-modify_ne w.table id j _ (ground arith))
    ]

    run_ids-Packed :
        (bt total lo : ℕ) (ids : List ℕ) (w : Window D)
        → AllPlaced bt total w.table
        → Ascending lo ids
        → All (λ id. id < length w.table) ids
        → w.window_pos ≤ lo * bt
        → w.window_pos ≤ total
        → total < 2 ^ 31
        → Packed
            (run_ids c force was ids w).table
            w.window_pos
            ids
            (remaps_of ids w)
            (run_ids c force was ids w).window_pos
          × ((run_ids c force was ids w).window_pos ≤ total)
    unfolding run_ids remaps_of Packed plan_remap
    run_ids-Packed bt total lo [] w v a r p q t = (refl, q)
    run_ids-Packed bt total lo (id ∷ ids) w v (h, a) (r, rs) p q t =
        let (b, e) = get_elem?-in_range w.table id r in
        let placed = v id b e in
        let small = placed.small in
        let ends = placed.ends in
        let rm = plan_remap c force id w.window_pos b in
        let w' = run_block c force was id b w in
        let (at, in_window, same_id, same_n) = move_block-moved rm w.window_pos b in
        let here : get_elem? w'.table id ≡ some (move_block rm w.window_pos b) =
          get_elem?-modify_self w.table id (move_block rm w.window_pos) b e in
        let below : lo * bt ≤ id * bt = mul_mono lo id bt h in
        let next : w'.window_pos ≡ w.window_pos + b.n_tokens =
          add32_small w.window_pos b.n_tokens (omega arith) in
        let to : rm.to_base ≡ pos w.window_pos = to_int32-pos w.window_pos (omega arith) in
        let same_length : length w'.table ≡ length w.table = length-modify w.table id _ in
        let (packed, bound) =
          run_ids-Packed bt total (id + 1) ids w'
            (modify-AllPlaced bt total id w.window_pos rm b w.table e v) a (rw same_length rs)
            (omega arith) (omega arith) t in
        let at_end = run_ids-other ids w' id (contains_below id (id + 1) ids (omega arith) a) in
        rw (run_ids-some c force was id ids b w e, remaps_of-some id ids b w e)
          (
            (
              move_block rm w.window_pos b,
              at_end ∙ here,
              at,
              in_window,
              sym (same_id ∙ placed.numbered),
              sym same_n,
              to,
              subst
                  (λ q.
                    Packed (run_ids c force was ids w').table q ids (remaps_of ids w')
                      (run_ids c force was ids w').window_pos)
                  (next ∙ ap (λ n. w.window_pos + n) (sym same_n)) packed,
            ),
            bound,
          )

  leave_window-IsPlaced :
      (full : Bool) (ids : List ℕ) (bt total id : ℕ) (b : KvMemBlock D)
      → IsPlaced bt total id b
      → IsPlaced bt total id (leave_window full ids b)
  unfolding leave_window
  leave_window-IsPlaced full ids bt total id b v = elim (Bool-cases (leaves full ids b)) [
    | inl e ↦ rw e (record { numbered = v.numbered; small = v.small; ends = v.ends })
    | inr e ↦ rw e v
  ]

  start_window-AllPlaced :
      (s : KvMemStore D) (ids : List ℕ)
      → IsLaid s
      → AllPlaced s.block_tokens s.total_tokens (start_window s ids).table
  unfolding start_window
  start_window-AllPlaced s ids v id b e =
      let (a, at, same) =
        get_elem?-map (leave_window (not s.optimize_stage_in) ids) s.blocks id b e in
      let zero_add : 0 + id ≡ id = omega arith in
      let placed : IsPlaced s.block_tokens s.total_tokens id a =
        rw zero_add at (Laid-IsPlaced s.block_tokens 0 0 s.total_tokens id s.blocks a v.laid at) in
      rw same (leave_window-IsPlaced (not s.optimize_stage_in) ids _ _ id a placed)

  -- On a laid table of fewer than 2^31 tokens `set_selection` returns: its remaps are those of the
  -- requested blocks that exist, in ascending order and each once; their targets are contiguous from
  -- 0 up to `total_window_tokens`, which is at most the token count; and each of these blocks is in
  -- the working set, at the target of its remap.
  pub set_selection-Packed :
      (s : KvMemStore D) (selected : List ℕ) (force : Bool)
      → IsLaid s
      → s.total_tokens < 2 ^ 31
      → (s' : KvMemStore D) × (plan : KvMemPlan) × (set_selection s selected force ≡ ok (s', plan))
        × Packed s'.blocks 0
            (normalize (block_count s) selected)
            plan.remaps
            plan.total_window_tokens
        × (plan.total_window_tokens ≤ s.total_tokens)
  unfolding start_window
  set_selection-Packed s selected force v t =
      let ids = normalize (block_count s) selected in
      let was = map (λ (b : KvMemBlock D). b.in_working_set) s.blocks in
      let w = start_window s ids in
      let chosen = normalize-IsSelection (block_count s) selected in
      let same_length : length w.table ≡ block_count s = length-map _ s.blocks in
      let (packed, bound) =
        run_ids-Packed s.cfg force was s.block_tokens s.total_tokens 0 ids w
          (start_window-AllPlaced s ids v) chosen.ascending (rw same_length chosen.in_range)
          (omega arith) (omega arith) t in
      (
        _,
        _,
        set_selection-run s selected force,
        rw (run_ids-remaps s.cfg force was ids w) packed,
        bound,
      )
