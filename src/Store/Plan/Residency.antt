-- ===== src/Store/Plan/Residency.antt =====
-- The stage lists of `set_selection`: carrying them out leaves exactly the selection on the GPU.
use kvmem_test.Common.{
  ℕ, zero, suc, ◌+◌, ◌<◌, ◌≡◌, refl, sym, ap, ◌∙◌, Bool, true, false, not, ◌&&◌, ◌||◌, List, [],
  ◌∷◌, ◌++◌, map, ◌==◌, get_elem?, modify, length, some, arith, Option-cases, Bool-cases, inl, inr,
  contains, All, length-modify, length-map, ok,
}
use kvmem_test.Store.Types.{
  KvMemBlock, KvMemPlan, KvMemStore, KvMemStoreConfig, block_count, is_gpu,
}
use kvmem_test.Store.Table.Layout.{Laid, IsLaid}
use kvmem_test.Store.Plan.{
  Window, leaves, count_block, normalize, plan_remap, move_block, leave_window, set_selection,
  stage_out_ids, start_window,
}
use kvmem_test.Store.Plan.Normalize.{normalize-IsSelection, contains-normalize}
use kvmem_test.Store.Plan.Run.{run_block, run_ids, run_ids-some, run_ids-none, set_selection-run}
use kvmem_test.Store.Plan.Pack.{get_elem?-in_range, move_block-moved, IsPlaced, Laid-IsPlaced}

contains-append :
    (j : ℕ) (xs ys : List ℕ) → contains j (xs ++ ys) ≡ (contains j xs || contains j ys)
contains-append j [] ys = refl
contains-append j (x ∷ xs) ys = ground (arith, contains-append j xs ys)

pub get_elem?-lt {ℓ} :
    {A : Type ℓ} (xs : List A) (i : ℕ) (x : A) → get_elem? xs i ≡ some x → i < length xs
get_elem?-lt [] i x e = cc
get_elem?-lt (y ∷ xs) zero x e = omega arith
get_elem?-lt (y ∷ xs) (suc i) x e = omega (arith, get_elem?-lt xs i x e)

flags_work :
    (gpu in_set full chosen works wanted : Bool)
    → works ≡ (in_set && not (gpu && (not chosen || full)))
    → (in_set && not gpu) ≡ false
    → chosen ≡ wanted
    → (works || chosen) ≡ wanted
flags_work gpu in_set full chosen works wanted h g k = ground arith

flags_move :
    (gpu in_set full chosen works wanted : Bool)
    → works ≡ (in_set && not (gpu && (not chosen || full)))
    → (in_set && not gpu) ≡ false
    → chosen ≡ wanted
    → ((gpu && not (gpu && (not chosen || full))) || (false || (chosen && not works))) ≡ wanted
flags_move gpu in_set full chosen works wanted h g k = ground arith

module _ {D : Type 0} where
  -- Whether block `j` is in the working set.
  abbrev pub works : List (KvMemBlock D) → ℕ → Bool
  works [] j = false
  works (b ∷ bs) zero = b.in_working_set
  works (b ∷ bs) (suc j) = works bs j

  works-some :
      (bs : List (KvMemBlock D)) (j : ℕ) (b : KvMemBlock D)
      → get_elem? bs j ≡ some b
      → works bs j ≡ b.in_working_set
  works-some [] j b e = cc
  works-some (c ∷ bs) zero b e =
      let same : c ≡ b = cc in ap (λ (x : KvMemBlock D). x.in_working_set) same
  works-some (c ∷ bs) (suc j) b e = works-some bs j b e

  works-modify :
      (bs : List (KvMemBlock D)) (id j : ℕ) (f : KvMemBlock D → KvMemBlock D)
      → id < length bs
      → ((b : KvMemBlock D) → (f b).in_working_set ≡ true)
      → works (modify bs id f) j ≡ (works bs j || (id == j))
  works-modify [] id j f h k = absurd (omega arith)
  works-modify (b ∷ bs) zero zero f h k = ground (arith, k b)
  works-modify (b ∷ bs) zero (suc j) f h k = ground arith
  works-modify (b ∷ bs) (suc id) zero f h k = ground arith
  works-modify (b ∷ bs) (suc id) (suc j) f h k =
      ground (arith, works-modify bs id j f (omega arith) k)

  works-map :
      (full : Bool) (ids : List ℕ) (bs : List (KvMemBlock D)) (j : ℕ) (b : KvMemBlock D)
      → get_elem? bs j ≡ some b
      → works (map (leave_window full ids) bs) j ≡ (b.in_working_set && not (leaves full ids b))
  unfolding leave_window
  works-map full ids [] j b e = cc
  works-map full ids (c ∷ bs) zero b e =
      let same : c ≡ b = cc in
      rw same (elim (Bool-cases (leaves full ids b)) [
        | inl k ↦ rw k (ground arith)
        | inr k ↦ rw k (ground arith)
      ])
  works-map full ids (c ∷ bs) (suc j) b e = works-map full ids bs j b e

  stage_out_ids-below :
      (full : Bool) (ids : List ℕ) (bt id start total j : ℕ) (bs : List (KvMemBlock D))
      → Laid bt id start bs total
      → j < id
      → contains j (stage_out_ids full ids bs) ≡ false
  unfolding stage_out_ids
  stage_out_ids-below full ids bt id start total j [] v h = refl
  stage_out_ids-below full ids bt id start total j (b ∷ bs) v h =
      let rest =
        stage_out_ids-below full ids bt (id + 1) (start + b.n_tokens) total j bs v.5
          (omega arith) in
      elim (Bool-cases (leaves full ids b)) [
        | inl k ↦ rw k (ground (arith, rest))
        | inr k ↦ rw k rest
      ]

  contains-stage_out_ids :
      (full : Bool) (ids : List ℕ) (bt id start total k : ℕ) (bs : List (KvMemBlock D))
      (b : KvMemBlock D)
      → Laid bt id start bs total
      → get_elem? bs k ≡ some b
      → contains (id + k) (stage_out_ids full ids bs)
        ≡ (is_gpu b.tier && (not (contains (id + k) ids) || full))
  unfolding stage_out_ids leaves
  contains-stage_out_ids full ids bt id start total k [] b v e = cc
  contains-stage_out_ids full ids bt id start total zero (c ∷ bs) b v e =
      let same : c ≡ b = cc in
      let at : id + 0 ≡ c.block_id = omega arith in
      let rest =
        stage_out_ids-below full ids bt (id + 1) (start + c.n_tokens) total id bs v.5
          (omega arith) in
      let rest' : contains c.block_id (stage_out_ids full ids bs) ≡ false = rw v.0 rest in
      rw (at, sym same)
        (elim (Bool-cases (leaves full ids c)) [
          | inl k ↦ rw k (ground (arith, rest', k))
          | inr k ↦ rw k rest'
        ])
  contains-stage_out_ids full ids bt id start total (suc k) (c ∷ bs) b v e =
      let step : id + suc k ≡ id + 1 + k = omega arith in
      let rest =
        contains-stage_out_ids full ids bt (id + 1) (start + c.n_tokens) total k bs b v.5 e in
      rw step (elim (Bool-cases (leaves full ids c)) [
        | inl h ↦ rw h (ground (arith, rest))
        | inr h ↦ rw h rest
      ])

  module _ (c : KvMemStoreConfig D) (force : Bool) (was : List Bool) where
    run_ids-works :
        (ids : List ℕ) (w : Window D) (j : ℕ)
        → All (λ id. id < length w.table) ids
        → works (run_ids c force was ids w).table j ≡ (works w.table j || contains j ids)
    unfolding run_ids
    run_ids-works [] w j r = ground arith
    run_ids-works (id ∷ ids) w j (h, r) =
        let (b, e) = get_elem?-in_range w.table id h in
        let rm = plan_remap c force id w.window_pos b in
        let same_length = length-modify w.table id (move_block rm w.window_pos) in
        let here =
          works-modify w.table id j (move_block rm w.window_pos) h
            (λ a. (move_block-moved rm w.window_pos a).1) in
        let rest = run_ids-works ids (run_block c force was id b w) j (rw same_length r) in
        rw (run_ids-some c force was id ids b w e) (rest ∙ ground (arith, here))

    stage_in_step :
        (id j : ℕ) (b : KvMemBlock D) (w : Window D) (more moved : Bool)
        → works w.table id ≡ b.in_working_set
        → moved ≡ (works w.table j || (id == j))
        → (contains j (run_block c force was id b w).plan.stage_in || (more && not moved))
          ≡ (contains j w.plan.stage_in || (((id == j) || more) && not (works w.table j)))
    unfolding count_block
    stage_in_step id j b w more moved h k = elim (Bool-cases (id == j)) [
      | inl e ↦
          let same : id ≡ j = ground arith in
          let at : works w.table j ≡ b.in_working_set = rw (sym same) h in
          elim (Bool-cases b.in_working_set) [
            | inl i ↦ rw i (ground arith)
            | inr i ↦ rw i (ground (arith, contains-append j w.plan.stage_in (id ∷ [])))
          ]
      | inr e ↦ elim (Bool-cases b.in_working_set) [
        | inl i ↦ rw i (ground arith)
        | inr i ↦ rw i (ground (arith, contains-append j w.plan.stage_in (id ∷ [])))
      ]
    ]

    run_ids-stage_in :
        (ids : List ℕ) (w : Window D) (j : ℕ)
        → All (λ id. id < length w.table) ids
        → contains j (run_ids c force was ids w).plan.stage_in
          ≡ (contains j w.plan.stage_in || (contains j ids && not (works w.table j)))
    unfolding run_ids
    run_ids-stage_in [] w j r = ground arith
    run_ids-stage_in (id ∷ ids) w j (h, r) =
        let (b, e) = get_elem?-in_range w.table id h in
        let rm = plan_remap c force id w.window_pos b in
        let same_length = length-modify w.table id (move_block rm w.window_pos) in
        let moved =
          works-modify w.table id j (move_block rm w.window_pos) h
            (λ a. (move_block-moved rm w.window_pos a).1) in
        let here = works-some w.table id b e in
        let rest = run_ids-stage_in ids (run_block c force was id b w) j (rw same_length r) in
        rw (run_ids-some c force was id ids b w e)
          (rest ∙ stage_in_step id j b w (contains j ids) _ here moved)

    run_ids-stage_out :
        (ids : List ℕ) (w : Window D)
        → (run_ids c force was ids w).plan.stage_out ≡ w.plan.stage_out
    unfolding run_ids count_block
    run_ids-stage_out [] w = refl
    run_ids-stage_out (id ∷ ids) w = elim (Option-cases (get_elem? w.table id)) [
      | inl e ↦ rw (run_ids-none c force was id ids w e) (run_ids-stage_out ids w)
      | inr (b, e) ↦
          rw (run_ids-some c force was id ids b w e)
            (run_ids-stage_out ids (run_block c force was id b w))
    ]

  -- Take a block `b` of a laid table that is on the GPU if it is in the working set. After
  -- `set_selection` it is in the working set exactly if it was requested; and if the blocks of
  -- `stage_out` leave the GPU and then those of `stage_in` enter it, it is on the GPU exactly if
  -- it was requested.
  pub set_selection-residency :
      (s : KvMemStore D) (selected : List ℕ) (force : Bool) (j : ℕ) (b : KvMemBlock D)
      → IsLaid s
      → get_elem? s.blocks j ≡ some b
      → (b.in_working_set && not (is_gpu b.tier)) ≡ false
      → (s' : KvMemStore D) × (plan : KvMemPlan) × (set_selection s selected force ≡ ok (s', plan))
        × (works s'.blocks j ≡ contains j selected)
        × (((is_gpu b.tier && not (contains j plan.stage_out)) || contains j plan.stage_in)
            ≡ contains j selected)
  unfolding start_window leaves
  set_selection-residency s selected force j b v e g =
      let ids = normalize (block_count s) selected in
      let full = not s.optimize_stage_in in
      let was = map (λ (x : KvMemBlock D). x.in_working_set) s.blocks in
      let w = start_window s ids in
      let same_length : length w.table ≡ block_count s = length-map _ s.blocks in
      let in_range : All (λ id. id < length w.table) ids =
        rw same_length ((normalize-IsSelection (block_count s) selected).in_range) in
      let inside = get_elem?-lt s.blocks j b e in
      let chosen : contains j ids ≡ contains j selected =
        contains-normalize (block_count s) j selected ∙ ground (arith, inside) in
      let zero_add : 0 + j ≡ j = omega arith in
      let placed : IsPlaced s.block_tokens s.total_tokens j b =
        rw zero_add at (Laid-IsPlaced s.block_tokens 0 0 s.total_tokens j s.blocks b v.laid e) in
      let number = placed.numbered in
      let before : works w.table j
          ≡ (b.in_working_set && not (is_gpu b.tier && (not (contains j ids) || full))) =
        rw number at (works-map full ids s.blocks j b e) in
      let out : contains j w.plan.stage_out ≡ (is_gpu b.tier && (not (contains j ids) || full)) =
        rw zero_add at (
          contains-stage_out_ids full ids s.block_tokens 0 0 s.total_tokens j s.blocks b v.laid
            e) in
      let entered = run_ids-stage_in s.cfg force was ids w j in_range in
      let working = run_ids-works s.cfg force was ids w j in_range in
      let left = ap (contains j) (run_ids-stage_out s.cfg force was ids w) in
      (
        _,
        _,
        set_selection-run s selected force,
        working ∙ flags_work _ _ full _ _ _ before g chosen,
        rw (left, out, entered)
            (flags_move (is_gpu b.tier) b.in_working_set full (contains j ids) (works w.table j) _
              before g chosen),
      )
