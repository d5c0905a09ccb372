-- ===== src/Store/Plan/Run.antt =====
-- The packing loop of `set_selection` never throws; its run as a function without errors.
use kvmem_test.Common.{
  ℕ, ◌≡◌, refl, ap, Bool, false, not, ◌&&◌, ◌||◌, List, [], ◌∷◌, ◌++◌, map, get_or, get_elem?,
  modify, some, none, add32, arith, Option-cases, inl, inr, equals_ℕ,
}
use kvmem_test.Common.{ok}
use kvmem_test.Store.Types.{KvMemBlock, KvMemStore, KvMemStoreConfig, block_count, is_gpu}
use kvmem_test.Store.Plan.{
  Window, normalize, plan_remap, move_block, count_block, place_block, place_id, place_blocks,
  set_selection, start_window, finish_window,
}

exclusive :
    (same imm cold force limits : Bool)
    → ((same && (not imm || not cold) && not force)
        && ((imm && (cold || not same) && (cold || limits)) || (imm && force)))
      ≡ false
exclusive same imm cold force limits = ground arith

module _ {D : Type 0} where
  -- The two flags of a remap exclude one another, so the logic error of the source is unreachable.
  pub plan_remap-consistent :
      (c : KvMemStoreConfig D) (force : Bool) (id p : ℕ) (b : KvMemBlock D)
      → ((plan_remap c force id p b).skip && (plan_remap c force id p b).raw_refresh) ≡ false
  unfolding plan_remap
  plan_remap-consistent c force id p b =
      exclusive (equals_ℕ b.baked_pos p) c.immutable_source_k
        (not (is_gpu b.tier) || not c.optimize_stage_in) force _

  module _ (c : KvMemStoreConfig D) (force : Bool) (was : List Bool) where
    abbrev pub run_block : ℕ → KvMemBlock D → Window D → Window D
    run_block id b w =
        let rm = plan_remap c force id w.window_pos b in
        let plan' =
          count_block (not c.optimize_stage_in) (get_or was id false) id w.window_pos b w.plan in
        record {
          table = modify w.table id (move_block rm w.window_pos);
          plan = record plan' { remaps = plan'.remaps ++ rm ∷ [] };
          window_pos = add32 w.window_pos b.n_tokens;
        }

    unfoldable pub run_id : ℕ → Window D → Window D
    run_id id w = elim (get_elem? w.table id) [ none ↦ w | some b ↦ run_block id b w ]

    unfoldable pub run_ids : List ℕ → Window D → Window D
    run_ids [] w = w
    run_ids (id ∷ ids) w = run_ids ids (run_id id w)

    pub run_id-some :
        (id : ℕ) (b : KvMemBlock D) (w : Window D)
        → get_elem? w.table id ≡ some b
        → run_id id w ≡ run_block id b w
    unfolding run_id
    run_id-some id b w e = rw (e, run_id) refl

    pub run_ids-some :
        (id : ℕ) (ids : List ℕ) (b : KvMemBlock D) (w : Window D)
        → get_elem? w.table id ≡ some b
        → run_ids (id ∷ ids) w ≡ run_ids ids (run_block id b w)
    unfolding run_ids
    run_ids-some id ids b w e = ap (run_ids ids) (run_id-some id b w e)

    pub run_ids-none :
        (id : ℕ) (ids : List ℕ) (w : Window D)
        → get_elem? w.table id ≡ none
        → run_ids (id ∷ ids) w ≡ run_ids ids w
    unfolding run_ids run_id
    run_ids-none id ids w e = rw (e, run_ids, run_id) refl

    place_block-run :
        (id : ℕ) (b : KvMemBlock D) (w : Window D)
        → place_block c force was id b w ≡ ok (run_block id b w)
    unfolding place_block
    place_block-run id b w = rw (plan_remap-consistent c force id w.window_pos b) refl

    place_id-run : (id : ℕ) (w : Window D) → place_id c force was id w ≡ ok (run_id id w)
    unfolding run_id
    place_id-run id w = elim (Option-cases (get_elem? w.table id)) [
      | inl e ↦ unfold place_id in rw (e, place_id, run_id) refl
      | inr (b, e) ↦ unfold place_id in rw (e, place_id, run_id) (place_block-run id b w)
    ]

    pub place_blocks-run :
        (ids : List ℕ) (w : Window D) → place_blocks c force was ids w ≡ ok (run_ids ids w)
    unfolding place_blocks run_ids
    place_blocks-run [] w = refl
    place_blocks-run (id ∷ ids) w = rw (place_id-run id w) (place_blocks-run ids (run_id id w))

  abbrev pub final_window : KvMemStore D → List ℕ → Bool → Window D
  final_window s selected force =
      let ids = normalize (block_count s) selected in
      run_ids s.cfg force (map (λ (b : KvMemBlock D). b.in_working_set) s.blocks) ids
        (start_window s ids)

  pub set_selection-run :
      (s : KvMemStore D) (selected : List ℕ) (force : Bool)
      → set_selection s selected force ≡ ok (finish_window s (final_window s selected force))
  unfolding set_selection
  set_selection-run s selected force =
      rw (place_blocks-run s.cfg force _ (normalize (block_count s) selected) _) refl
