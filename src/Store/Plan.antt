-- ===== src/Store/Plan.antt =====
-- `set_selection`, `commit_resident_selection` and their plan, of kvmem_store.cpp. A block's number
-- is its index, which the layout of the table guarantees.
pub mod Normalize
pub mod Run
pub mod Pack
pub mod Residency
pub mod Drift
use kvmem_test.Common.{
  ℕ, zero, suc, ◌+◌, ◌-◌, ◌%◌, ◌≤◌, ◌<◌, ℤ, pos, negsuc, Bool, true, false, not, ◌&&◌, ◌||◌, List,
  [], ◌∷◌, ◌++◌, map, min, ltb, leb, ◌==◌, if◌then◌else◌, length, get_or, get_elem?, modify,
  contains, Option, some, none, add32, add64, u64_mod, to_int32, is_nonneg, equals_ℕ, abs_diff,
}
use kvmem_test.Common.{Error, Result, ok, throw, ◌>>=◌}
use kvmem_test.Store.Types.{
  KvTier, is_gpu, KvMemBlock, KvMemRemap, KvMemPlan, empty_plan, KvMemStore, KvMemStoreConfig,
  block_count,
}
use kvmem_test.Store.Select.{sort}

-- std::unique
unfoldable pub unique : List ℕ → List ℕ
unique [] = []
unique (x ∷ []) = x ∷ []
unique (x ∷ y ∷ ys) = let rest = unique (y ∷ ys) in if x == y then rest else x ∷ rest

-- std::remove_if of the numbers out of range.
unfoldable pub drop_from : ℕ → List ℕ → List ℕ
drop_from n [] = []
drop_from n (x ∷ xs) = let rest = drop_from n xs in if leb n x then rest else x ∷ rest

unfoldable pub normalize : ℕ → List ℕ → List ℕ
unfolding sort unique drop_from
normalize n ids = drop_from n (unique (sort ltb ids))

-- A bake position that is negative, or that ends past the limit.
unfoldable pub ends_after : ℕ → ℕ → ℤ → Bool
ends_after limit n (pos baked) = ltb limit ((baked + n) % u64_mod)
ends_after limit n (negsuc _) = true

-- The variables of the packing loop.
pub record Window (D : Type 0) : Type 0 where
  pub table : List (KvMemBlock D)
  pub plan : KvMemPlan
  pub window_pos : ℕ

unfoldable pub same_ids : List ℕ → List ℕ → Bool
same_ids [] [] = true
same_ids [] (y ∷ ys) = false
same_ids (x ∷ xs) [] = false
same_ids (x ∷ xs) (y ∷ ys) = (x == y) && same_ids xs ys

module _ {D : Type 0} where
  -- The blocks that were in the working set and stay selected.
  unfoldable pub overlap : List ℕ → List (KvMemBlock D) → ℕ
  overlap ids [] = 0
  overlap ids (b ∷ bs) =
      let rest = overlap ids bs in
      if b.in_working_set && contains b.block_id ids then rest + 1 else rest

  -- The test of the stage-out loop.
  unfoldable pub leaves : Bool → List ℕ → KvMemBlock D → Bool
  leaves force_full ids b = is_gpu b.tier && (not (contains b.block_id ids) || force_full)

  unfoldable pub stage_out_ids : Bool → List ℕ → List (KvMemBlock D) → List ℕ
  unfolding leaves
  stage_out_ids force_full ids [] = []
  stage_out_ids force_full ids (b ∷ bs) =
      let rest = stage_out_ids force_full ids bs in
      if leaves force_full ids b then b.block_id ∷ rest else rest

  unfoldable pub leave_window : Bool → List ℕ → KvMemBlock D → KvMemBlock D
  unfolding leaves
  leave_window force_full ids b =
      if leaves force_full ids b then record b { in_working_set = false } else b

  unfoldable pub over_remap_limit : KvMemStoreConfig D → KvMemBlock D → Bool
  over_remap_limit c b =
      ltb 0 c.immutable_refresh_remaps && leb c.immutable_refresh_remaps b.remap_count

  unfoldable pub over_delta_limit : KvMemStoreConfig D → KvMemBlock D → ℕ → Bool
  over_delta_limit c b delta =
      let limit = c.immutable_refresh_abs_delta_tokens in
      ltb 0 limit
      && (leb limit b.remap_abs_delta || leb (limit - min b.remap_abs_delta limit) delta)

  unfoldable pub baked_out_of_range : KvMemStoreConfig D → KvMemBlock D → Bool
  unfolding ends_after
  baked_out_of_range c b =
      ltb 0 c.immutable_max_baked_position
      && ends_after c.immutable_max_baked_position b.n_tokens b.baked_pos

  -- The remap of one selected block at its new place.
  unfoldable pub plan_remap : KvMemStoreConfig D → Bool → ℕ → ℕ → KvMemBlock D → KvMemRemap
  unfolding over_remap_limit over_delta_limit baked_out_of_range
  plan_remap c force_raw_refresh id window_pos b =
      let cold = not (is_gpu b.tier) || not c.optimize_stage_in in
      let same_position = equals_ℕ b.baked_pos window_pos in
      let delta = abs_diff b.baked_pos (pos window_pos) in
      let limits = over_remap_limit c b || over_delta_limit c b delta || baked_out_of_range c b in
      record {
        block_id = id;
        n_tokens = b.n_tokens;
        from_base = to_int32 b.baked_pos;
        to_base = to_int32 (pos window_pos);
        working_k_resident = not cold;
        skip = same_position && (not c.immutable_source_k || not cold) && not force_raw_refresh;
        raw_refresh =
            (c.immutable_source_k && (cold || not same_position) && (cold || limits))
            || (c.immutable_source_k && force_raw_refresh);
      }

  -- The block after its remap.
  unfoldable pub move_block : KvMemRemap → ℕ → KvMemBlock D → KvMemBlock D
  move_block rm window_pos b =
      if rm.skip
      then record b { in_working_set = true; baked_pos = pos window_pos }
      else if rm.raw_refresh
      then record b {
        in_working_set = true;
        baked_pos = pos window_pos;
        remap_count = 0;
        remap_abs_delta = 0;
      }
      else record b {
        in_working_set = true;
        baked_pos = pos window_pos;
        remap_count = add32 b.remap_count 1;
        remap_abs_delta = add64 b.remap_abs_delta (abs_diff b.baked_pos (pos window_pos));
      }

  -- The counters and the stage-in list at one selected block.
  unfoldable pub count_block : Bool → Bool → ℕ → ℕ → KvMemBlock D → KvMemPlan → KvMemPlan
  count_block force_full was id window_pos b plan =
      let reusable = was && is_gpu b.tier in
      let same_position = equals_ℕ b.baked_pos window_pos in
      record plan {
        stage_in = if b.in_working_set then plan.stage_in else plan.stage_in ++ id ∷ [];
        retained_position_stable =
            if reusable && same_position
            then plan.retained_position_stable + 1
            else plan.retained_position_stable;
        retained_position_moved =
            if reusable && not same_position
            then plan.retained_position_moved + 1
            else plan.retained_position_moved;
        gpu_reused_blocks =
            if reusable && not force_full
            then plan.gpu_reused_blocks + 1
            else plan.gpu_reused_blocks;
      }

  unfoldable pub place_block :
      KvMemStoreConfig D → Bool → List Bool → ℕ → KvMemBlock D → Window D → Result (Window D)
  unfolding plan_remap move_block count_block
  place_block c force_raw_refresh was id b w =
      let rm = plan_remap c force_raw_refresh id w.window_pos b in
      let plan' =
        count_block (not c.optimize_stage_in) (get_or was id false) id w.window_pos b w.plan in
      if rm.skip && rm.raw_refresh
      then throw Error.skip_and_refresh
      else ok (record {
        table = modify w.table id (move_block rm w.window_pos);
        plan = record plan' { remaps = plan'.remaps ++ rm ∷ [] };
        window_pos = add32 w.window_pos b.n_tokens;
      })

  -- One round of the packing loop. A number past the table cannot occur; it is passed over.
  unfoldable pub place_id : KvMemStoreConfig D → Bool → List Bool → ℕ → Window D → Result (Window D)
  unfolding place_block
  place_id c force_raw_refresh was id w = elim (get_elem? w.table id) [
    | none ↦ ok w
    | some b ↦ place_block c force_raw_refresh was id b w
  ]

  unfoldable pub place_blocks :
      KvMemStoreConfig D → Bool → List Bool → List ℕ → Window D → Result (Window D)
  unfolding place_id
  place_blocks c force_raw_refresh was [] w = ok w
  place_blocks c force_raw_refresh was (id ∷ ids) w =
      place_id c force_raw_refresh was id w >>= λ w'. place_blocks c force_raw_refresh was ids w'

  -- The loop's first state: the stage-out pass has run.
  unfoldable pub start_window : KvMemStore D → List ℕ → Window D
  unfolding overlap stage_out_ids leave_window
  start_window s ids =
      let force_full = not s.optimize_stage_in in
      record {
        table = map (leave_window force_full ids) s.blocks;
        plan = record empty_plan {
          stage_out = stage_out_ids force_full ids s.blocks;
          selection_overlap_blocks = overlap ids s.blocks;
        };
        window_pos = 0;
      }

  abbrev pub finish_window : KvMemStore D → Window D → KvMemStore D × KvMemPlan
  finish_window s w =
      (record s { blocks = w.table }, record (w.plan) { total_window_tokens = w.window_pos })

  unfoldable pub set_selection : KvMemStore D → List ℕ → Bool → Result (KvMemStore D × KvMemPlan)
  unfolding normalize start_window place_blocks
  set_selection s selected_ids force_raw_refresh =
      let ids = normalize (block_count s) selected_ids in
      let was = map (λ (b : KvMemBlock D). b.in_working_set) s.blocks in
      place_blocks s.cfg force_raw_refresh was ids (start_window s ids) >>= λ w.
      ok (finish_window s w)

  abbrev pub occupies : KvMemBlock D → Bool
  occupies b = is_nonneg b.gpu_slot && ltb 0 b.n_tokens

  -- The blocks that hold a GPU slot; `none` if one of them is cold or in flight.
  unfoldable pub resident_ids : List (KvMemBlock D) → Option (List ℕ)
  resident_ids [] = some []
  resident_ids (b ∷ bs) =
      let rest = resident_ids bs in
      if occupies b
      then (if not (is_gpu b.tier) || b.in_flight
          then none
          else elim rest [ none ↦ none | some ids ↦ some (b.block_id ∷ ids) ])
      else rest

  -- `none` is the result false, which leaves the store as it was.
  unfoldable pub commit_resident_selection : KvMemStore D → List ℕ → Option (KvMemStore D)
  unfolding resident_ids same_ids
  commit_resident_selection s selected_ids = elim (resident_ids s.blocks) [
    | none ↦ none
    | some ids ↦
        if same_ids ids selected_ids
        then some (record s {
          blocks = map (λ (b : KvMemBlock D). record b { in_working_set = occupies b }) s.blocks;
        })
        else none
  ]
