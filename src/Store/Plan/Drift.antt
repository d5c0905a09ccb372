-- ===== src/Store/Plan/Drift.antt =====
-- The bounds on the reuse of rotated keys in immutable mode: a block whose keys were rotated too
-- often or too far is made anew from its source keys.
use kvmem_test.Common.{
  ℕ, zero, suc, ◌-◌, ◌≤◌, ◌<◌, ◌≡◌, sym, pos, Bool, true, false, not, ◌&&◌, ◌||◌, List, [], ◌∷◌,
  map, min, ltb, leb, get_elem?, modify, some, abs_diff, arith, Option-cases, Bool-cases, inl, inr,
  All, ok, u32_mod, u64_mod, add32, add64,
}
use kvmem_test.Store.Types.{KvMemBlock, KvMemPlan, KvMemStore, KvMemStoreConfig, block_count}
use kvmem_test.Store.Plan.{
  Window, normalize, plan_remap, move_block, leaves, leave_window, set_selection, start_window,
  over_remap_limit, over_delta_limit,
}
use kvmem_test.Store.Plan.Run.{run_block, run_ids, run_ids-some, run_ids-none, set_selection-run}

All-get {ℓ κ} :
    {A : Type ℓ} (P : A → Type κ) (xs : List A) (i : ℕ) (x : A)
    → get_elem? xs i ≡ some x
    → All P xs
    → P x
All-get P [] i x e v = cc
All-get P (y ∷ xs) zero x e (p, v) = let same : y ≡ x = cc in rw (sym same) p
All-get P (y ∷ xs) (suc i) x e (p, v) = All-get P xs i x e v

All-modify {ℓ κ} :
    {A : Type ℓ} (P : A → Type κ) (xs : List A) (i : ℕ) (f : A → A) (x : A)
    → get_elem? xs i ≡ some x
    → P (f x)
    → All P xs
    → All P (modify xs i f)
All-modify P [] i f x e q v = tt
All-modify P (y ∷ xs) zero f x e q (p, v) = let same : y ≡ x = cc in (rw same q, v)
All-modify P (y ∷ xs) (suc i) f x e q (p, v) = (p, All-modify P xs i f x e q v)

count_within :
    (n limit : ℕ)
    → 0 < limit
    → limit < u32_mod
    → (ltb 0 limit && leb limit n) ≡ false
    → add32 n 1 ≤ limit
count_within n limit lo hi h = ground arith

delta_within :
    (n limit delta : ℕ)
    → 0 < limit
    → limit < u64_mod
    → (ltb 0 limit && (leb limit n || leb (limit - min n limit) delta)) ≡ false
    → add64 n delta < limit
delta_within n limit delta lo hi h = ground arith

module _ {D : Type 0} where
  -- The keys of a block have been rotated at most as often as configured, and less far.
  abbrev pub HasDriftBound : KvMemStoreConfig D → KvMemBlock D → Type 0
  HasDriftBound c b =
      (b.remap_count ≤ c.immutable_refresh_remaps)
      × (b.remap_abs_delta < c.immutable_refresh_abs_delta_tokens)

  module _ (c : KvMemStoreConfig D) (force : Bool) where
    -- A remap that rotates keys again is within both limits.
    rotate_limits :
        (id p : ℕ) (b : KvMemBlock D)
        → c.immutable_source_k ≡ true
        → (plan_remap c force id p b).skip ≡ false
        → (plan_remap c force id p b).raw_refresh ≡ false
        → (over_remap_limit c b ≡ false)
          × (over_delta_limit c b (abs_diff b.baked_pos (pos p)) ≡ false)
    unfolding plan_remap
    rotate_limits id p b imm skip raw = ground arith

    move_block-HasDriftBound :
        (id p : ℕ) (b : KvMemBlock D)
        → c.immutable_source_k ≡ true
        → 0 < c.immutable_refresh_remaps
        → c.immutable_refresh_remaps < u32_mod
        → 0 < c.immutable_refresh_abs_delta_tokens
        → c.immutable_refresh_abs_delta_tokens < u64_mod
        → HasDriftBound c b
        → HasDriftBound c (move_block (plan_remap c force id p b) p b)
    unfolding move_block over_remap_limit over_delta_limit
    move_block-HasDriftBound id p b imm lo hi lo' hi' (count, delta) =
        elim (Bool-cases ((plan_remap c force id p b).skip)) [
          | inl e ↦ rw e (count, delta)
          | inr e ↦ elim (Bool-cases ((plan_remap c force id p b).raw_refresh)) [
            | inl k ↦ rw (e, k) (omega arith, omega arith)
            | inr k ↦
                let (n, d) = rotate_limits id p b imm e k in
                rw (e, k)
                  (
                    count_within b.remap_count c.immutable_refresh_remaps lo hi n,
                    delta_within b.remap_abs_delta c.immutable_refresh_abs_delta_tokens _ lo' hi' d,
                  )
          ]
        ]

    run_ids-HasDriftBound :
        (was : List Bool) (ids : List ℕ) (w : Window D)
        → c.immutable_source_k ≡ true
        → 0 < c.immutable_refresh_remaps
        → c.immutable_refresh_remaps < u32_mod
        → 0 < c.immutable_refresh_abs_delta_tokens
        → c.immutable_refresh_abs_delta_tokens < u64_mod
        → All (HasDriftBound c) w.table
        → All (HasDriftBound c) (run_ids c force was ids w).table
    unfolding run_ids
    run_ids-HasDriftBound was [] w imm lo hi lo' hi' v = v
    run_ids-HasDriftBound was (id ∷ ids) w imm lo hi lo' hi' v =
        elim (Option-cases (get_elem? w.table id)) [
          | inl e ↦
              rw (run_ids-none c force was id ids w e)
                (run_ids-HasDriftBound was ids w imm lo hi lo' hi' v)
          | inr (b, e) ↦
              let at = All-get (HasDriftBound c) w.table id b e v in
              let moved = move_block-HasDriftBound id w.window_pos b imm lo hi lo' hi' at in
              rw (run_ids-some c force was id ids b w e) (
                run_ids-HasDriftBound was ids (run_block c force was id b w) imm lo hi lo' hi'
                  (All-modify (HasDriftBound c) w.table id _ b e moved v))
        ]

  map_leave-HasDriftBound :
      (c : KvMemStoreConfig D) (full : Bool) (ids : List ℕ) (bs : List (KvMemBlock D))
      → All (HasDriftBound c) bs
      → All (HasDriftBound c) (map (leave_window full ids) bs)
  unfolding leave_window
  map_leave-HasDriftBound c full ids [] v = tt
  map_leave-HasDriftBound c full ids (b ∷ bs) (h, v) =
      let rest = map_leave-HasDriftBound c full ids bs v in
      elim (Bool-cases (leaves full ids b)) [ inl e ↦ rw e (h, rest) | inr e ↦ rw e (h, rest) ]

  -- With immutable source keys and both refresh limits set (and within their widths),
  -- `set_selection` returns, and keeps every block within the limits: at most
  -- `immutable_refresh_remaps` rotations since its keys were last made from the source, over a
  -- distance below `immutable_refresh_abs_delta_tokens`.
  pub set_selection-HasDriftBound :
      (s : KvMemStore D) (selected : List ℕ) (force : Bool)
      → s.immutable_source_k ≡ true
      → 0 < s.immutable_refresh_remaps
      → s.immutable_refresh_remaps < u32_mod
      → 0 < s.immutable_refresh_abs_delta_tokens
      → s.immutable_refresh_abs_delta_tokens < u64_mod
      → All (HasDriftBound s.cfg) s.blocks
      → (s' : KvMemStore D) × (plan : KvMemPlan) × (set_selection s selected force ≡ ok (s', plan))
        × All (HasDriftBound s'.cfg) s'.blocks
  unfolding start_window
  set_selection-HasDriftBound s selected force imm lo hi lo' hi' v =
      let ids = normalize (block_count s) selected in
      (
        _,
        _,
        set_selection-run s selected force,
        run_ids-HasDriftBound s.cfg force _ ids (start_window s ids) imm lo hi lo' hi'
            (map_leave-HasDriftBound s.cfg (not s.optimize_stage_in) ids s.blocks v),
      )
