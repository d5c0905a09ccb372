-- ===== src/Tests.antt =====
-- Concrete inputs: a store with five blocks of up to four tokens, and each theorem at such an input.
-- Doubles are hundredths.
pub mod Cells
pub mod Choice
pub mod Tiers
pub mod Ssd
pub mod Images
pub mod Runs
pub mod Keys
use kvmem_test.Common.{
  ℕ, ◌+◌, ◌*◌, ◌/◌, ◌≤◌, ◌<◌, ◌≡◌, ◌⊎◌, refl, pos, negsuc, Bool, true, false, not, ◌&&◌, ◌||◌, List,
  [], ◌∷◌, map, min, ltb, leb, ◌==◌, length, get_elem?, contains, arith, some, inl, inr, All, ok,
  int32_of_bits,
}
use kvmem_test.Store.Types.{
  DoubleOps, KvTier, KvMemBlock, KvMemStore, KvMemStoreConfig, KvMemMethod, KvMemSelectPolicy,
  KvMemPlan, KvMemKeepSource, block_count, new_store, orig_pos_end, budget_blocks, is_gpu,
}
use kvmem_test.Store.Table.{register_append, truncate_to, block_id_containing}
use kvmem_test.Store.Table.Layout.{IsLaid, geometry}
use kvmem_test.Store.Table.Append.{register_append-IsLaid}
use kvmem_test.Store.Table.Truncate.{truncate_to-IsLaid, descending}
use kvmem_test.Store.Table.Locate.{block_id_containing-IsLaid}
use kvmem_test.Store.Table.History.{
  TableCall, tokens_after, run_table, run_table-IsLaid, run_table-geometry,
}
use kvmem_test.Store.Budget.{
  resolve_kvmem_keep_allocation, resolve_band, keep_allocation, set_runtime_select_budget,
  gpu_low_watermark_tokens, gpu_high_watermark_tokens, prefill_needs_offload,
}
use kvmem_test.Store.Budget.Keep.{
  IsAllocated, resolve_kvmem_keep_allocation-IsAllocated, set_runtime_select_budget-bounds,
}
use kvmem_test.Store.Budget.Accept.{
  set_runtime_select_budget-accepts, resolve_kvmem_keep_allocation-accepts,
}
use kvmem_test.Store.Budget.Watermark.{ScaleLaws, watermarks_ordered, prefill_needs_offload_lem}
use kvmem_test.Store.Select.{pick_topk_ungrouped, pick_prefill_ungrouped, is_quota, keep_forced}
use kvmem_test.Store.Select.Ids.{IsSelection}
use kvmem_test.Store.Select.TopK.{pick_topk_ungrouped-fills}
use kvmem_test.Store.Select.Forced.{pick_topk_ungrouped-forced}
use kvmem_test.Store.Select.Prefill.{pick_prefill_ungrouped-fills, pick_prefill_ungrouped-newest}
use kvmem_test.Store.Select.Optimal.{OrderLaws, attn_of, pick_topk_ungrouped-optimal}
use kvmem_test.Store.Plan.{normalize, set_selection}
use kvmem_test.Store.Plan.Pack.{Packed, set_selection-Packed}
use kvmem_test.Store.Plan.Residency.{works, set_selection-residency}
use kvmem_test.Store.Plan.Drift.{HasDriftBound, set_selection-HasDriftBound}

abbrev pub hundredths : DoubleOps ℕ
hundredths = record {
  zero = 0;
  one = 100;
  add = λ x y. x + y;
  mul = λ x y. x * y;
  gt = λ x y. ltb y x;
  le = λ x y. leb x y;
  ne = λ x y. not (x == y);
  of_ℕ = λ n. n;
  to_u32 = λ x. x / 100;
}

part_le : (n r : ℕ) → r ≤ 100 → n * r / 100 ≤ n
part_le n r h = grind arith

hundredths-ScaleLaws : ScaleLaws hundredths
hundredths-ScaleLaws = record {
  one_pos = refl;
  one_le = refl;
  scale_le = λ n r small low high. part_le n r (ground arith);
}

pub hundredths-OrderLaws : OrderLaws hundredths
hundredths-OrderLaws = record {
  gt_asym = λ a b h. ground arith;
  gt_trans = λ a b c h k. ground arith;
  ne_comm = λ a b. ground arith;
  gt_ne = λ a b h. ground arith;
  eq_ne = λ a b c h. ground arith;
  eq_gt_left = λ a b c h. ground arith;
  eq_gt_right = λ a b c h. ground arith;
}

abbrev pub config : KvMemStoreConfig ℕ
config = record {
  block_tokens = 4;
  select_budget = 12;
  prefill_budget = 0;
  sink_blocks = 1;
  recent_blocks = 1;
  select_method = KvMemMethod.retrieval;
  select_policy = KvMemSelectPolicy.top_k;
  optimize_stage_out = true;
  optimize_stage_in = true;
  immutable_source_k = true;
  immutable_refresh_remaps = 3;
  immutable_refresh_abs_delta_tokens = 64;
  immutable_max_baked_position = 0;
  retrieval_blocks = 0;
  profile_blocks = 0;
  gpu_high_watermark = 90;
  gpu_low_watermark = 70;
  estimated_block_bytes = 0;
}

abbrev pub block : ℕ → ℕ → KvTier → Bool → ℕ → KvMemBlock ℕ
block id n t working score = record {
  block_id = id;
  orig_pos_start = id * 4;
  n_tokens = n;
  tier = t;
  gpu_slot = negsuc 0;
  cpu_slot = negsuc 0;
  nvme_slot = negsuc 0;
  ssd_clean = false;
  dirty_gpu = false;
  in_flight = false;
  baked_pos = pos (id * 4);
  remap_count = 1;
  remap_abs_delta = 8;
  in_working_set = working;
  attn_score = score;
  profile_score = score;
  retrieval_score = score;
}

abbrev pub five_blocks : KvMemStore ℕ
five_blocks = record {
  cfg = config;
  runtime_select_budget = 0;
  blocks =
      block 0 4 KvTier.gpu true 10
      ∷ block 1 4 KvTier.ssd false 30
      ∷ block 2 4 KvTier.gpu true 50
      ∷ block 3 4 KvTier.cpu false 20
      ∷ block 4 2 KvTier.gpu false 40
      ∷ [];
  total_tokens = 18;
  media_ranges = [];
}

pub five_blocks-IsLaid : IsLaid five_blocks
five_blocks-IsLaid = record { positive = omega arith; bounded = omega arith; laid = ground arith }

register_append-IsLaid_example :
    (s' : KvMemStore ℕ) × (register_append hundredths five_blocks 7 ≡ some s')
    × IsLaid s'
    × (s'.total_tokens ≡ 18 + 7)
    × (s'.cfg ≡ config)
register_append-IsLaid_example =
    register_append-IsLaid hundredths five_blocks 7 five_blocks-IsLaid (omega arith)

truncate_to-IsLaid_example :
    IsLaid (truncate_to five_blocks 9).0
    × ((truncate_to five_blocks 9).0.total_tokens ≡ min 18 9)
    × (map (λ d. d.block_id) (truncate_to five_blocks 9).1
        ≡ descending
            (block_count (truncate_to five_blocks 9).0)
            (length (truncate_to five_blocks 9).1))
    × (block_count (truncate_to five_blocks 9).0 + length (truncate_to five_blocks 9).1 ≡ 5)
truncate_to-IsLaid_example = truncate_to-IsLaid five_blocks 9 five_blocks-IsLaid

block_id_containing-IsLaid_example :
    (b : KvMemBlock ℕ) × (block_id_containing five_blocks 17 ≡ int32_of_bits (17 / 4))
    × (get_elem? five_blocks.blocks (17 / 4) ≡ some b)
    × (b.block_id ≡ 17 / 4)
    × (b.orig_pos_start ≤ 17)
    × (17 < orig_pos_end b)
block_id_containing-IsLaid_example =
    block_id_containing-IsLaid five_blocks 17 five_blocks-IsLaid (omega arith)

abbrev history : List TableCall
history = TableCall.appends 10 ∷ TableCall.truncates 6 ∷ TableCall.appends 5 ∷ []

run_table-IsLaid_example :
    (s' : KvMemStore ℕ) × (run_table history hundredths five_blocks ≡ some s')
    × IsLaid s'
    × (s'.total_tokens ≡ tokens_after 18 history)
    × (s'.cfg ≡ config)
run_table-IsLaid_example =
    run_table-IsLaid hundredths history five_blocks five_blocks-IsLaid (ground arith)

run_table-geometry_example :
    (s t : KvMemStore ℕ) × (run_table history hundredths (new_store config) ≡ some s)
    × (run_table (TableCall.appends 11 ∷ []) hundredths (new_store config) ≡ some t)
    × (geometry s.blocks ≡ geometry t.blocks)
unfolding tokens_after
run_table-geometry_example =
    run_table-geometry hundredths config history (TableCall.appends 11 ∷ []) (omega arith)
      (ground arith) (ground arith) refl

resolve_kvmem_keep_allocation-IsAllocated_example : IsAllocated 4 40 (record {
  sink_target_tokens = 8;
  recent_target_tokens = 10;
  sink_blocks = 2;
  recent_blocks = 3;
  sink_effective_tokens = 8;
  recent_effective_tokens = 12;
  sink_source = KvMemKeepSource.blocks;
  recent_source = KvMemKeepSource.tokens;
})
unfolding resolve_kvmem_keep_allocation resolve_band keep_allocation
resolve_kvmem_keep_allocation-IsAllocated_example =
    resolve_kvmem_keep_allocation-IsAllocated 4 40 (pos 2) (negsuc 0) (negsuc 0) (pos 10) refl
