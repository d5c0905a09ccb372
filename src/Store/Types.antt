-- ===== src/Store/Types.antt =====
-- The data of kvmem/include/kvmem/kvmem_store.hpp: block metadata, the remap plan, the
-- configuration and the store. `D` is the type of the doubles, a parameter. Identifiers, positions
-- and token counts are plain numbers; `int32_t` and `int64_t` fields are integers. Of the
-- configuration the fields that the store reads are kept.
use kvmem_test.Common.{ℕ, ℤ, negsuc, Bool, List, if◌then◌else◌, ◌==◌, ◌/◌, length, add32}
use kvmem_test.Common.{[], false}

pub data KvTier : Type 0 where
  gpu cpu ssd : KvTier

abbrev pub is_gpu : KvTier → Bool
is_gpu KvTier.gpu = Bool.true
is_gpu KvTier.cpu = Bool.false
is_gpu KvTier.ssd = Bool.false

pub data KvMemMethod : Type 0 where
  retrieval h2o recency : KvMemMethod

pub data KvMemSelectPolicy : Type 0 where
  top_k quota : KvMemSelectPolicy

pub data KvMemKeepSource : Type 0 where
  auto tokens blocks : KvMemKeepSource

-- The operations of `double` that the source uses.
pub record DoubleOps (D : Type 0) : Type 0 where
  pub zero : D
  pub one : D
  pub add : D → D → D
  pub mul : D → D → D
  pub gt : D → D → Bool
  pub le : D → D → Bool
  pub ne : D → D → Bool
  pub of_ℕ : ℕ → D
  pub to_u32 : D → ℕ

pub record KvMemBlock (D : Type 0) : Type 0 where
  pub block_id : ℕ
  pub orig_pos_start : ℕ
  pub n_tokens : ℕ
  pub tier : KvTier
  pub gpu_slot : ℤ
  pub cpu_slot : ℤ
  pub nvme_slot : ℤ
  pub ssd_clean : Bool
  pub dirty_gpu : Bool
  pub in_flight : Bool
  pub baked_pos : ℤ
  pub remap_count : ℕ
  pub remap_abs_delta : ℕ
  pub in_working_set : Bool
  pub attn_score : D
  pub profile_score : D
  pub retrieval_score : D

-- The initial values of the members.
unfoldable pub default_block : {D : Type 0} → DoubleOps D → KvMemBlock D
default_block o = record {
  block_id = 0;
  orig_pos_start = 0;
  n_tokens = 0;
  tier = KvTier.gpu;
  gpu_slot = negsuc 0;
  cpu_slot = negsuc 0;
  nvme_slot = negsuc 0;
  ssd_clean = false;
  dirty_gpu = false;
  in_flight = false;
  baked_pos = negsuc 0;
  remap_count = 0;
  remap_abs_delta = 0;
  in_working_set = false;
  attn_score = o.zero;
  profile_score = o.zero;
  retrieval_score = o.zero;
}

abbrev pub orig_pos_end : {D : Type 0} → KvMemBlock D → ℕ
orig_pos_end b = add32 b.orig_pos_start b.n_tokens

pub record KvMemRemap : Type 0 where
  pub block_id : ℕ
  pub n_tokens : ℕ
  pub from_base : ℤ
  pub to_base : ℤ
  pub working_k_resident : Bool
  pub skip : Bool
  pub raw_refresh : Bool

pub record KvMemDroppedBlock : Type 0 where
  pub block_id : ℕ
  pub tier : KvTier
  pub gpu_slot : ℤ
  pub cpu_slot : ℤ
  pub nvme_slot : ℤ

pub record KvMemPlan : Type 0 where
  pub stage_in : List ℕ
  pub stage_out : List ℕ
  pub remaps : List KvMemRemap
  pub total_window_tokens : ℕ
  pub selection_overlap_blocks : ℕ
  pub gpu_reused_blocks : ℕ
  pub retained_position_stable : ℕ
  pub retained_position_moved : ℕ

abbrev pub empty_plan : KvMemPlan
empty_plan = record {
  stage_in = [];
  stage_out = [];
  remaps = [];
  total_window_tokens = 0;
  selection_overlap_blocks = 0;
  gpu_reused_blocks = 0;
  retained_position_stable = 0;
  retained_position_moved = 0;
}

pub record KvMemKeepAllocation : Type 0 where
  pub sink_target_tokens : ℕ
  pub recent_target_tokens : ℕ
  pub sink_blocks : ℕ
  pub recent_blocks : ℕ
  pub sink_effective_tokens : ℕ
  pub recent_effective_tokens : ℕ
  pub sink_source : KvMemKeepSource
  pub recent_source : KvMemKeepSource

pub record KvMemStoreConfig (D : Type 0) : Type 0 where
  pub block_tokens : ℕ
  pub select_budget : ℕ
  pub prefill_budget : ℕ
  pub sink_blocks : ℕ
  pub recent_blocks : ℕ
  pub select_method : KvMemMethod
  pub select_policy : KvMemSelectPolicy
  pub optimize_stage_out : Bool
  pub optimize_stage_in : Bool
  pub immutable_source_k : Bool
  pub immutable_refresh_remaps : ℕ
  pub immutable_refresh_abs_delta_tokens : ℕ
  pub immutable_max_baked_position : ℕ
  pub retrieval_blocks : ℕ
  pub profile_blocks : ℕ
  pub gpu_high_watermark : D
  pub gpu_low_watermark : D
  pub estimated_block_bytes : ℕ

pub record KvMemStore (D : Type 0) : Type 0 where
  pub cfg : KvMemStoreConfig D
  pub open cfg use *
  pub runtime_select_budget : ℕ
  pub blocks : List (KvMemBlock D)
  pub total_tokens : ℕ
  pub media_ranges : List (ℕ × ℕ)

module _ {D : Type 0} where
  unfoldable pub new_store : KvMemStoreConfig D → KvMemStore D
  new_store c = record {
    cfg = c;
    runtime_select_budget = 0;
    blocks = [];
    total_tokens = 0;
    media_ranges = [];
  }

  abbrev pub block_count : KvMemStore D → ℕ
  block_count s = length s.blocks

  abbrev pub select_budget_tokens : KvMemStore D → ℕ
  select_budget_tokens s =
      if s.runtime_select_budget == 0 then s.select_budget else s.runtime_select_budget

  abbrev pub budget_blocks : KvMemStore D → ℕ
  budget_blocks s = select_budget_tokens s / s.block_tokens

  abbrev pub prefill_budget_blocks : KvMemStore D → ℕ
  prefill_budget_blocks s =
      (if s.prefill_budget == 0 then s.select_budget else s.prefill_budget) / s.block_tokens

  abbrev pub set_media_ranges : KvMemStore D → List (ℕ × ℕ) → KvMemStore D
  set_media_ranges s ranges = record s { media_ranges = ranges }
