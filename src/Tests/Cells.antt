-- ===== src/Tests/Cells.antt =====
-- Batches and GPU slots of the adapter on concrete inputs.
use kvmem_test.Common.{
  List, ◌/◌, ok, contains, ℕ, zero, suc, ◌+◌, ◌*◌, ◌<◌, ◌≡◌, ◌↔◌, refl, ap, ◌∙◌, ℤ, pos, negsuc,
  true, false, Option, none, some, [], ◌∷◌, length, get_elem?, arith,
}
use kvmem_test.Store.Types.{KvMemBlock, KvMemStore, KvTier}
use kvmem_test.Store.Table.Layout.{IsLaid}
use kvmem_test.Store.Table.{block_id_containing}
use kvmem_test.Adapter.Batch.{UbatchRows, SlotInfo, row_of, cell_of, kvmem_fill_slot_info}
use kvmem_test.Adapter.Batch.Apart.{IsPooled, IsPlaced, kvmem_fill_slot_info-apart}
use kvmem_test.Adapter.Slots.{reset_slots, slot_for_orig_pos, resident_tokens}
use kvmem_test.Adapter.Slots.Draft.{slot_for_orig_pos-cell_of}
use kvmem_test.Adapter.Turn.{
  TurnState, set_query_span, query_contains, retrieval_mandatory, query_replay_fits,
}
use kvmem_test.Adapter.Turn.Replay.{query_replay_fits-selected}
use kvmem_test.Store.Media.{pick_topk_blocks}
use kvmem_test.Tests.{hundredths, five_blocks, five_blocks-IsLaid, config, block}

-- Block 0 in slot 2, block 1 in slot 0, block 2 in host memory.
abbrev placed : KvMemStore ℕ
placed = record {
  cfg = config;
  runtime_select_budget = 0;
  blocks =
      record (block 0 4 KvTier.gpu true 10) { gpu_slot = pos 2 }
      ∷ record (block 1 4 KvTier.gpu true 30) { gpu_slot = pos 0 }
      ∷ block 2 1 KvTier.cpu false 50
      ∷ [];
  total_tokens = 9;
  media_ranges = [];
}

placed-IsLaid : IsLaid placed
placed-IsLaid = record { positive = omega arith; bounded = omega arith; laid = ground arith }

abbrev slot_number : ℕ → Option ℤ
slot_number zero = some (pos 2)
slot_number (suc zero) = some (pos 0)
slot_number (suc (suc zero)) = some (negsuc 0)
slot_number (suc (suc (suc n))) = none

slot_number-found :
    (id : ℕ) (b : KvMemBlock ℕ)
    → get_elem? placed.blocks id ≡ some b
    → slot_number id ≡ some b.gpu_slot
slot_number-found zero b h = cc
slot_number-found (suc zero) b h = cc
slot_number-found (suc (suc zero)) b h = cc
slot_number-found (suc (suc (suc n))) b h = cc

slot_number-below : (id slot : ℕ) → slot_number id ≡ some (pos slot) → slot < 3
slot_number-below zero slot h = ground arith
slot_number-below (suc zero) slot h = ground arith
slot_number-below (suc (suc zero)) slot h = cc
slot_number-below (suc (suc (suc n))) slot h = cc

slot_number-apart :
    (id id' slot : ℕ)
    → slot_number id ≡ some (pos slot)
    → slot_number id' ≡ some (pos slot)
    → id ≡ id'
slot_number-apart zero zero slot h k = refl
slot_number-apart zero (suc zero) slot h k = absurd (ground arith)
slot_number-apart (suc zero) zero slot h k = absurd (ground arith)
slot_number-apart (suc zero) (suc zero) slot h k = refl
slot_number-apart (suc (suc zero)) id' slot h k = cc
slot_number-apart (suc (suc (suc n))) id' slot h k = cc
slot_number-apart id (suc (suc zero)) slot h k = cc
slot_number-apart id (suc (suc (suc n))) slot h k = cc

placed-IsPooled : IsPooled placed 3
placed-IsPooled = record {
  in_pool = λ id slot b e on. slot_number-below id slot (slot_number-found id b e ∙ ap some on);
  apart = λ id id' slot b c e e' on on'.
      slot_number-apart id id' slot (slot_number-found id b e ∙ ap some on)
        (slot_number-found id' c e' ∙ ap some on');
}

abbrev rows : ℕ → ℤ
rows i = pos (i + 3)

abbrev batch : UbatchRows
batch = record { n_tokens = 2; positions = some rows; logical_pos = none; n_seq_id = none }

batch-IsPlaced : (k : ℕ) → k < 2 → IsPlaced placed batch rows k
batch-IsPlaced zero h = record {
  token = 3;
  slot = 2;
  block = record (block 0 4 KvTier.gpu true 10) { gpu_slot = pos 2 };
  unshared = refl;
  row = refl;
  within = omega arith;
  small = omega arith;
  found = refl;
  on_gpu = refl;
}
batch-IsPlaced (suc zero) h = record {
  token = 4;
  slot = 0;
  block = record (block 1 4 KvTier.gpu true 30) { gpu_slot = pos 0 };
  unshared = refl;
  row = refl;
  within = omega arith;
  small = omega arith;
  found = refl;
  on_gpu = refl;
}
batch-IsPlaced (suc (suc k)) h = absurd (omega arith)

-- The last token of slot 2 and the first of slot 0.
batch_cells :
    kvmem_fill_slot_info placed 4 12 batch
    ≡ some (record { s0 = 0; s1 = 0; strm = 0; idxs = 11 ∷ 0 ∷ [] })
unfolding kvmem_fill_slot_info block_id_containing
batch_cells = refl

-- Past the table the next slot is the lowest free one.
next_place : slot_for_orig_pos placed (reset_slots 2) 4 (pos 13) ≡ some (pos 0, 1)
unfolding slot_for_orig_pos reset_slots block_id_containing
next_place = refl

placed_resident : resident_tokens placed.blocks ≡ 8
unfolding resident_tokens
placed_resident = refl

kvmem_fill_slot_info-apart_example :
    (info : SlotInfo) × (cell : ℕ) × (cell' : ℕ) × (kvmem_fill_slot_info placed 4 12 batch
      ≡ some info)
    × (length info.idxs ≡ 2)
    × (get_elem? info.idxs 0 ≡ some cell)
    × (get_elem? info.idxs 1 ≡ some cell')
    × (cell < 12)
    × (cell' < 12)
    × ((cell ≡ cell') ↔ (row_of batch rows 0 ≡ row_of batch rows 1))
kvmem_fill_slot_info-apart_example =
    kvmem_fill_slot_info-apart placed 3 12 batch rows placed-IsLaid placed-IsPooled (omega arith)
      (omega arith) refl batch-IsPlaced 0 1 (omega arith) (omega arith)

slot_for_orig_pos-cell_of_example :
    (off : ℕ) × (slot_for_orig_pos placed (pos 1 ∷ []) 4 (pos 6) ≡ some (pos 0, off))
    × (off < 4)
    × (cell_of placed 4 12 (pos 6) ≡ some (0 * 4 + off))
slot_for_orig_pos-cell_of_example =
    slot_for_orig_pos-cell_of placed (pos 1 ∷ []) 12 6 0
      (record (block 1 4 KvTier.gpu true 30) { gpu_slot = pos 0 }) placed-IsLaid (omega arith)
      (omega arith) refl refl (omega arith) (omega arith)

abbrev turn : TurnState
turn = record {
  explicit_spans = true;
  query_frozen = false;
  query_begin = negsuc 0;
  query_end = negsuc 0;
  force_pos = negsuc 0;
  query = [];
  mandatory = [];
}

-- Rows 13 to 17 need blocks 3 and 4, and with the sink these are the three blocks of the budget.
needed_blocks : retrieval_mandatory (set_query_span turn (pos 13) (pos 18)) five_blocks ≡ 3 ∷ 4 ∷ []
unfolding retrieval_mandatory set_query_span
needed_blocks = refl

row_in_query : query_contains (set_query_span turn (pos 13) (pos 18)) (pos 17) ≡ true
unfolding query_contains set_query_span
row_in_query = refl

replay_fits : query_replay_fits five_blocks 13 18 ≡ true
unfolding query_replay_fits
replay_fits = refl

-- A query that starts a block earlier needs four blocks.
earlier_replay : query_replay_fits five_blocks 11 18 ≡ false
unfolding query_replay_fits
earlier_replay = refl

query_replay_fits-selected_example :
    (ids : List ℕ) × (pick_topk_blocks hundredths five_blocks
        (retrieval_mandatory (set_query_span turn (pos 13) (pos 18)) five_blocks)
      ≡ ok ids)
    × (contains (17 / 4) ids ≡ true)
query_replay_fits-selected_example =
    query_replay_fits-selected hundredths turn five_blocks 13 0 17 five_blocks-IsLaid refl refl
      replay_fits (omega arith) (omega arith)
