-- ===== src/Lib.antt =====
-- KVMem keeps the attention keys and values of a long context in blocks that live on the GPU, in
-- host memory or on an SSD, and chooses for each step the blocks that attention reads. This library
-- models the host logic of the block store and proves what makes it correct.
--
-- The store (kvmem/include/kvmem/kvmem_store.hpp, kvmem/src/host/kvmem_store.cpp) holds the block
-- table. The caller appends tokens and truncates; a selector turns scores and a budget into block
-- numbers; `set_selection` turns these into a plan: the blocks to stage out and in, and for each
-- selected block the move of its keys to its place in the window. The executor
-- (kvmem/src/host/kvmem_runtime.cpp) carries the plan out and reports tiers and slots back through
-- the setters. A block that leaves the GPU goes to a slot of the host-memory tier
-- (kvmem/include/kvmem/pinned_kv_tier.hpp), which may evict another block to the SSD tier
-- (kvmem/include/kvmem/nvme_kv_tier.hpp).
--
-- Files:
--   Common            arithmetic of fixed width, tests, lists, exceptions as values
--   Store/Types       the structs of kvmem_store.hpp
--   Store/Table       `register_append`, `truncate_to`, `block_id_containing`
--   Store/Budget      `resolve_kvmem_keep_allocation`, `set_runtime_select_budget`, the watermarks
--   Store/Setters     the metadata updates
--   Store/Select      `pick_topk_ungrouped` and `pick_prefill_ungrouped`
--   Store/Semantic    `pick_semantic_groups`
--   Store/Media       `constrain_media`, `pick_topk_blocks`, `pick_prefill_pressure_blocks`
--   Store/Plan        `set_selection` and `commit_resident_selection`
--   Tier/Pinned       the slot pool of the host-memory tier, pinned_kv_tier.hpp
--   Tier/Nvme         the slot pool of the SSD tier and its reads and writes, nvme_kv_tier.hpp, and
--                     below it the batches of spans (Spans)
--   Runtime           the executor's state and, below it, `stage_out` (StageOut), `stage_in`
--                     (StageIn), the constructor (Start) and the other methods (Cadence)
--   Host/Half         `f32_to_f16` and `f16_to_f32` of kvmem/src/host/raw_kv_store.cpp
--   Host/Raw          the block table of raw_kv_store.cpp and its checkpoint of mean keys; below it
--                     the sums of keys and the copies of rows (Bytes), the SSD tier under the table
--                     (Io), the flushes (Flush), the worker thread (Thread), the writes (Write, Rows,
--                     Halves), the copies out and the accounting (Read), and truncation (Trim)
--   Adapter           the adapter src/adapter: the cells of a batch (Batch, llama-kvmem-batch.cpp), and
--                     of llama-memory-kvmem.cpp the GPU slots (Slots) and the queries of a turn (Turn)
--   Tests             concrete inputs
-- The folder below each of these files holds its proofs.
--
-- Conventions. The members of the class are the fields of `KvMemStore`, and each method is a
-- function of the same name that returns the new store. Unsigned integers are natural numbers with
-- the wrap-around written out where the source can wrap; `int32_t` and `int64_t` are integers, and
-- casts to `int32_t` keep the low 32 bits. A throw is `Error` in `Result`. `double` and its
-- operations are a parameter (`DoubleOps`); the theorems that depend on their order or scale take
-- the laws they need (`OrderLaws`, `ScaleLaws`). The loop of `register_append` runs on fuel, one
-- more than the tokens that remain, and the theorem shows that this is enough: each round takes a
-- token at least. A zero `block_tokens` makes that loop of the source run for ever; in the model
-- the fuel runs out. In the tier the two hash maps are association lists, and the doubles of the
-- heat, with `exp2`, are the parameter `HeatOps`. The SSD tier's file is the parameter `FileOps`;
-- that bytes written are read back, and that a write leaves the other bytes alone, are the laws
-- `FileLaws`. The executor's backend is the parameter `KvMemBackend`, and the reads that it starts
-- ahead run one after the other in the order in which they are started. A throw gives no state: what
-- it leaves half done is not described.
--
-- The raw store's members are `RawKvStore`, the block table, inside `RawKvIo`, which adds the SSD
-- tier, the queue and the counters. Its worker thread is `io_turn`, one round of the loop of
-- `io_loop`: a call that waits for the thread runs a round, and a caller of the model may run one
-- between any two calls. The loop over the blocks that a write covers runs on as much fuel as there
-- are tokens, since a round takes a token at least. Floats of the raw store are the parameters
-- `FloatOps` and `FloatArith`. The file's law for batches is `AppendLaw`: a write of bytes and more
-- bytes is two writes.
--
-- Not modelled: the overlay of a read-only SSD arena, its direct input and output, the page cache and
-- preallocation; the rest of the adapter to llama.cpp, the CUDA kernels and the tools, which call
-- libraries outside the repository. Trace output, locks and clocks are left out everywhere.

pub mod Common
pub mod Store
pub mod Tier
pub mod Runtime
pub mod Host
pub mod Adapter
pub mod Tests
