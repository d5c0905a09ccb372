-- ===== src/Adapter.antt =====
-- The adapter to llama.cpp, src/adapter: where the rows of a batch and the GPU slots of the blocks
-- meet the cells of the cache.
pub mod Slots
pub mod Batch
pub mod Turn
