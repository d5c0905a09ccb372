-- ===== src/Host.antt =====
-- The store of raw keys and values in host memory, kvmem/src/host/raw_kv_store.cpp: its
-- number format and its block table.
pub mod Half
pub mod Raw
