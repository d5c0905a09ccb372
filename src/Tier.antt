-- ===== src/Tier.antt =====
-- The lower tiers of block storage.
pub mod Pinned
pub mod Nvme
