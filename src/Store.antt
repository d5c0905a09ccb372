-- ===== src/Store.antt =====
-- KvMemStore: the block repository and the working-set selection.
pub mod Types
pub mod Table
pub mod Budget
pub mod Setters
pub mod Select
pub mod Plan
pub mod Semantic
pub mod Media
