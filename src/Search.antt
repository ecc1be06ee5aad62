-- ===== src/Search.antt =====
-- The search feature's data: web/src/features/search/types.
pub mod Types
pub mod Scalars
pub mod Statistics
