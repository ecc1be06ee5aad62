-- ===== src/Store.antt =====
-- web/src/features/search/stores/spanSearchStore.ts: the store that the search page's parts share.
-- zustand's `set` and immer's `produce` are parameters: records with the documented laws.
pub mod State
pub mod Filters
pub mod Slices
mod Tests
