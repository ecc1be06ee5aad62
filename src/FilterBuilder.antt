-- ===== src/FilterBuilder.antt =====
-- web/src/features/search/components/FilterBuilder/FilterBuilder.tsx: the dialog that makes and
-- edits a filter.
pub mod Value
pub mod Form
pub mod Submit
pub mod Edit
mod Tests
