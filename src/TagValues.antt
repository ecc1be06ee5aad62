-- ===== src/TagValues.antt =====
-- web/src/features/search/api/tagValues.ts, and the options of the value selector
-- (web/src/features/search/components/FilterBuilder/AutoCompleteValueSelector.tsx).
pub mod Merge
pub mod Sorted
pub mod Options
mod Tests
