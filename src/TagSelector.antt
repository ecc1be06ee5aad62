-- ===== src/TagSelector.antt =====
-- The sidebar's selector of a tag's values
-- (web/src/features/search/components/TagValuesSelector/TagValuesSelector.tsx), over
-- web/src/components/CheckboxList/CheckboxList.tsx.
pub mod Checkbox
pub mod Change
mod Tests
