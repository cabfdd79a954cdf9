-- ===== src/Browser.antt =====
-- The list of the entries of a folder in frontend/src/pages/FilesPage.tsx.
pub mod Sorting
pub mod Selection
pub mod Drops
pub mod Actions
