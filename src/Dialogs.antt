-- ===== src/Dialogs.antt =====
-- The dialogs of frontend/src/components/FileDialogs.tsx.
pub mod Duplicate
pub mod Editor
pub mod Find
pub mod PathAction
