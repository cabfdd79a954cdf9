-- ===== src/Uploads.antt =====
-- The upload of a batch of files and folders in frontend/src/pages/FilesPage.tsx.
pub mod Progress
pub mod Workers
pub mod Batches
pub mod Folders
pub mod Queue
