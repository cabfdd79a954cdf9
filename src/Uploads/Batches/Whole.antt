-- ===== src/Uploads/Batches/Whole.antt =====
-- A selected folder is uploaded whole: `fileUploadBatch` of frontend/src/pages/FilesPage.tsx against
-- the folders that are read off the paths of the files.
