-- ===== src/Mock.antt =====
-- frontend/dev/mockApi.ts: the server in memory that the front end is developed against.
pub mod Server
pub mod FilePaths
pub mod Canonical
pub mod Files
