-- ===== src/Archive.antt =====
-- The archive of problems, bacs/archive.
pub mod Flag
pub mod Storage
pub mod Repository
