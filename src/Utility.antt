-- ===== src/Utility.antt =====
-- Helpers around programs, bunsan/utility.
pub mod CustomResolver
