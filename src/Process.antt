-- ===== src/Process.antt =====
-- bunsan/process: descriptors, and the programs that are run with them.
pub mod Posix
pub mod Handle
pub mod Context
pub mod Execute
