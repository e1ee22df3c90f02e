-- ===== src/Pm.antt =====
-- The package manager, bunsan/pm.
pub mod Entry
pub mod Index
pub mod Snapshot
pub mod Resolver
pub mod MetaTree
pub mod Cache
pub mod Distributor
pub mod Builder
pub mod Extractor
pub mod Repository
