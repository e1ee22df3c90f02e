-- ===== src/Tests.antt =====
-- Runs of the definitions, and the theorems at concrete inputs.
mod Algorithms
mod Entries
mod Archive
mod Resolver
mod Writers
mod Connections
mod Resolvers
mod Headers
mod Problems
mod Installations
mod Updates
mod Framing
mod Caches
mod Descriptors
mod Processes
mod Profiles
