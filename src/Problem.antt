-- ===== src/Problem.antt =====
-- bacs/problem: the tests of a problem, and how a problem is read.
pub mod ListStorage
pub mod Matcher
pub mod Simple0
