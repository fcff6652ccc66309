-- ===== src/Tests.antt =====
-- Small states of the program, and the theorems at work on them.
pub mod Memory
pub mod Paged
pub mod Scheduled
pub mod Grown
pub mod Whole
pub mod Clock
pub mod Booted
pub mod Lived
