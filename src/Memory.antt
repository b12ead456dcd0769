-- ===== src/Memory.antt =====
-- The programs of Code/Mastering Memory.
pub mod Remap
pub mod Cpremap
pub mod Trim
pub mod Primes
