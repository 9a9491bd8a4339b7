-- ===== src/Algo.antt =====
-- The shared algorithms of nt_algodefs.c, declared in nt_algo.h: comparison and hash functions,
-- primes for table sizes and the integer square root.
pub mod Primes
pub mod Hash
pub mod Compare
pub mod Sqrt
mod Tests
