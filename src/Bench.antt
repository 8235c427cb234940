-- ===== src/Bench.antt =====
-- Algorithms of am-kernels/benchmarks/microbench and am-kernels/tests/cpu-tests.
pub mod Sorts
pub mod Sieve
pub mod Queen
pub mod Crc
mod Tests
