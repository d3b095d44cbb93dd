-- ===== src/Benchmark.antt =====
-- packages/benchmark/src: the gaming-resistance benchmark.
pub mod Economics
pub mod Mechanisms
pub mod Collusion
pub mod SlowBurn
pub mod Random
