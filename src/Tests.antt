-- ===== src/Tests.antt =====
-- Concrete runs of the models of packages/backend and packages/benchmark, and the theorems on these.
pub mod Backend
pub mod Hosts
pub mod Scores
pub mod Progress
pub mod Server
pub mod Metrics
pub mod Attacks
