-- ===== src/Server.antt =====
-- packages/backend/src/server.ts: the HTTP server over the node, the index and the cache.
pub mod Io
pub mod Runs
pub mod Gate
pub mod Contracts
pub mod Timelock
pub mod Bootstrap
pub mod Replies
pub mod Completions
pub mod Routes
pub mod Discover
