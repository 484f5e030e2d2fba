-- ===== src/Cache.antt =====
-- src/core/cache.py: the client that wraps Redis, with its in-memory fallback.
pub mod Store
pub mod Client
pub mod Failover
pub mod Fallback
pub mod Trace
pub mod Deletion
pub mod Keeps
pub mod Retention
