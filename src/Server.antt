-- ===== src/Server.antt =====
-- src/ws/server: the managed server: its configuration, its lifecycle, what it runs on one connection,
-- and its handle.
pub mod Config
pub mod Lifecycle
pub mod Backoff
pub mod Retries
pub mod Clearing
pub mod Drained
pub mod Endings
pub mod Budget
pub mod Stopping
pub mod Batch
pub mod Connection
pub mod Handle
pub mod System
mod Tests
