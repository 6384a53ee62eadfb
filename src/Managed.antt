-- ===== src/Managed.antt =====
-- src/ws/managed.rs: the managed client loop. `Io` has what it writes to the socket, `Session` the
-- body of the `select!` loop of one connection, `Loop` the connection lifecycle round it,
-- `Handle` the handle of the spawned loop.
pub mod Io
pub mod Session
pub mod Loop
pub mod Cases
pub mod Status
pub mod Persistence
pub mod GivesUp
pub mod Deferral
pub mod Reconnects
pub mod Pending
pub mod Writes
pub mod Handle
pub mod Shutdown
pub mod Expected
pub mod Fixtures
mod Tests
