-- ===== src/Checked.antt =====
-- src/ws/managed.rs: `run_health_checked_managed_ws_loop`, the managed loop with a ping strategy and
-- a health monitor. Its code repeats that of `run_managed_ws_loop`; what it repeats unchanged over
-- several lines (the disconnect and the opening of a connection) is that loop's definitions here.
pub mod Session
pub mod Loop
pub mod PlainRound
pub mod Plain
pub mod Rounds
pub mod Counts
pub mod Connections
mod Tests
