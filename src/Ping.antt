-- ===== src/Ping.antt =====
-- src/core/ping.rs: the ping strategies of a health-checked connection. A method that reads the
-- clock takes what it reads, in nanoseconds; a `&mut self` method returns the new state.
pub mod Protocol
pub mod ServerDriven
pub mod Application
pub mod Actions
pub mod Answers
pub mod Overdue
pub mod Capacity
pub mod RoundTrip
pub mod ReusedKeys
mod Tests
use shared_ws.Prelude.{ℕ, Bool, Option}
use shared_ws.Frame.{WsFrame}

pub data WsPongResult : Type 0 where
  not_pong invalid_pong : WsPongResult
  pong_received : Option ℕ → WsPongResult
  reply : WsFrame → WsPongResult

-- `WsPingPongStrategy`, over its state `P`. `create_ping` may read the clock twice.
pub record PingPong (P : Type 0) : Type 0 where
  pub create_ping : P → ℕ → ℕ → Option WsFrame × P
  pub handle_inbound : P → ℕ → WsFrame → WsPongResult × P
  pub is_stale : P → ℕ → Bool
  pub reset : P → P
  pub interval : P → ℕ
  pub timeout : P → ℕ
