-- ===== src/Types/Strategy.antt =====
-- The trait `WsReconnectStrategy`, over its state `R`. Delays are numbers of nanoseconds.
use shared_ws.Prelude.{ℕ, Bool}

pub record ReconnectStrategy (R : Type 0) : Type 0 where
  pub next_delay : R → ℕ × R
  pub reset : R → R
  pub should_retry : R → Bool
