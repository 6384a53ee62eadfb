-- ===== src/Ping/ServerDriven.antt =====
-- src/core/ping.rs: `ServerDrivenProtocolPingPong`, which answers pings and sends none.
use shared_ws.Prelude.{ℕ, false, none}
use shared_ws.Frame.{WsFrame, ping, pong}
use shared_ws.Ping.{WsPongResult, not_pong, pong_received, reply, PingPong}

pub record ServerDrivenProtocolPingPong : Type 0 where
  pub check_interval : ℕ

abbrev pub answer : WsFrame → WsPongResult
answer (ping payload) = reply (pong payload)
answer (pong _) = pong_received none
answer _ = not_pong

unfoldable pub server_driven : PingPong ServerDrivenProtocolPingPong
server_driven = record {
  create_ping = λ p _ _. (none, p);
  handle_inbound = λ p _ message. (answer message, p);
  is_stale = λ _ _. false;
  reset = λ p. p;
  interval = λ p. p.check_interval;
  timeout = λ p. p.check_interval;
}
