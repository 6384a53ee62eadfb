-- ===== src/Ping/Protocol.antt =====
-- src/core/ping.rs: `ProtocolPingPong`, pings and pongs as control frames.
use shared_ws.Prelude.{ℕ, ◌-◌, Bool, true, false, Option, none, some, [], ltb, leb, if◌then◌else◌}
use shared_ws.Frame.{WsFrame, ping, pong}
use shared_ws.Ping.{WsPongResult, not_pong, pong_received, reply, PingPong}

pub record ProtocolPingPong : Type 0 where
  pub interval : ℕ
  pub timeout : ℕ
  pub last_ping : Option ℕ
  pub last_pong : Option ℕ

unfoldable pub new : ℕ → ℕ → ProtocolPingPong
new interval timeout = record {
  interval = interval;
  timeout = timeout;
  last_ping = none;
  last_pong = none;
}

unfoldable pub create_ping : ProtocolPingPong → ℕ → Option WsFrame × ProtocolPingPong
create_ping p now = (some (ping []), record p { last_ping = some now })

unfoldable pub handle_inbound : ProtocolPingPong → ℕ → WsFrame → WsPongResult × ProtocolPingPong
handle_inbound p now (pong _) = (
  pong_received (elim p.last_ping [ none ↦ none | some sent ↦ some (now - sent) ]),
  record p { last_pong = some now },
)
handle_inbound p now (ping payload) = (reply (pong payload), p)
handle_inbound p now _ = (not_pong, p)

unfoldable pub is_stale : ProtocolPingPong → ℕ → Bool
is_stale p now = elim p.last_ping [
  | none ↦ false
  | some last_ping ↦
      if leb (now - last_ping) p.timeout
      then false
      else elim p.last_pong [ some last_pong ↦ ltb last_pong last_ping | none ↦ true ]
]

unfoldable pub reset : ProtocolPingPong → ProtocolPingPong
reset p = record p { last_ping = none; last_pong = none }

-- It reads the clock once per ping.
unfoldable pub protocol : PingPong ProtocolPingPong
protocol = record {
  create_ping = λ p now _. create_ping p now;
  handle_inbound = handle_inbound;
  is_stale = is_stale;
  reset = reset;
  interval = λ p. p.interval;
  timeout = λ p. p.timeout;
}
