-- ===== src/Keepalive/Tests.antt =====
-- A ping and its answer on small inputs.
use Prim.Native.String.{String}
use shared_ws.Prelude.{ℕ, ◌+◌, ◌≡◌, refl, false, none, some, [], ◌∷◌, ◌++◌}
use shared_ws.Types.Basic.{ok, WebSocketError}
use shared_ws.Frame.{WsFrame, ping}
use shared_ws.Managed.Io.{Sink}
use shared_ws.Ping.Protocol.{ProtocolPingPong, new, create_ping}
use shared_ws.Transport.{CloseCodes, frame_to_msg, msg_to_frame, poll_next}
use shared_ws.Transport.Client.{client_next}
use shared_ws.Server.Connection.{
  WsServerConnectionContext, EndpointFactory, connected, Poll, Connection, open_at, no_action,
  run_connection, greet, settle, tell, after_event, apply_action, run_connection_loop, first_ready,
}
use shared_ws.Keepalive.{Completes, ping_round}

abbrev codes : CloseCodes ℕ
codes = record { number = λ n. n; from_number = λ n. n }

abbrev quiet : EndpointFactory ℕ ℕ ℕ
quiet = record { create_endpoint = λ ctx. 0; on_event = λ n event. (ok no_action, n + 1) }

abbrev display : WebSocketError → String
display e = "error"

abbrev takes_all : Sink
takes_all written f = none

abbrev ctx : WsServerConnectionContext ℕ
ctx = record { connection_id = 0; peer_addr = 1; local_addr = 2 }

abbrev greeted : Connection ℕ ℕ ℕ
greeted = record {
  handler = 1;
  told = connected ctx ∷ [];
  writer = record { sink = takes_all; written = [] };
  socket_closed = false;
}

abbrev pinged : Poll ℕ
pinged = record {
  shutdown = false;
  incoming = some (client_next codes (some (ok (frame_to_msg codes {R = String} (ping [])))));
  commands = none;
  tick_due = false;
}

abbrev client : ProtocolPingPong
client = new 30000000000 10000000000

ping_round_example :
    (answer : WsFrame) × (c' : Connection ℕ ℕ ℕ) × (run_connection quiet display ctx
        (some takes_all)
        ([] ++ pinged ∷ [])
      ≡ open_at c')
    × (c'.told ≡ connected ctx ∷ [])
    × (c'.writer.written ≡ [] ++ answer ∷ [])
    × (poll_next codes (some (ok (frame_to_msg codes {R = String} answer))) ≡ some (ok answer))
    × Completes (create_ping client 5).1 5 answer
unfolding new create_ping run_connection greet settle tell after_event apply_action
    run_connection_loop first_ready client_next msg_to_frame frame_to_msg
ping_round_example =
    ping_round codes String quiet display client 5 (ping []) ctx (some takes_all) [] greeted pinged
      refl refl refl (λ g. refl)
