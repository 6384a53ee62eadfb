-- ===== src/Server/Connection/Tests.antt =====
-- A connection of the managed server on small inputs.
use shared_ws.Prelude.{ℕ, ◌+◌, ◌≡◌, refl, true, false, none, some, List, [], ◌∷◌, ◌++◌, take}
use shared_ws.Types.Basic.{ok, WebSocketError}
use shared_ws.Frame.{WsFrame, ping, pong, binary}
use shared_ws.Managed.Io.{Sink}
use shared_ws.Managed.Fixtures.{display, takes_all, hello}
use shared_ws.Server.Batch.{from_iter}
use shared_ws.Server.Connection.{
  WsServerConnectionContext, WsServerEndpointEvent, connected, frame, command,
  WsServerEndpointAction, no_action, send, send_batch, EndpointFactory, received, fell_behind, Poll,
  Connection, open_at, ended, lagged, new_connection, first_ready, apply_action, run_connection,
  greet, settle, tell, after_event, run_connection_loop, select, take_branch, on_incoming, on_frame,
  ws_send, on_received,
}
use shared_ws.Server.Connection.Trace.{IsTraced, run_connection-IsTraced}
use shared_ws.Server.Connection.Farewell.{EndsFrom, run_connection_stops}
use shared_ws.Server.Connection.Sends.{WritesInOrder, send_batch-WritesInOrder}

-- It counts its events, and echoes frames and commands.
abbrev answer : WsServerEndpointEvent ℕ ℕ → WsServerEndpointAction
answer (frame f) = send f
answer (command n) = send (binary (n ∷ []))
answer _ = no_action

abbrev echo : EndpointFactory ℕ ℕ ℕ
echo = record { create_endpoint = λ ctx. 0; on_event = λ n event. (ok (answer event), n + 1) }

abbrev ctx : WsServerConnectionContext ℕ
ctx = record { connection_id = 0; peer_addr = 1; local_addr = 2 }

abbrev arrives : WsFrame → Poll ℕ
arrives f = record {
  shutdown = false;
  incoming = some (some (ok f));
  commands = some (received 7);
  tick_due = true;
}

abbrev commanded : Poll ℕ
commanded = record {
  shutdown = false;
  incoming = none;
  commands = some (received 7);
  tick_due = true;
}

abbrev behind : Poll ℕ
behind = record {
  shutdown = false;
  incoming = none;
  commands = some (fell_behind 2);
  tick_due = true;
}

abbrev seen : List (Poll ℕ)
seen = arrives (ping (5 ∷ [])) ∷ arrives hello ∷ commanded ∷ []

abbrev after_seen : Connection ℕ ℕ ℕ
after_seen = record {
  handler = 3;
  told = connected ctx ∷ frame hello ∷ command 7 ∷ [];
  writer = record { sink = takes_all; written = pong (5 ∷ []) ∷ hello ∷ binary (7 ∷ []) ∷ [] };
  socket_closed = false;
}

run_connection-seen : run_connection echo display ctx (some takes_all) seen ≡ open_at after_seen
unfolding run_connection greet settle tell after_event apply_action run_connection_loop select
    take_branch first_ready on_incoming on_frame ws_send on_received
run_connection-seen = refl

run_connection-IsTraced_example :
    IsTraced ctx
      (some takes_all)
      (seen ++ behind ∷ commanded ∷ [])
      (run_connection echo display ctx (some takes_all) (seen ++ behind ∷ commanded ∷ []))
run_connection-IsTraced_example =
    run_connection-IsTraced echo display ctx (some takes_all) (seen ++ behind ∷ commanded ∷ [])

run_connection_stops_example :
    (c' : Connection ℕ ℕ ℕ) × (run_connection echo display ctx
        (some takes_all)
        (seen ++ behind ∷ commanded ∷ [])
      ≡ ended (lagged 2) c')
    × EndsFrom after_seen (lagged 2) c'
run_connection_stops_example =
    run_connection_stops echo display ctx (some takes_all) seen after_seen behind (commanded ∷ [])
      (lagged 2) run_connection-seen refl

-- The socket takes two frames.
abbrev takes_two : Sink
takes_two [] f = none
takes_two (_ ∷ []) f = none
takes_two (_ ∷ _ ∷ _) f = some WebSocketError.outbound_queue_full

abbrev five : List WsFrame
five = hello ∷ ping [] ∷ hello ∷ pong [] ∷ hello ∷ []

abbrev fresh : Connection ℕ ℕ ℕ
fresh = new_connection 0 takes_two

send_batch-WritesInOrder_example :
    WritesInOrder display fresh
      (take 4 five)
      (apply_action display fresh (send_batch (from_iter five)))
send_batch-WritesInOrder_example = send_batch-WritesInOrder display fresh five
