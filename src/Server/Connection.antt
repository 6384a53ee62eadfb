-- ===== src/Server/Connection.antt =====
-- src/ws/server/runtime.rs and types.rs: what runs on one connection, from its handshake to its
-- close. The socket and the endpoint's handler are parameters; the connection keeps what they were
-- handed.
pub mod Events
pub mod Trace
pub mod Farewell
pub mod Sends
pub mod Commands
mod Tests
use Prim.Native.Char.{code}
use Prim.Native.String.{String}
use shared_ws.Prelude.{ℕ, Bool, true, false, Option, none, some, List, [], ◌∷◌, ◌++◌}
use shared_ws.Types.Basic.{Result, ok, err, WebSocketError}
use shared_ws.Frame.{Bytes, WsCloseFrame, WsFrame, text, binary, ping, pong, close}
use shared_ws.Managed.Io.{Sink, Writer}
use shared_ws.Server.Batch.{WsServerFrameBatch, drain}

pub record WsServerConnectionContext (A : Type 0) : Type 0 where
  pub connection_id : ℕ
  pub peer_addr : A
  pub local_addr : A

pub data WsServerCloseCause : Type 0 where
  client_closed handler_requested server_shutdown : WsServerCloseCause
  handler_error transport_error : String → WsServerCloseCause
  lagged : ℕ → WsServerCloseCause

pub data WsServerEndpointEvent (A C : Type 0) : Type 0 where
  connected : WsServerConnectionContext A → WsServerEndpointEvent A C
  frame : WsFrame → WsServerEndpointEvent A C
  command : C → WsServerEndpointEvent A C
  tick : WsServerEndpointEvent A C
  closed : WsServerCloseCause → WsServerEndpointEvent A C

pub data WsServerEndpointAction : Type 0 where
  no_action : WsServerEndpointAction
  send : WsFrame → WsServerEndpointAction
  send_batch : WsServerFrameBatch → WsServerEndpointAction
  close_with : Option WsCloseFrame → WsServerEndpointAction

-- `WsServerEndpointHandler` and `WsServerEndpointFactory`, with the states `St` of a handler. An
-- error is the text that `to_string` makes of it.
pub record EndpointFactory (St A C : Type 0) : Type 1 where
  pub create_endpoint : WsServerConnectionContext A → St
  pub on_event : St → WsServerEndpointEvent A C → Result String WsServerEndpointAction × St

-- What `command_rx.recv()` answers.
pub data Received (C : Type 0) : Type 0 where
  received : C → Received C
  fell_behind : ℕ → Received C
  channel_closed : Received C

-- What is ready at one poll of `select!`. A branch that is not taken stays ready, and a later poll
-- tells it again.
pub record Poll (C : Type 0) : Type 0 where
  pub shutdown : Bool
  pub incoming : Option (Option (Result WebSocketError WsFrame))
  pub commands : Option (Received C)
  pub tick_due : Bool

-- The branch of the `select!` that a poll takes; it waits when none is ready.
pub data Branch (C : Type 0) : Type 0 where
  sees_shutdown : Branch C
  reads : Option (Result WebSocketError WsFrame) → Branch C
  receives : Received C → Branch C
  ticks : Branch C
  waits : Branch C

abbrev branch_of :
    {C : Type 0}
    → Bool
    → Option (Option (Result WebSocketError WsFrame))
    → Option (Received C)
    → Bool
    → Branch C
branch_of true _ _ _ = sees_shutdown
branch_of false (some r) _ _ = reads r
branch_of false none (some r) _ = receives r
branch_of false none none true = ticks
branch_of false none none false = waits

-- `biased`: the first branch that is ready, in the order of the source.
unfoldable pub first_ready : {C : Type 0} → Poll C → Branch C
first_ready p = branch_of p.shutdown p.incoming p.commands p.tick_due

-- The connection: its handler with the events that it was told, oldest first, and its socket.
pub record Connection (St A C : Type 0) : Type 0 where
  pub handler : St
  pub told : List (WsServerEndpointEvent A C)
  pub writer : Writer
  pub socket_closed : Bool

-- What a call says of the connection's end, beside the connection that it leaves.
abbrev pub Going : Type 0 → Type 0 → Type 0 → Type 0
Going St A C = Option WsServerCloseCause × Connection St A C

-- A connection's life: no upgrade, an event loop that waits, or the end.
pub data Life (St A C : Type 0) : Type 0 where
  not_upgraded : Life St A C
  open_at : Connection St A C → Life St A C
  ended : WsServerCloseCause → Connection St A C → Life St A C

-- A text of ASCII characters.
abbrev pub ascii : String → Bytes
ascii String.[] = []
ascii (String.◌∷◌ c s) = code c ∷ ascii s

unfoldable pub close_frame : WsServerCloseCause → Option WsCloseFrame
close_frame (lagged _) = some (record {
  code = 1008;
  reason = ascii "client lagged; reconnect for an authoritative snapshot";
})
close_frame (handler_error _) =
    some (record { code = 1011; reason = ascii "endpoint handler error" })
close_frame server_shutdown = some (record { code = 1001; reason = ascii "server shutting down" })
close_frame client_closed = none
close_frame handler_requested = none
close_frame (transport_error _) = none

module _ {St A C : Type 0} where
  abbrev pub new_connection : St → Sink → Connection St A C
  new_connection handler sink = record {
    handler = handler;
    told = [];
    writer = record { sink = sink; written = [] };
    socket_closed = false;
  }

  -- `ws.send(frame).await`
  unfoldable pub ws_send : Connection St A C → WsFrame → Option WebSocketError × Connection St A C
  ws_send c f = (
    c.writer.sink c.writer.written f,
    record c { writer = record (c.writer) { written = c.writer.written ++ f ∷ [] } },
  )

  unfoldable pub send_close : Connection St A C → Option WsCloseFrame → Connection St A C
  unfolding ws_send
  send_close c none = c
  send_close c (some f) = (ws_send c (close (some f))).1

-- A failed send ends the connection.
abbrev pub failed : (WebSocketError → String) → Option WebSocketError → Option WsServerCloseCause
failed display none = none
failed display (some e) = some (transport_error (display e))

module _ {St A C : Type 0} (display : WebSocketError → String) where
  -- The loop over a batch's frames stops at the first failure.
  unfoldable pub send_frames : Connection St A C → List WsFrame → Going St A C
  send_frames c [] = (none, c)
  send_frames c (f ∷ fs) =
      let (r, c') = ws_send c f in
      elim r [ none ↦ send_frames c' fs | some e ↦ (some (transport_error (display e)), c') ]

  unfoldable pub apply_action : Connection St A C → WsServerEndpointAction → Going St A C
  apply_action c no_action = (none, c)
  apply_action c (send f) = let (r, c') = ws_send c f in (failed display r, c')
  apply_action c (send_batch batch) = send_frames c (drain batch).0
  apply_action c (close_with f) = let (r, c') = ws_send c (close f) in (some handler_requested, c')

module _ {St A C : Type 0} (h : EndpointFactory St A C) (display : WebSocketError → String) where
  -- What is done about the handler's answer.
  unfoldable pub after_event :
      Connection St A C → Result String WsServerEndpointAction → Going St A C
  after_event c (ok action) = apply_action display c action
  after_event c (err e) = (some (handler_error e), c)

  unfoldable pub tell : Connection St A C → WsServerEndpointEvent A C → Going St A C
  tell c event =
      let (r, handler) = h.on_event c.handler event in
      after_event (record c { handler = handler; told = c.told ++ event ∷ [] }) r

  unfoldable pub on_frame : Connection St A C → WsFrame → Going St A C
  on_frame c (close _) = (some client_closed, c)
  on_frame c (ping payload) = let (r, c') = ws_send c (pong payload) in (failed display r, c')
  on_frame c (pong _) = (none, c)
  on_frame c (text bytes) = tell c (frame (text bytes))
  on_frame c (binary bytes) = tell c (frame (binary bytes))

  unfoldable pub on_incoming :
      Connection St A C → Option (Result WebSocketError WsFrame) → Going St A C
  on_incoming c none = (some client_closed, c)
  on_incoming c (some (err e)) = (some (transport_error (display e)), c)
  on_incoming c (some (ok f)) = on_frame c f

  unfoldable pub on_received : Connection St A C → Received C → Going St A C
  on_received c (received x) = tell c (command x)
  on_received c (fell_behind missed) = (some (lagged missed), c)
  on_received c channel_closed = (some server_shutdown, c)

  unfoldable pub take_branch : Connection St A C → Branch C → Going St A C
  take_branch c sees_shutdown = (some server_shutdown, c)
  take_branch c (reads r) = on_incoming c r
  take_branch c (receives r) = on_received c r
  take_branch c ticks = tell c tick
  take_branch c waits = (none, c)

  unfoldable pub select : Connection St A C → Poll C → Going St A C
  select c p = take_branch c (first_ready p)

  -- The answer to `Closed` and the failures of the socket are ignored.
  unfoldable pub finish_connection : Connection St A C → WsServerCloseCause → Connection St A C
  finish_connection c cause =
      let (r, handler) = h.on_event c.handler (closed cause) in
      let c' = record c { handler = handler; told = c.told ++ closed cause ∷ [] } in
      record (send_close c' (close_frame cause)) { socket_closed = true }

  -- A cause ends the life, else it goes on.
  unfoldable pub settle : Going St A C → (Connection St A C → Life St A C) → Life St A C
  settle (none, c) next = next c
  settle (some cause, c) next = ended cause (finish_connection c cause)

  unfoldable pub run_connection_loop : Connection St A C → List (Poll C) → Life St A C
  run_connection_loop c [] = open_at c
  run_connection_loop c (p ∷ ps) = settle (select c p) (λ c'. run_connection_loop c' ps)

  -- `Connected` goes first, before any poll; the tick that is due at once is consumed.
  unfoldable pub greet :
      Connection St A C → WsServerConnectionContext A → List (Poll C) → Life St A C
  greet c ctx ps = settle (tell c (connected ctx)) (λ c'. run_connection_loop c' ps)

  -- The handshake succeeds within its timeout, with a socket, or it does not.
  unfoldable pub run_connection :
      WsServerConnectionContext A → Option Sink → List (Poll C) → Life St A C
  run_connection ctx none ps = not_upgraded
  run_connection ctx (some sink) ps = greet (new_connection (h.create_endpoint ctx) sink) ctx ps
