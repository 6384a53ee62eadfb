-- ===== src/Managed/Session.antt =====
-- src/ws/managed.rs: the body of the `select!` loop of `run_managed_ws_loop`, on one connection.
-- An await of the body runs to its end before the next `select!`, so an input is handled in one
-- step; which branch `select!` takes is the order of the inputs.
use Prim.Native.String.{String}
use shared_ws.Prelude.{
  Bool, true, Option, none, some, List, [], ◌∷◌, ◌++◌, ◌&&◌, not, if◌then◌else◌,
}
use shared_ws.Frame.{WsFrame}
use shared_ws.Types.Basic.{
  ℤ, Result, ok, err, WebSocketError, WsDisconnectCause, WsErrorAction, WsMessageAction,
  WsParseOutcome,
}
use shared_ws.Types.Endpoint.{Endpoint}
use shared_ws.Managed.Io.{
  ManagedWsCommand, command_requires_auth, Conn, Io, send_payload, replay_subscriptions,
  apply_command, apply_pending_auth_commands,
}

-- The variables that live across the rounds of the loop.
pub record Session (St U : Type 0) : Type 0 where
  pub conn : Conn St
  pub session_authenticated : Bool
  pub pending_auth_commands : List (ManagedWsCommand U)

-- How a round ends: with another round, by `break cause`, or by `return`.
pub data Flow (St U : Type 0) : Type 0 where
  stays : Session St U → Flow St U
  breaks : WsDisconnectCause → Session St U → Flow St U
  returns : Session St U → Flow St U

-- What a branch of the `select!` yields: `cmd_rx.recv()`, or an item of the reader (`none` is its
-- end).
pub data Input (U : Type 0) : Type 0 where
  received : Option (ManagedWsCommand U) → Input U
  read : Option (Result WebSocketError WsFrame) → Input U

-- `display` is `to_string` of the error type, generated from its format attributes.
module _ {St M U J : Type 0} (h : Endpoint St M U J) (display : WebSocketError → String) where
  open h use {on_inbound_frame, parse_frame, handle_message, handle_server_error}

  -- `if let Err(error) = … { break InternalError { context, error } }`
  abbrev pub or_break : String → Io St → Session St U → Flow St U
  or_break context (ok _, c) s = stays (record s { conn = c })
  or_break context (err e, c) s =
      breaks (WsDisconnectCause.internal_error context (display e)) (record s { conn = c })

  unfoldable pub on_command : Session St U → Option (ManagedWsCommand U) → Flow St U
  on_command s none = returns s
  on_command s (some ManagedWsCommand.shutdown) = returns s
  on_command s (some (ManagedWsCommand.force_reconnect reason)) =
      breaks (WsDisconnectCause.endpoint_requested reason) s
  on_command s (some command) =
      if not s.session_authenticated && command_requires_auth command
      then stays (record s { pending_auth_commands = s.pending_auth_commands ++ command ∷ [] })
      else or_break "command" (apply_command h s.conn command) s

  -- `WsMessageAction::SessionAuthenticated`
  unfoldable pub on_session_authenticated : Session St U → Flow St U
  on_session_authenticated s =
      let (replayed, c) = replay_subscriptions h s.conn in
      let s' = record s { session_authenticated = true; conn = c } in
      elim replayed [
        | err e ↦
            breaks (WsDisconnectCause.internal_error "subscription_replay_after_auth" (display e))
              s'
        | ok _ ↦
            let (applied, c', left) = apply_pending_auth_commands h c s.pending_auth_commands in
            or_break "pending_auth_command" (applied, c')
              (record s' { pending_auth_commands = left })
      ]

  unfoldable pub on_action : Session St U → WsMessageAction M → Flow St U
  unfolding on_session_authenticated
  on_action s WsMessageAction.continue = stays s
  on_action s WsMessageAction.session_authenticated = on_session_authenticated s
  on_action s (WsMessageAction.send payload) =
      or_break "message_send" (send_payload h s.conn payload) s
  on_action s (WsMessageAction.process message) =
      let (r, handler) = handle_message (s.conn).handler message in
      let s' = record s { conn = record (s.conn) { handler = handler } } in
      elim r [
        | ok _ ↦ stays s'
        | err e ↦ breaks (WsDisconnectCause.internal_error "handle_message" e) s'
      ]
  on_action s (WsMessageAction.reconnect reason) =
      breaks (WsDisconnectCause.endpoint_requested reason) s
  on_action s WsMessageAction.shutdown = returns s

  unfoldable pub on_server_error : Session St U → Option ℤ → String → Option J → Flow St U
  on_server_error s code text value =
      let (action, handler) = handle_server_error (s.conn).handler code text value in
      let s' = record s { conn = record (s.conn) { handler = handler } } in
      elim action [
        | WsErrorAction.continue ↦ stays s'
        | _ ↦ breaks (WsDisconnectCause.server_error code text) s'
      ]

  abbrev pub on_outcome : Session St U → Result String (WsParseOutcome M J) → Flow St U
  on_outcome s (ok (WsParseOutcome.message action)) = on_action s action
  on_outcome s (ok (WsParseOutcome.server_error code text value)) =
      on_server_error s code text value
  on_outcome s (err _) = stays s

  unfoldable pub on_frame : Session St U → WsFrame → Flow St U
  unfolding on_action on_server_error
  on_frame s frame =
      let (parsed, handler) = parse_frame (on_inbound_frame (s.conn).handler frame) frame in
      on_outcome (record s { conn = record (s.conn) { handler = handler } }) parsed

  unfoldable pub round : Session St U → Input U → Flow St U
  round s (received command) = on_command s command
  round s (read (some (ok frame))) = on_frame s frame
  round s (read (some (err e))) = breaks (WsDisconnectCause.read_failure (display e)) s
  round s (read none) = breaks WsDisconnectCause.remote_closed s

  -- The rounds on a list of inputs, up to the end of the loop.
  unfoldable pub rounds : Session St U → List (Input U) → Flow St U
  rounds s [] = stays s
  rounds s (i ∷ is) = elim (round s i) [
    | stays s' ↦ rounds s' is
    | breaks cause s' ↦ breaks cause s'
    | returns s' ↦ returns s'
  ]
