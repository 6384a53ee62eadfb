-- ===== src/Checked/Session.antt =====
-- src/ws/managed.rs: the body of the `select!` loop of `run_health_checked_managed_ws_loop`, on one
-- connection. The clock stands still from one await to the next, so a round has one instant.
use Prim.Native.String.{String}
use shared_ws.Prelude.{ℕ, true, Option, none, some, [], ◌∷◌, ◌++◌, ◌&&◌, not, if◌then◌else◌}
use shared_ws.Frame.{Bytes, WsFrame}
use shared_ws.Types.Basic.{
  ℤ, Result, ok, err, WebSocketError, WsDisconnectCause, WsErrorAction, WsMessageAction,
  WsParseOutcome,
}
use shared_ws.Types.Endpoint.{Endpoint}
use shared_ws.Ping.{PingPong, WsPongResult, not_pong, invalid_pong, pong_received, reply}
use shared_ws.Health.{
  Histogram, WsHealthMonitor, record_message, record_sent, record_server_error,
  record_internal_error, record_rtt, is_stale as is_silent,
}
use shared_ws.Managed.Io.{
  ManagedWsCommand, command_requires_auth, Io, write_frame, send_payload, replay_subscriptions,
  apply_command, apply_pending_auth_commands,
}
use shared_ws.Managed.Session.{Session, Flow, stays, breaks, returns}

-- `RequiredWsHealth`
pub record RequiredWsHealth (P H : Type 0) : Type 0 where
  pub ping_pong : P
  pub monitor : WsHealthMonitor H

-- A branch of the `select!`: a command, the end of `ping_sleep`, or an item of the reader.
pub data Input (U : Type 0) : Type 0 where
  received : Option (ManagedWsCommand U) → Input U
  ticks : Input U
  read : Option (Result WebSocketError WsFrame) → Input U

-- How a round ends, and the health it leaves.
abbrev pub CheckedFlow : Type 0 → Type 0 → Type 0 → Type 0 → Type 0
CheckedFlow St U P H = Flow St U × RequiredWsHealth P H

-- `utf8` is the bytes of a string.
module _ {P H : Type 0} where
  -- `health.monitor().record_internal_error(context, error)`
  abbrev pub note_error :
      (String → Bytes) → ℕ → String → String → RequiredWsHealth P H → RequiredWsHealth P H
  note_error utf8 now context error g = record g {
    monitor = record_internal_error g.monitor (utf8 context) (utf8 error) now;
  }

  abbrev pub note_sent : ℕ → RequiredWsHealth P H → RequiredWsHealth P H
  note_sent now g = record g { monitor = record_sent g.monitor now }

  abbrev pub note_rtt : Histogram H → Option ℕ → RequiredWsHealth P H → RequiredWsHealth P H
  note_rtt histogram none g = g
  note_rtt histogram (some rtt) g = record g { monitor = record_rtt histogram g.monitor rtt }

module _ {St U P H : Type 0} (display : WebSocketError → String) (utf8 : String → Bytes)
    (now : ℕ) where
  -- `if let Err(error) = … { record_internal_error; break InternalError { context, error } }`, then
  -- `record_sent`
  abbrev pub or_break_sent :
      String → Io St → Session St U → RequiredWsHealth P H → CheckedFlow St U P H
  or_break_sent context (ok _, c) s g = (stays (record s { conn = c }), note_sent now g)
  or_break_sent context (err e, c) s g = (
    breaks (WsDisconnectCause.internal_error context (display e)) (record s { conn = c }),
    note_error utf8 now context (display e) g,
  )

module _ {St M U J P H : Type 0} (h : Endpoint St M U J) (strategy : PingPong P)
    (histogram : Histogram H) (display : WebSocketError → String) (utf8 : String → Bytes)
    (now : ℕ) where
  open h use {on_inbound_frame, on_outbound_frame, parse_frame, handle_message, handle_server_error}

  unfoldable pub on_command :
      Session St U → RequiredWsHealth P H → Option (ManagedWsCommand U) → CheckedFlow St U P H
  on_command s g none = (returns s, g)
  on_command s g (some ManagedWsCommand.shutdown) = (returns s, g)
  on_command s g (some (ManagedWsCommand.force_reconnect reason)) =
      (breaks (WsDisconnectCause.endpoint_requested reason) s, g)
  on_command s g (some command) =
      if not s.session_authenticated && command_requires_auth command
      then (stays (record s { pending_auth_commands = s.pending_auth_commands ++ command ∷ [] }), g)
      else or_break_sent display utf8 now "command" (apply_command h s.conn command) s g

  -- A frame that the loop writes itself.
  abbrev pub write_own :
      String → Session St U → RequiredWsHealth P H → WsFrame → CheckedFlow St U P H
  write_own context s g frame =
      let c = record (s.conn) { handler = on_outbound_frame (s.conn).handler frame } in
      or_break_sent display utf8 now context (write_frame c frame) s g

  -- The end of `ping_sleep`, which is then set for the next interval.
  unfoldable pub on_tick : Session St U → RequiredWsHealth P H → CheckedFlow St U P H
  unfolding write_frame
  on_tick s g =
      let (frame, ping_pong) = strategy.create_ping g.ping_pong now now in
      let g' = record g { ping_pong = ping_pong } in
      if strategy.is_stale g.ping_pong now
      then (breaks WsDisconnectCause.pong_timeout s, g)
      else if is_silent g.monitor now
      then (breaks WsDisconnectCause.stale_data s, g)
      else elim frame [ none ↦ (stays s, g') | some frame' ↦ write_own "ping_send" s g' frame' ]

  -- `WsMessageAction::SessionAuthenticated`
  unfoldable pub on_session_authenticated :
      Session St U → RequiredWsHealth P H → CheckedFlow St U P H
  on_session_authenticated s g =
      let (replayed, c) = replay_subscriptions h s.conn in
      let s' = record s { session_authenticated = true; conn = c } in
      elim replayed [
        | err e ↦ (
          breaks (WsDisconnectCause.internal_error "subscription_replay_after_auth" (display e)) s',
          note_error utf8 now "subscription_replay_after_auth" (display e) g,
        )
        | ok _ ↦
            let (applied, c', left) = apply_pending_auth_commands h c s.pending_auth_commands in
            or_break_sent display utf8 now "pending_auth_command" (applied, c')
              (record s' { pending_auth_commands = left }) g
      ]

  unfoldable pub on_action :
      Session St U → RequiredWsHealth P H → WsMessageAction M → CheckedFlow St U P H
  unfolding on_session_authenticated
  on_action s g WsMessageAction.continue = (stays s, g)
  on_action s g WsMessageAction.session_authenticated = on_session_authenticated s g
  on_action s g (WsMessageAction.send payload) =
      or_break_sent display utf8 now "message_send" (send_payload h s.conn payload) s g
  on_action s g (WsMessageAction.process message) =
      let (r, handler) = handle_message (s.conn).handler message in
      let s' = record s { conn = record (s.conn) { handler = handler } } in
      elim r [
        | ok _ ↦ (stays s', g)
        | err e ↦ (
          breaks (WsDisconnectCause.internal_error "handle_message" e) s',
          note_error utf8 now "handle_message" e g,
        )
      ]
  on_action s g (WsMessageAction.reconnect reason) =
      (breaks (WsDisconnectCause.endpoint_requested reason) s, g)
  on_action s g WsMessageAction.shutdown = (returns s, g)

  unfoldable pub on_server_error :
      Session St U → RequiredWsHealth P H → Option ℤ → String → Option J → CheckedFlow St U P H
  on_server_error s g code text value =
      let (action, handler) = handle_server_error (s.conn).handler code text value in
      let s' = record s { conn = record (s.conn) { handler = handler } } in
      let g' = record g { monitor = record_server_error g.monitor code (utf8 text) now } in
      elim action [
        | WsErrorAction.continue ↦ (stays s', g')
        | _ ↦ (breaks (WsDisconnectCause.server_error code text) s', g')
      ]

  abbrev pub on_outcome :
      Session St U
      → RequiredWsHealth P H
      → Result String (WsParseOutcome M J)
      → CheckedFlow St U P H
  on_outcome s g (ok (WsParseOutcome.message action)) = on_action s g action
  on_outcome s g (ok (WsParseOutcome.server_error code text value)) =
      on_server_error s g code text value
  on_outcome s g (err e) = (stays s, note_error utf8 now "parse" e g)

  -- A frame that the ping strategy leaves to the endpoint.
  unfoldable pub on_endpoint_frame :
      Session St U → RequiredWsHealth P H → WsFrame → CheckedFlow St U P H
  unfolding on_action on_server_error
  on_endpoint_frame s g frame =
      let (parsed, handler) = parse_frame (s.conn).handler frame in
      on_outcome (record s { conn = record (s.conn) { handler = handler } }) g parsed

  abbrev pub on_pong_result :
      Session St U → RequiredWsHealth P H → WsFrame → WsPongResult → CheckedFlow St U P H
  on_pong_result s g frame (reply answer) = write_own "pong_reply" s g answer
  on_pong_result s g frame (pong_received rtt) = (stays s, note_rtt histogram rtt g)
  on_pong_result s g frame invalid_pong =
      (breaks WsDisconnectCause.pong_timeout s, note_error utf8 now "ping" "invalid pong" g)
  on_pong_result s g frame not_pong = on_endpoint_frame s g frame

  unfoldable pub on_frame : Session St U → RequiredWsHealth P H → WsFrame → CheckedFlow St U P H
  unfolding on_endpoint_frame
  on_frame s g frame =
      let s' = record s {
        conn = record (s.conn) { handler = on_inbound_frame (s.conn).handler frame };
      } in
      let (result, ping_pong) = strategy.handle_inbound g.ping_pong now frame in
      let g' : RequiredWsHealth P H = record {
        ping_pong = ping_pong;
        monitor = record_message g.monitor now;
      } in
      on_pong_result s' g' frame result

  unfoldable pub round : Session St U → RequiredWsHealth P H → Input U → CheckedFlow St U P H
  round s g (received command) = on_command s g command
  round s g ticks = on_tick s g
  round s g (read (some (ok frame))) = on_frame s g frame
  round s g (read (some (err e))) = (
    breaks (WsDisconnectCause.read_failure (display e)) s,
    note_error utf8 now "read" (display e) g,
  )
  round s g (read none) = (breaks WsDisconnectCause.remote_closed s, g)
