-- ===== src/Checked/Counts.antt =====
-- The connection counters of the health monitor over the life of the loop.
use Prim.Native.String.{String}
use shared_ws.Prelude.{ℕ, ◌≡◌, refl, Option, none, some, arith}
use shared_ws.Frame.{Bytes, WsFrame}
use shared_ws.Types.Basic.{Result, ok, err, WebSocketError, WsMessageAction, WsParseOutcome}
use shared_ws.Types.Endpoint.{Endpoint}
use shared_ws.Ping.{PingPong, WsPongResult, not_pong, invalid_pong, pong_received, reply}
use shared_ws.Health.{
  Histogram, record_message, record_sent, record_server_error, record_internal_error, record_rtt,
}
use shared_ws.Managed.Io.{ManagedWsCommand, Io, apply_command, send_payload}
use shared_ws.Managed.Session.{Session}
use shared_ws.Checked.Session.{
  RequiredWsHealth, Input, received, ticks, read, or_break_sent, note_error, note_rtt, on_command,
  on_tick, on_session_authenticated, on_action, on_server_error, on_outcome, on_endpoint_frame,
  on_pong_result, on_frame, round,
}

-- Attempts to connect, successes, and reconnects after a session.
abbrev pub counters : {P H : Type 0} → RequiredWsHealth P H → ℕ × ℕ × ℕ
counters g = (g.monitor.connect_attempts, g.monitor.connect_successes, g.monitor.reconnect_count)

module _ {P H : Type 0} where
  note_error-counters :
      (utf8 : String → Bytes) (now : ℕ) (context error : String) (g : RequiredWsHealth P H)
      → counters (note_error utf8 now context error g) ≡ counters g
  unfolding record_internal_error
  note_error-counters utf8 now context error g = refl

  note_rtt-counters :
      (histogram : Histogram H) (rtt : Option ℕ) (g : RequiredWsHealth P H)
      → counters (note_rtt histogram rtt g) ≡ counters g
  unfolding record_rtt
  note_rtt-counters histogram none g = refl
  note_rtt-counters histogram (some rtt) g = refl

module _ {St U P H : Type 0} (display : WebSocketError → String) (utf8 : String → Bytes)
    (now : ℕ) where
  or_break_sent-counters :
      (context : String) (io : Io St) (s : Session St U) (g : RequiredWsHealth P H)
      → counters (or_break_sent display utf8 now context io s g).1 ≡ counters g
  unfolding record_internal_error record_sent
  or_break_sent-counters context (ok _, c) s g = refl
  or_break_sent-counters context (err e, c) s g = refl

module _ {St M U J P H : Type 0} (h : Endpoint St M U J) (pings : PingPong P)
    (histogram : Histogram H) (display : WebSocketError → String) (utf8 : String → Bytes)
    (now : ℕ) where
  on_command-counters :
      (s : Session St U) (g : RequiredWsHealth P H) (c : Option (ManagedWsCommand U))
      → counters (on_command h pings histogram display utf8 now s g c).1 ≡ counters g
  unfolding on_command
  on_command-counters s g none = refl
  on_command-counters s g (some ManagedWsCommand.shutdown) = refl
  on_command-counters s g (some (ManagedWsCommand.force_reconnect reason)) = refl
  on_command-counters s g (some (ManagedWsCommand.send payload)) = ground (
    arith,
    or_break_sent-counters display utf8 now "command"
        (apply_command h s.conn (ManagedWsCommand.send payload)) s g,
  )
  on_command-counters s g (some (ManagedWsCommand.update_subscriptions a)) = ground (
    arith,
    or_break_sent-counters display utf8 now "command"
        (apply_command h s.conn (ManagedWsCommand.update_subscriptions a)) s g,
  )

  on_tick-counters :
      (s : Session St U) (g : RequiredWsHealth P H)
      → counters (on_tick h pings histogram display utf8 now s g).1 ≡ counters g
  unfolding on_tick record_internal_error record_sent
  on_tick-counters s g = ground arith

  authenticated-counters :
      (s : Session St U) (g : RequiredWsHealth P H)
      → counters (on_session_authenticated h pings histogram display utf8 now s g).1 ≡ counters g
  unfolding on_session_authenticated record_internal_error record_sent
  authenticated-counters s g = ground arith

  on_outcome-counters :
      (s : Session St U) (g : RequiredWsHealth P H) (o : Result String (WsParseOutcome M J))
      → counters (on_outcome h pings histogram display utf8 now s g o).1 ≡ counters g
  unfolding on_action on_server_error record_internal_error record_server_error
  on_outcome-counters s g (err e) = refl
  on_outcome-counters s g (ok (WsParseOutcome.server_error code text value)) = ground arith
  on_outcome-counters s g (ok (WsParseOutcome.message WsMessageAction.continue)) = refl
  on_outcome-counters s g (ok (WsParseOutcome.message WsMessageAction.session_authenticated)) =
      authenticated-counters s g
  on_outcome-counters s g (ok (WsParseOutcome.message (WsMessageAction.send payload))) =
      or_break_sent-counters display utf8 now "message_send" (send_payload h s.conn payload) s g
  on_outcome-counters s g (ok (WsParseOutcome.message (WsMessageAction.process message))) =
      ground arith
  on_outcome-counters s g (ok (WsParseOutcome.message (WsMessageAction.reconnect reason))) = refl
  on_outcome-counters s g (ok (WsParseOutcome.message WsMessageAction.shutdown)) = refl

  on_pong_result-counters :
      (s : Session St U) (g : RequiredWsHealth P H) (frame : WsFrame) (r : WsPongResult)
      → counters (on_pong_result h pings histogram display utf8 now s g frame r).1 ≡ counters g
  unfolding on_endpoint_frame record_internal_error record_sent
  on_pong_result-counters s g frame (reply answer) = ground arith
  on_pong_result-counters s g frame (pong_received rtt) = note_rtt-counters histogram rtt g
  on_pong_result-counters s g frame invalid_pong = refl
  on_pong_result-counters s g frame not_pong =
      on_outcome-counters _ g (h.parse_frame (s.conn).handler frame).0

  -- A round leaves the connection counters alone.
  pub round-counters :
      (s : Session St U) (g : RequiredWsHealth P H) (i : Input U)
      → counters (round h pings histogram display utf8 now s g i).1 ≡ counters g
  unfolding round on_frame record_message record_internal_error
  round-counters s g (received c) = on_command-counters s g c
  round-counters s g ticks = on_tick-counters s g
  round-counters s g (read (some (err e))) = refl
  round-counters s g (read none) = refl
  round-counters s g (read (some (ok frame))) =
      on_pong_result-counters _ _ frame (pings.handle_inbound g.ping_pong now frame).0
