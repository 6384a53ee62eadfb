-- ===== src/Checked/PlainRound.antt =====
-- A round of `run_health_checked_managed_ws_loop` against one of `run_managed_ws_loop`.
use Prim.Native.String.{String}
use shared_ws.Prelude.{ℕ, ◌≡◌, refl, false, Option, none, some, arith}
use shared_ws.Frame.{Bytes, WsFrame}
use shared_ws.Types.Basic.{Result, ok, err, WebSocketError, WsMessageAction, WsParseOutcome}
use shared_ws.Types.Endpoint.{Endpoint}
use shared_ws.Ping.{PingPong, not_pong}
use shared_ws.Health.{Histogram, is_stale as is_silent}
use shared_ws.Managed.Io.{ManagedWsCommand, Io, apply_command, send_payload}
use shared_ws.Managed.Session as PlainSession
use shared_ws.Managed.Session.{Session, Flow, stays, breaks, returns, or_break}
use shared_ws.Checked.Session.{
  RequiredWsHealth, or_break_sent, on_command, on_session_authenticated, on_action, on_server_error,
  on_outcome, on_frame, on_tick,
}

-- The strategy sends no ping and is never stale.
pub record IsQuiet {P : Type 0} (pings : PingPong P) : Type 0 where
  pub no_ping : (p : P) (a b : ℕ) → (pings.create_ping p a b).0 ≡ none
  pub never_stale : (p : P) (now : ℕ) → pings.is_stale p now ≡ false

module _ {St M U J P H : Type 0} (h : Endpoint St M U J) (pings : PingPong P)
    (histogram : Histogram H) (display : WebSocketError → String) (utf8 : String → Bytes)
    (now : ℕ) where
  -- Each part of a round ends as the plain one does.
  or_break_same :
      (context : String) (io : Io St) (s : Session St U) (g : RequiredWsHealth P H)
      → (or_break_sent display utf8 now context io s g).0 ≡ or_break h display context io s
  or_break_same context (ok _, c) s g = refl
  or_break_same context (err e, c) s g = refl

  pub on_command_same :
      (s : Session St U) (g : RequiredWsHealth P H) (c : Option (ManagedWsCommand U))
      → (on_command h pings histogram display utf8 now s g c).0
        ≡ PlainSession.on_command h display s c
  unfolding on_command PlainSession.on_command
  on_command_same s g none = refl
  on_command_same s g (some ManagedWsCommand.shutdown) = refl
  on_command_same s g (some (ManagedWsCommand.force_reconnect reason)) = refl
  on_command_same s g (some (ManagedWsCommand.send payload)) =
      ground (
        arith,
        or_break_same "command" (apply_command h s.conn (ManagedWsCommand.send payload)) s g,
      )
  on_command_same s g (some (ManagedWsCommand.update_subscriptions a)) = ground (
    arith,
    or_break_same "command" (apply_command h s.conn (ManagedWsCommand.update_subscriptions a)) s g,
  )

  authenticated_same :
      (s : Session St U) (g : RequiredWsHealth P H)
      → (on_session_authenticated h pings histogram display utf8 now s g).0
        ≡ PlainSession.on_session_authenticated h display s
  unfolding on_session_authenticated PlainSession.on_session_authenticated
  authenticated_same s g = ground arith

  on_outcome_same :
      (s : Session St U) (g : RequiredWsHealth P H) (o : Result String (WsParseOutcome M J))
      → (on_outcome h pings histogram display utf8 now s g o).0
        ≡ PlainSession.on_outcome h display s o
  unfolding on_action PlainSession.on_action on_server_error PlainSession.on_server_error
  on_outcome_same s g (err e) = refl
  on_outcome_same s g (ok (WsParseOutcome.server_error code text value)) = ground arith
  on_outcome_same s g (ok (WsParseOutcome.message WsMessageAction.continue)) = refl
  on_outcome_same s g (ok (WsParseOutcome.message WsMessageAction.session_authenticated)) =
      authenticated_same s g
  on_outcome_same s g (ok (WsParseOutcome.message (WsMessageAction.send payload))) =
      or_break_same "message_send" (send_payload h s.conn payload) s g
  on_outcome_same s g (ok (WsParseOutcome.message (WsMessageAction.process message))) = ground arith
  on_outcome_same s g (ok (WsParseOutcome.message (WsMessageAction.reconnect reason))) = refl
  on_outcome_same s g (ok (WsParseOutcome.message WsMessageAction.shutdown)) = refl

  pub on_frame_same :
      (s : Session St U) (g : RequiredWsHealth P H) (frame : WsFrame)
      → (pings.handle_inbound g.ping_pong now frame).0 ≡ not_pong
      → (on_frame h pings histogram display utf8 now s g frame).0
        ≡ PlainSession.on_frame h display s frame
  unfolding on_frame PlainSession.on_frame
  on_frame_same s g frame left =
      rw left
        (on_outcome_same _ _ (h.parse_frame (h.on_inbound_frame (s.conn).handler frame) frame).0)

  pub on_tick_same :
      (s : Session St U) (g : RequiredWsHealth P H)
      → IsQuiet pings
      → is_silent g.monitor now ≡ false
      → (on_tick h pings histogram display utf8 now s g).0 ≡ stays s
  unfolding on_tick
  on_tick_same s g quiet lively =
      ground (arith, quiet.no_ping g.ping_pong now now, quiet.never_stale g.ping_pong now)
