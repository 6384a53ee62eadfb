-- ===== src/Managed/Persistence.antt =====
-- What can end the managed loop.
use Prim.Native.String.{String}
use shared_ws.Prelude.{
  ℕ, Bool, true, false, Option, none, some, ◌≡◌, ◌≢◌, refl, List, [], ◌∷◌, arith,
}
use shared_ws.Frame.{WsFrame}
use shared_ws.Types.Basic.{
  Result, ok, err, WebSocketError, WsDisconnectCause, WsDisconnectAction, abort,
  immediate_reconnect, backoff_reconnect, WsMessageAction, WsParseOutcome,
}
use shared_ws.Types.Endpoint.{Endpoint}
use shared_ws.Types.Strategy.{ReconnectStrategy}
use shared_ws.Managed.Io.{ManagedWsCommand, Io, send_payload}
use shared_ws.Managed.Session.{
  Session, Flow, stays, breaks, returns, Input, received, read, round, on_command, on_frame,
  on_action, on_server_error, on_session_authenticated, or_break, on_outcome,
}
use shared_ws.Managed.Loop.{
  Phase, connecting, session, waiting, stopped, Loop, Event, connects, selects, wakes,
  enter_connecting, leave_session, session_of, wait_goes_on, reconnect_delay, start_wait,
  disconnect, opened, after_round, step_at, step, run,
}
use shared_ws.Managed.Cases.{open_session_cases}

-- The command channel yields a shutdown command or is closed.
abbrev pub asks_shutdown : {U : Type 0} → Option (ManagedWsCommand U) → Bool
asks_shutdown none = true
asks_shutdown (some ManagedWsCommand.shutdown) = true
asks_shutdown (some _) = false

-- No event asks for a shutdown.
abbrev pub NoShutdown : {U : Type 0} → Event U → Type 0
NoShutdown (connects _) = Unit
NoShutdown (selects (received c)) = asks_shutdown c ≡ false
NoShutdown (selects (read _)) = Unit
NoShutdown (wakes none) = Unit
NoShutdown (wakes (some c)) = asks_shutdown c ≡ false

abbrev pub NoShutdowns : {U : Type 0} → List (Event U) → Type 0
NoShutdowns [] = Unit
NoShutdowns (e ∷ es) = NoShutdown e × NoShutdowns es

-- The policy always wants to reconnect: the endpoint classifies no cause as `Abort` and parses no
-- frame as a shutdown, and the strategy always retries.
pub record AlwaysReconnects {St M U J R : Type 0} (h : Endpoint St M U J)
    (strategy : ReconnectStrategy R) : Type 0 where
  pub never_aborts : (st : St) (cause : WsDisconnectCause) → h.classify_disconnect st cause ≢ abort
  pub never_shuts_down :
      (st : St) (frame : WsFrame)
      → (h.parse_frame st frame).0 ≢ ok (WsParseOutcome.message WsMessageAction.shutdown)
  pub retries : (r : R) → strategy.should_retry r ≡ true

module _ {St M U J R : Type 0} (h : Endpoint St M U J) (strategy : ReconnectStrategy R)
    (display : WebSocketError → String) (always : AlwaysReconnects h strategy) where
  delay_given :
      (r : R) (action : WsDisconnectAction)
      → action ≢ abort
      → (reconnect_delay strategy r action).0 ≢ none
  unfolding reconnect_delay
  delay_given r abort n e = n refl
  delay_given r immediate_reconnect n e = cc
  delay_given r backoff_reconnect n e = ground (arith, always.retries r)

  start_wait_goes_on :
      (delay : Option ℕ) (l : Loop St U R) → delay ≢ none → (start_wait delay l).phase ≢ stopped
  unfolding start_wait enter_connecting
  start_wait_goes_on none l n e = n refl
  start_wait_goes_on (some d) l n e = ground arith

  disconnect_goes_on :
      (l : Loop St U R) (cause : WsDisconnectCause)
      → (disconnect h strategy l cause).phase ≢ stopped
  unfolding disconnect
  disconnect_goes_on l cause = ground (
    arith,
    delay_given l.reconnect (h.classify_disconnect l.handler cause)
        (always.never_aborts l.handler cause),
  )

  abbrev is_return : Flow St U → Bool
  is_return (returns _) = true
  is_return _ = false

  or_break_goes_on :
      (context : String) (r : Io St) (s : Session St U)
      → is_return (or_break h display context r s) ≡ false
  or_break_goes_on context (ok _, c) s = refl
  or_break_goes_on context (err _, c) s = refl

  on_command_goes_on :
      (s : Session St U) (c : Option (ManagedWsCommand U))
      → asks_shutdown c ≡ false
      → is_return (on_command h display s c) ≡ false
  unfolding on_command
  on_command_goes_on s none e = cc
  on_command_goes_on s (some ManagedWsCommand.shutdown) e = cc
  on_command_goes_on s (some (ManagedWsCommand.force_reconnect _)) e = refl
  on_command_goes_on s (some _) e = ground arith

  on_session_authenticated_goes_on :
      (s : Session St U) → is_return (on_session_authenticated h display s) ≡ false
  unfolding on_session_authenticated
  on_session_authenticated_goes_on s = ground arith

  on_outcome_goes_on :
      (s : Session St U) (o : Result String (WsParseOutcome M J))
      → o ≢ ok (WsParseOutcome.message WsMessageAction.shutdown)
      → is_return (on_outcome h display s o) ≡ false
  unfolding on_action on_server_error
  on_outcome_goes_on s (err _) n = refl
  on_outcome_goes_on s (ok (WsParseOutcome.server_error code text value)) n = ground arith
  on_outcome_goes_on s (ok (WsParseOutcome.message WsMessageAction.continue)) n = refl
  on_outcome_goes_on s (ok (WsParseOutcome.message WsMessageAction.session_authenticated)) n =
      on_session_authenticated_goes_on s
  on_outcome_goes_on s (ok (WsParseOutcome.message WsMessageAction.shutdown)) n = absurd (n refl)
  on_outcome_goes_on s (ok (WsParseOutcome.message (WsMessageAction.send payload))) n =
      or_break_goes_on "message_send" (send_payload h s.conn payload) s
  on_outcome_goes_on s (ok (WsParseOutcome.message (WsMessageAction.process m))) n = ground arith
  on_outcome_goes_on s (ok (WsParseOutcome.message (WsMessageAction.reconnect reason))) n = refl

  round_goes_on :
      (s : Session St U) (i : Input U)
      → NoShutdown (selects i)
      → is_return (round h display s i) ≡ false
  unfolding round on_frame
  round_goes_on s (received c) e = on_command_goes_on s c e
  round_goes_on s (read (some (ok frame))) e =
      on_outcome_goes_on _ (h.parse_frame (h.on_inbound_frame (s.conn).handler frame) frame).0
        (always.never_shuts_down (h.on_inbound_frame (s.conn).handler frame) frame)
  round_goes_on s (read (some (err e'))) e = refl
  round_goes_on s (read none) e = refl

  after_round_goes_on :
      (l : Loop St U R) (f : Flow St U)
      → is_return f ≡ false
      → (after_round h strategy display l f).phase ≢ stopped
  unfolding after_round
  after_round_goes_on l (stays s) e = ground arith
  after_round_goes_on l (breaks cause s) e = disconnect_goes_on (leave_session l s) cause
  after_round_goes_on l (returns s) e = cc

  wakes_goes_on :
      (w : Option (Option (ManagedWsCommand U))) → NoShutdown (wakes w) → wait_goes_on w ≡ true
  unfolding wait_goes_on
  wakes_goes_on none g = refl
  wakes_goes_on (some none) g = cc
  wakes_goes_on (some (some ManagedWsCommand.shutdown)) g = cc
  wakes_goes_on (some (some _)) g = refl

  step_at_goes_on :
      (p : Phase) (l : Loop St U R) (e : Event U)
      → l.phase ≡ p
      → p ≢ stopped
      → NoShutdown e
      → (step_at h strategy display p l e).phase ≢ stopped
  unfolding step_at enter_connecting
  step_at_goes_on connecting l (connects (ok sink)) p n g =
      open_session_cases h strategy display (λ l'. l'.phase ≢ stopped) l sink
        (λ cause handler.
          disconnect_goes_on (record (opened h strategy display l) { handler = handler }) cause)
        (λ b w handler. ground arith)
  step_at_goes_on connecting l (connects (err e)) p n g =
      disconnect_goes_on l (WsDisconnectCause.internal_error "connect" (display e))
  step_at_goes_on (session b w) l (selects i) p n g =
      after_round_goes_on l (round h display (session_of l b w) i)
        (round_goes_on (session_of l b w) i g)
  step_at_goes_on (waiting d) l (wakes w) p n g = ground (arith, wakes_goes_on w g)
  step_at_goes_on q l e p n g = rw p n

  -- Under a policy that always reconnects, the loop is never stopped by anything but a shutdown:
  -- no failed connection, error, closed socket or rejected frame ends it.
  pub run_goes_on :
      (l : Loop St U R) (es : List (Event U))
      → l.phase ≢ stopped
      → NoShutdowns es
      → (run h strategy display l es).phase ≢ stopped
  unfolding run step
  run_goes_on l [] n g = n
  run_goes_on l (e ∷ es) n g =
      run_goes_on (step_at h strategy display l.phase l e) es
        (step_at_goes_on l.phase l e refl n g.0) g.1
