-- ===== src/Managed/Loop.antt =====
-- src/ws/managed.rs: `run_managed_ws_loop`, the connection lifecycle. The loop stands at one of its
-- awaits, its phase, and an event is what that await yields: the transport's answer, a branch of
-- the session's `select!`, or the end of the reconnect delay. What runs up to the next await is one
-- step. An event that the phase does not await is none of its steps and changes nothing.
use Prim.Native.String.{String}
use shared_ws.Prelude.{ℕ, Bool, true, false, Option, none, some, List, [], ◌∷◌, ◌==◌, if◌then◌else◌}
use shared_ws.Frame.{Bytes}
use shared_ws.Types.Basic.{
  Result, ok, err, WebSocketError, WsConnectionStatus, WsDisconnectAction, immediate_reconnect,
  backoff_reconnect, abort, WsDisconnectCause, WsSessionMode, is_public, auth_gated,
}
use shared_ws.Types.Endpoint.{Endpoint}
use shared_ws.Types.Strategy.{ReconnectStrategy}
use shared_ws.Managed.Io.{
  ManagedWsCommand, ws_status_to_u8, Sink, Writer, Conn, Io, send_payload, replay_subscriptions,
}
use shared_ws.Managed.Session.{Session, Flow, stays, breaks, returns, Input, round}

-- The await at which the loop stands; `session` has the connection's writer and whether the
-- session is authenticated.
pub data Phase : Type 0 where
  connecting : Phase
  session : Bool → Writer → Phase
  waiting : ℕ → Phase
  stopped : Phase

-- The variables of `run_managed_ws_loop`, with the shared status byte.
pub record Loop (St U R : Type 0) : Type 0 where
  pub phase : Phase
  pub handler : St
  pub reconnect : R
  pub status : ℕ
  pub is_reconnect : Bool
  pub pending_auth_commands : List (ManagedWsCommand U)

pub data Event (U : Type 0) : Type 0 where
  connects : Result WebSocketError Sink → Event U
  selects : Input U → Event U
  -- The delay has run out (`none`), or `cmd_rx.recv()` came first.
  wakes : Option (Option (ManagedWsCommand U)) → Event U

abbrev pub store_status : {St U R : Type 0} → WsConnectionStatus → Loop St U R → Loop St U R
store_status status l = record l { status = ws_status_to_u8 status }

-- The top of the loop, up to the transport's `connect`.
unfoldable pub enter_connecting : {St U R : Type 0} → Loop St U R → Loop St U R
enter_connecting l = store_status WsConnectionStatus.connecting (record l { phase = connecting })

-- `wait_reconnect_delay_or_shutdown`, for a delay that is not zero
unfoldable pub wait_goes_on : {U : Type 0} → Option (Option (ManagedWsCommand U)) → Bool
wait_goes_on none = true
wait_goes_on (some none) = false
wait_goes_on (some (some ManagedWsCommand.shutdown)) = false
wait_goes_on (some (some _)) = true

unfoldable pub reconnect_delay :
    {R : Type 0} → ReconnectStrategy R → R → WsDisconnectAction → Option ℕ × R
reconnect_delay strategy r abort = (none, r)
reconnect_delay strategy r immediate_reconnect = (some 0, r)
reconnect_delay strategy r backoff_reconnect =
    let (delay, r') = strategy.next_delay r in
    if strategy.should_retry r then (some delay, r') else (none, r)

abbrev pub is_some : {A : Type 0} → Option A → Bool
is_some none = false
is_some (some _) = true

abbrev pub session_of : {St U R : Type 0} → Loop St U R → Bool → Writer → Session St U
session_of l authenticated writer = record {
  conn = record { handler = l.handler; writer = writer };
  session_authenticated = authenticated;
  pending_auth_commands = l.pending_auth_commands;
}

-- The loop's variables after a session's.
abbrev pub leave_session : {St U R : Type 0} → Loop St U R → Session St U → Loop St U R
leave_session l s = record l {
  handler = (s.conn).handler;
  pending_auth_commands = s.pending_auth_commands;
}

-- `wait_reconnect_delay_or_shutdown` returns at once for a zero delay.
unfoldable pub start_wait : {St U R : Type 0} → Option ℕ → Loop St U R → Loop St U R
unfolding enter_connecting
start_wait none l = record l { phase = stopped }
start_wait (some delay) l =
    if delay == 0
    then enter_connecting (record l { is_reconnect = true })
    else record l { phase = waiting delay }

abbrev pub mode_is_public : WsSessionMode → Bool
mode_is_public is_public = true
mode_is_public auth_gated = false

module _ {St M U J : Type 0} (h : Endpoint St M U J) where
  open h use {handle_message, on_connection_disconnected}

  -- A message of the endpoint, handed back to it. Both callers drop the result.
  abbrev pub deliver : Option M × St → St
  deliver (none, handler) = handler
  deliver (some message, handler) = (handle_message handler message).1

  unfoldable pub notify_disconnect : St → WsDisconnectCause → Bool → St
  notify_disconnect handler cause will_reconnect =
      deliver (on_connection_disconnected handler cause will_reconnect)

  abbrev pub send_auth : Option Bytes → Conn St → Io St
  send_auth none c = (ok tt, c)
  send_auth (some payload) c = send_payload h c payload

  abbrev pub replay_if_public : WsSessionMode → Conn St → Io St
  replay_if_public is_public c = replay_subscriptions h c
  replay_if_public auth_gated c = (ok tt, c)

module _ {St M U J R : Type 0} (h : Endpoint St M U J) (strategy : ReconnectStrategy R) where
  open h use {classify_disconnect}

  -- What every disconnect leads to: the status, the classification, the notice, and the wait.
  unfoldable pub disconnect : Loop St U R → WsDisconnectCause → Loop St U R
  unfolding start_wait notify_disconnect
  disconnect l cause =
      let (delay, r) = reconnect_delay strategy l.reconnect (classify_disconnect l.handler cause) in
      start_wait delay (
        store_status WsConnectionStatus.disconnected (record l {
          reconnect = r;
          handler = notify_disconnect h l.handler cause (is_some delay);
        }))

  -- `if let Err(error) = … { … continue }` while a connection is opened; else the rest.
  abbrev pub or_disconnect :
      (WebSocketError → String)
      → String
      → Io St
      → Loop St U R
      → (Conn St → Loop St U R)
      → Loop St U R
  or_disconnect display context (ok _, c) l rest = rest c
  or_disconnect display context (err e, c) l rest =
      disconnect (record l { handler = c.handler })
        (WsDisconnectCause.internal_error context (display e))

module _ {St M U J R : Type 0} (h : Endpoint St M U J) (strategy : ReconnectStrategy R)
    (display : WebSocketError → String) where
  open h use {reset_state, session_mode, on_open, on_connection_opened, generate_auth}

  -- The variables once the socket is open: the backoff is reset, and the endpoint has been reset
  -- and told of the connection.
  abbrev pub opened : Loop St U R → Loop St U R
  opened l = store_status WsConnectionStatus.connected (record l {
    reconnect = strategy.reset l.reconnect;
    handler = deliver h (on_connection_opened (on_open (reset_state l.handler)) l.is_reconnect);
  })

  -- The session mode decides whether the session starts authenticated, with its subscriptions
  -- replayed.
  abbrev pub after_auth : Loop St U R → Conn St → Loop St U R
  after_auth l c =
      let mode = session_mode c.handler in
      or_disconnect h strategy display "subscription_replay" (replay_if_public h mode c) l
        λ c'. record l { phase = session (mode_is_public mode) c'.writer; handler = c'.handler }

  -- From a connection to the session's first `select!`.
  unfoldable pub open_session : Loop St U R → Sink → Loop St U R
  open_session l sink =
      let c : Conn St = record {
        handler = (opened l).handler;
        writer = record { sink = sink; written = [] };
      } in
      or_disconnect h strategy display "auth_send" (send_auth h (generate_auth c.handler) c)
        (opened l) (after_auth (opened l))

  unfoldable pub after_round : Loop St U R → Flow St U → Loop St U R
  after_round l (stays s) = record (leave_session l s) {
    phase = session s.session_authenticated (s.conn).writer;
  }
  after_round l (breaks cause s) = disconnect h strategy (leave_session l s) cause
  after_round l (returns s) =
      store_status WsConnectionStatus.disconnected (record (leave_session l s) { phase = stopped })

  unfoldable pub step_at : Phase → Loop St U R → Event U → Loop St U R
  unfolding after_round open_session
  step_at connecting l (connects (ok sink)) = open_session l sink
  step_at connecting l (connects (err e)) =
      disconnect h strategy l (WsDisconnectCause.internal_error "connect" (display e))
  step_at (session authenticated writer) l (selects i) =
      after_round l (round h display (session_of l authenticated writer) i)
  step_at (waiting delay) l (wakes w) =
      if wait_goes_on w
      then enter_connecting (record l { is_reconnect = true })
      else record l { phase = stopped }
  step_at _ l _ = l

  unfoldable pub step : Loop St U R → Event U → Loop St U R
  step l e = step_at l.phase l e

  unfoldable pub run : Loop St U R → List (Event U) → Loop St U R
  run l [] = l
  run l (e ∷ es) = run (step l e) es

  -- The loop as it is spawned: a status of `Disconnected`, then the first `connect`.
  unfoldable pub start : St → R → Loop St U R
  start handler r = enter_connecting (record {
    phase = connecting;
    handler = handler;
    reconnect = r;
    status = ws_status_to_u8 WsConnectionStatus.disconnected;
    is_reconnect = false;
    pending_auth_commands = [];
  })
