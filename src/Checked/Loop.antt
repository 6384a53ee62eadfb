-- ===== src/Checked/Loop.antt =====
-- src/ws/managed.rs: the connection lifecycle of `run_health_checked_managed_ws_loop`, step by step
-- over its awaits as `shared_ws.Managed.Loop` does it.
use Prim.Native.String.{String}
use shared_ws.Prelude.{ℕ, Bool, true, false, Option, List, [], ◌∷◌, if◌then◌else◌}
use shared_ws.Frame.{Bytes}
use shared_ws.Types.Basic.{Result, ok, err, WebSocketError, WsConnectionStatus, WsDisconnectCause}
use shared_ws.Types.Endpoint.{Endpoint}
use shared_ws.Types.Strategy.{ReconnectStrategy}
use shared_ws.Ping.{PingPong}
use shared_ws.Health.{
  Histogram, record_connect_attempt, record_connect_success, reset_connection, record_error,
  increment_reconnect,
}
use shared_ws.Managed.Io.{ManagedWsCommand, Sink, Conn, Io}
use shared_ws.Managed.Session.{stays, breaks, returns}
use shared_ws.Managed.Loop.{
  Phase, connecting, session, waiting, stopped, Loop, store_status, enter_connecting, wait_goes_on,
  session_of, leave_session, mode_is_public, send_auth, replay_if_public, disconnect, opened, start,
}
use shared_ws.Checked.Session.{RequiredWsHealth, Input, CheckedFlow, note_error, round}

-- `counts` says which of the waits for a reconnect the loop stands at: that after a session is
-- followed by `increment_reconnect`.
pub record CheckedLoop (St U R P H : Type 0) : Type 0 where
  pub loop : Loop St U R
  pub health : RequiredWsHealth P H
  pub counts : Bool

pub data Event (U : Type 0) : Type 0 where
  connects : Result WebSocketError Sink → Event U
  selects : Input U → Event U
  -- The delay has run out (`none`), or `cmd_rx.recv()` came first.
  wakes : Option (Option (ManagedWsCommand U)) → Event U

module _ {P H : Type 0} where
  -- What follows a wait for a reconnect, up to the next `connect`.
  abbrev pub health_after_wait : Bool → RequiredWsHealth P H → RequiredWsHealth P H
  health_after_wait counts g = record g {
    monitor = record_connect_attempt (if counts then increment_reconnect g.monitor else g.monitor);
  }

module _ {St U R P H : Type 0} where
  -- After a disconnect the loop waits, has stopped, or, with no delay, connects at once.
  abbrev pub arrive_at : Phase → Bool → Loop St U R → RequiredWsHealth P H → CheckedLoop St U R P H
  arrive_at connecting counts l g = record {
    loop = l;
    health = health_after_wait counts g;
    counts = false;
  }
  arrive_at _ counts l g = record { loop = l; health = g; counts = counts }

  abbrev pub arrive : Bool → Loop St U R → RequiredWsHealth P H → CheckedLoop St U R P H
  arrive counts l g = arrive_at l.phase counts l g

-- A cause that the pings or the lack of data gave.
abbrev pub is_stale_cause : WsDisconnectCause → Bool
is_stale_cause WsDisconnectCause.pong_timeout = true
is_stale_cause WsDisconnectCause.stale_data = true
is_stale_cause _ = false

module _ {St M U J R P H : Type 0} (h : Endpoint St M U J) (strategy : ReconnectStrategy R)
    (pings : PingPong P) (histogram : Histogram H) (display : WebSocketError → String)
    (utf8 : String → Bytes) (now : ℕ) where
  open h use {session_mode, generate_auth}

  -- `if let Err(error) = … { … continue }` while a connection is opened; else the rest.
  abbrev pub or_disconnect :
      String
      → Io St
      → Loop St U R
      → RequiredWsHealth P H
      → (Conn St → CheckedLoop St U R P H)
      → CheckedLoop St U R P H
  or_disconnect context (ok _, c) l g rest = rest c
  or_disconnect context (err e, c) l g rest =
      arrive false
        (disconnect h strategy (record l { handler = c.handler })
          (WsDisconnectCause.internal_error context (display e)))
        (note_error utf8 now context (display e) g)

  -- The health once the socket is open.
  abbrev pub health_opened : RequiredWsHealth P H → RequiredWsHealth P H
  health_opened g = record {
    ping_pong = pings.reset g.ping_pong;
    monitor = reset_connection histogram (record_connect_success g.monitor) now;
  }

  abbrev pub after_auth : Loop St U R → RequiredWsHealth P H → Conn St → CheckedLoop St U R P H
  after_auth l g c =
      let mode = session_mode c.handler in
      or_disconnect "subscription_replay" (replay_if_public h mode c) l g λ c'. record {
        loop = record l { phase = session (mode_is_public mode) c'.writer; handler = c'.handler };
        health = g;
        counts = false;
      }

  -- From a connection to the session's first `select!`.
  unfoldable pub open_session : Loop St U R → RequiredWsHealth P H → Sink → CheckedLoop St U R P H
  open_session l g sink =
      let l' = opened h strategy display l in
      let g' = health_opened g in
      let c : Conn St = record {
        handler = l'.handler;
        writer = record { sink = sink; written = [] };
      } in
      or_disconnect "auth_send" (send_auth h (generate_auth c.handler) c) l' g' (after_auth l' g')

  abbrev pub health_left : WsDisconnectCause → RequiredWsHealth P H → RequiredWsHealth P H
  health_left cause g = record g {
    monitor = if is_stale_cause cause then record_error g.monitor else g.monitor;
  }

  unfoldable pub after_round : Loop St U R → CheckedFlow St U P H → CheckedLoop St U R P H
  after_round l (stays s, g) = record {
    loop = record (leave_session l s) { phase = session s.session_authenticated (s.conn).writer };
    health = g;
    counts = false;
  }
  after_round l (breaks cause s, g) =
      arrive true (disconnect h strategy (leave_session l s) cause) (health_left cause g)
  after_round l (returns s, g) = record {
    loop =
        store_status WsConnectionStatus.disconnected
          (record (leave_session l s) { phase = stopped });
    health = g;
    counts = false;
  }

  unfoldable pub step_at : Phase → CheckedLoop St U R P H → Event U → CheckedLoop St U R P H
  unfolding after_round open_session
  step_at connecting k (connects (ok sink)) = open_session k.loop k.health sink
  step_at connecting k (connects (err e)) =
      arrive false
        (disconnect h strategy k.loop (WsDisconnectCause.internal_error "connect" (display e)))
        (note_error utf8 now "connect" (display e) k.health)
  step_at (session authenticated writer) k (selects i) =
      after_round k.loop (
        round h pings histogram display utf8 now (session_of k.loop authenticated writer) k.health
          i)
  step_at (waiting delay) k (wakes w) =
      if wait_goes_on w
      then record {
        loop = enter_connecting (record (k.loop) { is_reconnect = true });
        health = health_after_wait k.counts k.health;
        counts = false;
      }
      else record k { loop = record (k.loop) { phase = stopped } }
  step_at _ k _ = k

  unfoldable pub step : CheckedLoop St U R P H → Event U → CheckedLoop St U R P H
  step k e = step_at (k.loop).phase k e

module _ {St M U J R P H : Type 0} (h : Endpoint St M U J) (strategy : ReconnectStrategy R)
    (pings : PingPong P) (histogram : Histogram H) (display : WebSocketError → String)
    (utf8 : String → Bytes) where
  -- Each event at its instant.
  unfoldable pub run : CheckedLoop St U R P H → List (ℕ × Event U) → CheckedLoop St U R P H
  run k [] = k
  run k ((now, e) ∷ es) = run (step h strategy pings histogram display utf8 now k e) es

  -- The loop as it is spawned, up to the first `connect`.
  unfoldable pub start_checked : St → R → RequiredWsHealth P H → CheckedLoop St U R P H
  start_checked handler r g = record {
    loop = start h strategy display handler r;
    health = health_after_wait false g;
    counts = false;
  }
