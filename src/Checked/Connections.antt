-- ===== src/Checked/Connections.antt =====
-- How the connection counters of the health monitor relate in every state of the loop.
use Prim.Native.String.{String}
use shared_ws.Prelude.{
  ℕ, ◌≤◌, ◌<◌, ◌≡◌, ◌⊎◌, refl, sym, subst, Bool, true, false, List, [], ◌∷◌, arith, u64_max,
  if◌then◌else◌,
}
use shared_ws.Frame.{Bytes}
use shared_ws.Types.Basic.{ok, err, WebSocketError, WsDisconnectCause}
use shared_ws.Types.Endpoint.{Endpoint}
use shared_ws.Types.Strategy.{ReconnectStrategy}
use shared_ws.Ping.{PingPong}
use shared_ws.Health.{
  Histogram, record_connect_attempt, record_connect_success, reset_connection, record_error,
  increment_reconnect, record_internal_error, new,
}
use shared_ws.Managed.Io.{Sink, Io, Conn}
use shared_ws.Managed.Session.{stays, breaks, returns}
use shared_ws.Managed.Loop.{
  Phase, connecting, session, waiting, stopped, Loop, session_of, opened, wait_goes_on, start,
  leave_session, disconnect, send_auth, replay_if_public, enter_connecting,
}
use shared_ws.Checked.Session.{RequiredWsHealth, CheckedFlow, round, note_error}
use shared_ws.Checked.Loop.{
  CheckedLoop, Event, connects, selects, wakes, arrive, arrive_at, health_after_wait, after_round,
  after_auth, health_opened, health_left, open_session, or_disconnect, step_at, step, run,
  start_checked,
}
use shared_ws.Checked.Counts.{counters, round-counters}

-- One count is ahead of another, unless it is at the end of its range.
abbrev pub Ahead : ℕ → ℕ → Type 0
Ahead a b = (b < a) ⊎ (a ≡ u64_max)

-- What the counters `(attempts, successes, reconnects)` say at an await. While the loop connects, an
-- attempt is under way; from a session to the reconnect after it, a success has no reconnect yet.
abbrev pub IsOrdered : Phase → Bool → ℕ × ℕ × ℕ → Type 0
IsOrdered connecting counts (a, s, r) = (a ≤ u64_max) × (s ≤ a) × (r ≤ s) × Ahead a s
IsOrdered (session _ _) counts (a, s, r) = (a ≤ u64_max) × (s ≤ a) × (r ≤ s) × Ahead s r
IsOrdered (waiting _) true (a, s, r) = (a ≤ u64_max) × (s ≤ a) × (r ≤ s) × Ahead s r
IsOrdered (waiting _) false (a, s, r) = (a ≤ u64_max) × (s ≤ a) × (r ≤ s)
IsOrdered stopped counts (a, s, r) = (a ≤ u64_max) × (s ≤ a) × (r ≤ s)

-- What a disconnect needs of the counters.
abbrev IsLeaving : Bool → ℕ × ℕ × ℕ → Type 0
IsLeaving true (a, s, r) = (a ≤ u64_max) × (s ≤ a) × (r ≤ s) × Ahead s r
IsLeaving false (a, s, r) = (a ≤ u64_max) × (s ≤ a) × (r ≤ s)

abbrev Holds : {St U R P H : Type 0} → CheckedLoop St U R P H → Type 0
Holds k = IsOrdered (k.loop).phase k.counts (counters k.health)

waiting-IsLeaving :
    (d : ℕ) (counts : Bool) (t : ℕ × ℕ × ℕ) → IsOrdered (waiting d) counts t → IsLeaving counts t
waiting-IsLeaving d true t o = o
waiting-IsLeaving d false t o = o

IsLeaving-stopped :
    (counts : Bool) (t : ℕ × ℕ × ℕ) → IsLeaving counts t → IsOrdered stopped counts t
IsLeaving-stopped true t o = (o.0, o.1, o.2)
IsLeaving-stopped false t o = o

module _ {P H : Type 0} where
  after_wait-IsOrdered :
      (counts : Bool) (g : RequiredWsHealth P H)
      → IsLeaving counts (counters g)
      → IsOrdered connecting false (counters (health_after_wait counts g))
  unfolding record_connect_attempt increment_reconnect
  after_wait-IsOrdered true g h = ground arith
  after_wait-IsOrdered false g h = ground arith

abbrev is_session : Phase → Bool
is_session (session _ _) = true
is_session _ = false

module _ {St M U J R : Type 0} (h : Endpoint St M U J) (strategy : ReconnectStrategy R) where
  disconnect-is_session :
      (l : Loop St U R) (cause : WsDisconnectCause)
      → is_session (disconnect h strategy l cause).phase ≡ false
  unfolding disconnect
  disconnect-is_session l cause = ground arith

module _ {St U R P H : Type 0} where
  arrive_at-Holds :
      (p : Phase) (counts : Bool) (l : Loop St U R) (g : RequiredWsHealth P H)
      → l.phase ≡ p
      → is_session p ≡ false
      → IsLeaving counts (counters g)
      → Holds (arrive_at p counts l g)
  arrive_at-Holds connecting counts l g e n h = rw e (after_wait-IsOrdered counts g h)
  arrive_at-Holds (session a w) counts l g e n h = cc
  arrive_at-Holds (waiting d) true l g e n h = rw e h
  arrive_at-Holds (waiting d) false l g e n h = rw e h
  arrive_at-Holds stopped true l g e n h = rw e (h.0, h.1, h.2)
  arrive_at-Holds stopped false l g e n h = rw e h

module _ {St M U J R P H : Type 0} (h : Endpoint St M U J) (strategy : ReconnectStrategy R)
    (pings : PingPong P) (histogram : Histogram H) (display : WebSocketError → String)
    (utf8 : String → Bytes) (now : ℕ) where
  wakes-Holds :
      (goes_on : Bool) (k : CheckedLoop St U R P H)
      → IsLeaving k.counts (counters k.health)
      → Holds (
          if goes_on
          then record {
            loop = enter_connecting (record (k.loop) { is_reconnect = true });
            health = health_after_wait k.counts k.health;
            counts = false;
          }
          else record k { loop = record (k.loop) { phase = stopped } })
  unfolding enter_connecting
  wakes-Holds true k o = after_wait-IsOrdered k.counts k.health o
  wakes-Holds false k o = IsLeaving-stopped k.counts _ o

  disconnect-Holds :
      (counts : Bool) (l : Loop St U R) (cause : WsDisconnectCause) (g : RequiredWsHealth P H)
      → IsLeaving counts (counters g)
      → Holds (arrive counts (disconnect h strategy l cause) g)
  disconnect-Holds counts l cause g o =
      arrive_at-Holds _ counts (disconnect h strategy l cause) g refl
        (disconnect-is_session h strategy l cause) o

  health_left-counters :
      (cause : WsDisconnectCause) (g : RequiredWsHealth P H)
      → counters (health_left h strategy pings histogram display utf8 now cause g) ≡ counters g
  unfolding record_error
  health_left-counters cause g = ground arith

  after_round-Holds :
      (l : Loop St U R) (f : CheckedFlow St U P H)
      → IsLeaving true (counters f.1)
      → Holds (after_round h strategy pings histogram display utf8 now l f)
  unfolding after_round
  after_round-Holds l (stays s, g) o = o
  after_round-Holds l (breaks cause s, g) o =
      disconnect-Holds true (leave_session l s) cause
        (health_left h strategy pings histogram display utf8 now cause g)
        (subst (IsLeaving true) (sym (health_left-counters cause g)) o)
  after_round-Holds l (returns s, g) o = (o.0, o.1, o.2)

  or_disconnect-Holds :
      (context : String) (io : Io St) (l : Loop St U R) (g : RequiredWsHealth P H)
      (rest : Conn St → CheckedLoop St U R P H)
      → IsLeaving true (counters g)
      → ((c : Conn St) → Holds (rest c))
      → Holds (or_disconnect h strategy pings histogram display utf8 now context io l g rest)
  unfolding record_internal_error
  or_disconnect-Holds context (ok _, c) l g rest o holds = holds c
  or_disconnect-Holds context (err e, c) l g rest o holds =
      disconnect-Holds false (record l { handler = c.handler })
        (WsDisconnectCause.internal_error context (display e))
        (note_error utf8 now context (display e) g) (o.0, o.1, o.2)

  opened-IsLeaving :
      (g : RequiredWsHealth P H)
      → IsOrdered connecting false (counters g)
      → IsLeaving true (counters (health_opened h strategy pings histogram display utf8 now g))
  unfolding record_connect_success reset_connection
  opened-IsLeaving g o = ground arith

  open_session-Holds :
      (l : Loop St U R) (g : RequiredWsHealth P H) (sink : Sink)
      → IsOrdered connecting false (counters g)
      → Holds (open_session h strategy pings histogram display utf8 now l g sink)
  unfolding open_session
  open_session-Holds l g sink o =
      let l' = opened h strategy display l in
      let g' = health_opened h strategy pings histogram display utf8 now g in
      let ready = opened-IsLeaving g o in
      let c : Conn St = record {
        handler = l'.handler;
        writer = record { sink = sink; written = [] };
      } in
      or_disconnect-Holds "auth_send" (send_auth h (h.generate_auth c.handler) c) l' g'
        (after_auth h strategy pings histogram display utf8 now l' g') ready
        λ d.
          or_disconnect-Holds "subscription_replay"
            (replay_if_public h (h.session_mode d.handler) d) l' g' _ ready λ d'. ready

  step_at-Holds :
      (p : Phase) (k : CheckedLoop St U R P H) (e : Event U)
      → (k.loop).phase ≡ p
      → IsOrdered p k.counts (counters k.health)
      → Holds (step_at h strategy pings histogram display utf8 now p k e)
  unfolding step_at record_internal_error
  step_at-Holds connecting k (connects (ok sink)) n o = open_session-Holds k.loop k.health sink o
  step_at-Holds connecting k (connects (err e)) n o =
      disconnect-Holds false k.loop (WsDisconnectCause.internal_error "connect" (display e))
        (note_error utf8 now "connect" (display e) k.health) (o.0, o.1, o.2)
  step_at-Holds (session a w) k (selects i) n o =
      after_round-Holds k.loop
        (round h pings histogram display utf8 now (session_of k.loop a w) k.health i)
        (subst (IsLeaving true)
          (sym
            (round-counters h pings histogram display utf8 now (session_of k.loop a w) k.health i))
          o)
  step_at-Holds (waiting d) k (wakes w) n o =
      wakes-Holds (wait_goes_on w) k (waiting-IsLeaving d k.counts _ o)
  step_at-Holds p k e n o = rw n o

module _ {St M U J R P H : Type 0} (h : Endpoint St M U J) (strategy : ReconnectStrategy R)
    (pings : PingPong P) (histogram : Histogram H) (display : WebSocketError → String)
    (utf8 : String → Bytes) where
  run-Holds :
      (k : CheckedLoop St U R P H) (es : List (ℕ × Event U))
      → Holds k
      → Holds (run h strategy pings histogram display utf8 k es)
  unfolding run step
  run-Holds k [] o = o
  run-Holds k ((now, e) ∷ es) o =
      run-Holds (step h strategy pings histogram display utf8 now k e) es
        (step_at-Holds h strategy pings histogram display utf8 now (k.loop).phase k e refl o)

  -- Whatever happens to a loop that is spawned with a new monitor: reconnects after a session are
  -- never more than connections made, and these never more than attempts; while the loop connects
  -- there is an attempt that is no connection yet, and from a session to the reconnect after it a
  -- connection without a reconnect, unless the count that has to be ahead is at `u64::MAX`.
  pub run-start-IsOrdered :
      (handler : St) (r : R) (p : P) (threshold created : ℕ) (es : List (ℕ × Event U))
      → IsOrdered
          (run h strategy pings histogram display utf8
            (start_checked h strategy pings histogram display utf8 handler r
              (record { ping_pong = p; monitor = new histogram threshold created }))
            es).loop.phase
          (run h strategy pings histogram display utf8
            (start_checked h strategy pings histogram display utf8 handler r
              (record { ping_pong = p; monitor = new histogram threshold created }))
            es).counts
          (counters
            (run h strategy pings histogram display utf8
              (start_checked h strategy pings histogram display utf8 handler r
                (record { ping_pong = p; monitor = new histogram threshold created }))
              es).health)
  unfolding start_checked new start enter_connecting
  run-start-IsOrdered handler r p threshold created es =
      run-Holds
        (start_checked h strategy pings histogram display utf8 handler r
          (record { ping_pong = p; monitor = new histogram threshold created }))
        es
        (after_wait-IsOrdered false
          (record { ping_pong = p; monitor = new histogram threshold created }) (ground arith))
