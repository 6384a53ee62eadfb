-- ===== src/Checked/Plain.antt =====
-- `run_health_checked_managed_ws_loop` against `run_managed_ws_loop`.
use Prim.Native.String.{String}
use shared_ws.Prelude.{
  ℕ, ◌≡◌, refl, sym, ap, ◌∙◌, Bool, true, false, Option, none, some, List, [], ◌∷◌, arith,
}
use shared_ws.Frame.{Bytes}
use shared_ws.Types.Basic.{ok, err, WebSocketError}
use shared_ws.Types.Endpoint.{Endpoint}
use shared_ws.Types.Strategy.{ReconnectStrategy}
use shared_ws.Ping.{PingPong, not_pong}
use shared_ws.Health.{Histogram, is_stale as is_silent}
use shared_ws.Managed.Io.{Sink, Io, Conn}
use shared_ws.Managed.Session as PlainSession
use shared_ws.Managed.Session.{Session, Flow, stays, breaks, returns}
use shared_ws.Managed.Loop as PlainLoop
use shared_ws.Managed.Loop.{
  Phase, connecting, session, waiting, stopped, Loop, session_of, opened, send_auth,
  replay_if_public,
}
use shared_ws.Checked.Session.{RequiredWsHealth, received, ticks, read, CheckedFlow, round}
use shared_ws.Checked.Loop.{
  CheckedLoop, Event, connects, selects, wakes, arrive, arrive_at, after_round, after_auth,
  health_opened, open_session, or_disconnect, step_at, step, run,
}
use shared_ws.Checked.PlainRound.{IsQuiet, on_command_same, on_frame_same, on_tick_same}

-- A step on what may be an event.
abbrev pub may_step : {L E : Type 0} → (L → E → L) → L → Option E → L
may_step f l none = l
may_step f l (some e) = f l e

-- The event for the plain loop; it has no `ping_sleep`.
abbrev pub plain_event : {U : Type 0} → Event U → Option (PlainLoop.Event U)
plain_event (connects r) = some (PlainLoop.connects r)
plain_event (wakes w) = some (PlainLoop.wakes w)
plain_event (selects (received c)) = some (PlainLoop.selects (PlainSession.received c))
plain_event (selects ticks) = none
plain_event (selects (read item)) = some (PlainLoop.selects (PlainSession.read item))

abbrev pub plain_events : {U : Type 0} → List (ℕ × Event U) → List (PlainLoop.Event U)
plain_events [] = []
plain_events ((_, e) ∷ es) =
    let rest = plain_events es in elim (plain_event e) [ none ↦ rest | some e' ↦ e' ∷ rest ]

module _ {St M U J R P H : Type 0} (h : Endpoint St M U J) (strategy : ReconnectStrategy R)
    (pings : PingPong P) (histogram : Histogram H) (display : WebSocketError → String)
    (utf8 : String → Bytes) (now : ℕ) where
  -- The input leaves the ping strategy and the monitor no reason to act: no data is missing at a
  -- tick, and the strategy does not take a frame for itself.
  abbrev pub LeavesBe : RequiredWsHealth P H → Event U → Type 0
  LeavesBe g (selects ticks) = is_silent g.monitor now ≡ false
  LeavesBe g (selects (read (some (ok frame)))) =
      (pings.handle_inbound g.ping_pong now frame).0 ≡ not_pong
  LeavesBe g _ = Unit

  arrive_at_same :
      (p : Phase) (counts : Bool) (l : Loop St U R) (g : RequiredWsHealth P H)
      → (arrive_at p counts l g).loop ≡ l
  arrive_at_same connecting counts l g = refl
  arrive_at_same (session a w) counts l g = refl
  arrive_at_same (waiting d) counts l g = refl
  arrive_at_same stopped counts l g = refl

  arrive_same :
      (counts : Bool) (l : Loop St U R) (g : RequiredWsHealth P H) → (arrive counts l g).loop ≡ l
  arrive_same counts l g = arrive_at_same l.phase counts l g

  after_round_same :
      (l : Loop St U R) (f : CheckedFlow St U P H)
      → (after_round h strategy pings histogram display utf8 now l f).loop
        ≡ PlainLoop.after_round h strategy display l f.0
  unfolding after_round PlainLoop.after_round
  after_round_same l (stays s, g) = refl
  after_round_same l (breaks cause s, g) = arrive_same true _ _
  after_round_same l (returns s, g) = refl

  or_disconnect_same :
      (context : String) (io : Io St) (l : Loop St U R) (g : RequiredWsHealth P H)
      (rest : Conn St → CheckedLoop St U R P H) (rest' : Conn St → Loop St U R)
      → ((c : Conn St) → (rest c).loop ≡ rest' c)
      → (or_disconnect h strategy pings histogram display utf8 now context io l g rest).loop
        ≡ PlainLoop.or_disconnect h strategy display context io l rest'
  or_disconnect_same context (ok _, c) l g rest rest' same = same c
  or_disconnect_same context (err e, c) l g rest rest' same = arrive_same false _ _

  open_session_same :
      (l : Loop St U R) (g : RequiredWsHealth P H) (sink : Sink)
      → (open_session h strategy pings histogram display utf8 now l g sink).loop
        ≡ PlainLoop.open_session h strategy display l sink
  unfolding open_session PlainLoop.open_session
  open_session_same l g sink =
      let l' = opened h strategy display l in
      let g' = health_opened h strategy pings histogram display utf8 now g in
      let c : Conn St = record {
        handler = l'.handler;
        writer = record { sink = sink; written = [] };
      } in
      or_disconnect_same "auth_send" (send_auth h (h.generate_auth c.handler) c) l' g'
        (after_auth h strategy pings histogram display utf8 now l' g')
        (PlainLoop.after_auth h strategy display l')
        λ d.
          or_disconnect_same "subscription_replay" (replay_if_public h (h.session_mode d.handler) d)
            l' g' _ _ λ d'. refl

  step_at_same :
      (p : Phase) (k : CheckedLoop St U R P H) (e : Event U)
      → (k.loop).phase ≡ p
      → IsQuiet pings
      → LeavesBe k.health e
      → (step_at h strategy pings histogram display utf8 now p k e).loop
        ≡ may_step (λ l e'. PlainLoop.step_at h strategy display p l e') k.loop (plain_event e)
  unfolding step_at PlainLoop.step_at round PlainSession.round PlainLoop.after_round
  step_at_same (session a w) k (selects ticks) n quiet leaves =
      after_round_same k.loop _
      ∙ ap (PlainLoop.after_round h strategy display k.loop) (
          on_tick_same h pings histogram display utf8 now (session_of k.loop a w) k.health quiet
            leaves)
      ∙ ap (λ p. record (k.loop) { phase = p }) (sym n)
  step_at_same connecting k (connects (ok sink)) n quiet leaves =
      open_session_same k.loop k.health sink
  step_at_same connecting k (connects (err e)) n quiet leaves = arrive_same false _ _
  step_at_same (session a w) k (selects (received c)) n quiet leaves =
      after_round_same k.loop _
      ∙ ap (PlainLoop.after_round h strategy display k.loop)
          (on_command_same h pings histogram display utf8 now (session_of k.loop a w) k.health c)
  step_at_same (session a w) k (selects (read (some (ok frame)))) n quiet leaves =
      after_round_same k.loop _
      ∙ ap (PlainLoop.after_round h strategy display k.loop) (
          on_frame_same h pings histogram display utf8 now (session_of k.loop a w) k.health frame
            leaves)
  step_at_same (session a w) k (selects (read (some (err e)))) n quiet leaves =
      after_round_same k.loop (
        round h pings histogram display utf8 now (session_of k.loop a w) k.health
          (read (some (err e))))
  step_at_same (session a w) k (selects (read none)) n quiet leaves =
      after_round_same k.loop
        (round h pings histogram display utf8 now (session_of k.loop a w) k.health (read none))
  step_at_same (waiting d) k (wakes w) n quiet leaves = ground arith
  step_at_same p k (selects ticks) n quiet leaves = refl
  step_at_same p k (selects (received c)) n quiet leaves = refl
  step_at_same p k (selects (read item)) n quiet leaves = refl
  step_at_same p k e n quiet leaves = refl

module _ {St M U J R P H : Type 0} (h : Endpoint St M U J) (strategy : ReconnectStrategy R)
    (pings : PingPong P) (histogram : Histogram H) (display : WebSocketError → String)
    (utf8 : String → Bytes) where
  abbrev pub LeaveBe : CheckedLoop St U R P H → List (ℕ × Event U) → Type 0
  LeaveBe k [] = Unit
  LeaveBe k ((now, e) ∷ es) =
      LeavesBe h strategy pings histogram display utf8 now k.health e
      × LeaveBe (step h strategy pings histogram display utf8 now k e) es

  run-may_step :
      (l : Loop St U R) (e : Option (PlainLoop.Event U)) (es : List (PlainLoop.Event U))
      → PlainLoop.run h strategy display l (elim e [ none ↦ es | some e' ↦ e' ∷ es ])
        ≡ PlainLoop.run h strategy display
            (may_step (λ l' e'. PlainLoop.step_at h strategy display l.phase l' e') l e)
            es
  unfolding PlainLoop.run PlainLoop.step
  run-may_step l none es = refl
  run-may_step l (some e) es = refl

  -- With a strategy that sends no ping and is never stale, and events that leave it and the monitor
  -- no reason to act (no data is missing at a tick, no frame is the strategy's), the loop with the
  -- health checks goes through the states of the plain loop: handler, frames, backoff, status,
  -- reconnect flag and deferred commands are the same after any events.
  pub run-plain_events :
      (k : CheckedLoop St U R P H) (es : List (ℕ × Event U))
      → IsQuiet pings
      → LeaveBe k es
      → (run h strategy pings histogram display utf8 k es).loop
        ≡ PlainLoop.run h strategy display k.loop (plain_events es)
  unfolding run PlainLoop.run step PlainLoop.step
  run-plain_events k [] quiet leave = refl
  run-plain_events k ((now, e) ∷ es) quiet leave =
      let same =
        step_at_same h strategy pings histogram display utf8 now (k.loop).phase k e refl quiet
          leave.0 in
      run-plain_events (step h strategy pings histogram display utf8 now k e) es quiet leave.1
      ∙ ap (λ l. PlainLoop.run h strategy display l (plain_events es)) same
      ∙ sym (run-may_step k.loop (plain_event e) (plain_events es))
