-- ===== src/Managed/GivesUp.antt =====
-- The managed loop under a policy that never reconnects.
use Prim.Native.String.{String}
use shared_ws.Prelude.{Bool, true, false, ◌≡◌, ◌⊎◌, inl, inr, refl, List, [], ◌∷◌}
use shared_ws.Types.Basic.{ok, err, WebSocketError, WsDisconnectCause, abort, backoff_reconnect}
use shared_ws.Types.Endpoint.{Endpoint}
use shared_ws.Types.Strategy.{ReconnectStrategy}
use shared_ws.Managed.Io.{Sink, Conn, Io}
use shared_ws.Managed.Session.{Flow, stays, breaks, returns, round}
use shared_ws.Managed.Loop.{
  Phase, connecting, session, waiting, stopped, Loop, Event, connects, selects, wakes,
  enter_connecting, leave_session, session_of, reconnect_delay, start_wait, or_disconnect,
  after_auth, open_session, disconnect, opened, after_round, step_at, step, run, start,
}

-- Every disconnect is one that the endpoint aborts on, or that backs off with a strategy which does
-- not retry.
abbrev pub GivesUp : {St M U J R : Type 0} → Endpoint St M U J → ReconnectStrategy R → Type 0
GivesUp {St} {R = R} h strategy =
    (st : St) (cause : WsDisconnectCause) (r : R)
    → (h.classify_disconnect st cause ≡ abort)
      ⊎ ((h.classify_disconnect st cause ≡ backoff_reconnect) × (strategy.should_retry r ≡ false))

-- Whether a connection attempt was answered, before an event or by it.
abbrev answered_after : {U : Type 0} → Event U → Bool → Bool
answered_after (connects _) before = true
answered_after (selects _) before = before
answered_after (wakes _) before = before

abbrev pub answered_by : {U : Type 0} → List (Event U) → Bool → Bool
answered_by [] before = before
answered_by (e ∷ es) before = answered_by es (answered_after e before)

-- Where the loop may stand when an attempt was answered, or not yet.
abbrev pub InOneLife : Bool → Phase → Type 0
InOneLife answered connecting = answered ≡ false
InOneLife answered (session _ _) = Unit
InOneLife answered (waiting _) = ⊥
InOneLife answered stopped = Unit

abbrev pub IsOneLife : {St U R : Type 0} → Bool → Loop St U R → Type 0
IsOneLife answered l = InOneLife answered l.phase × (l.is_reconnect ≡ false)

module _ {St M U J R : Type 0} (h : Endpoint St M U J) (strategy : ReconnectStrategy R)
    (display : WebSocketError → String) (gives_up : GivesUp h strategy) where
  disconnect-IsOneLife :
      (l : Loop St U R) (cause : WsDisconnectCause) (answered : Bool)
      → l.is_reconnect ≡ false
      → IsOneLife answered (disconnect h strategy l cause)
  unfolding disconnect reconnect_delay start_wait
  disconnect-IsOneLife l cause answered n = elim (gives_up l.handler cause l.reconnect) [
    | inl a ↦ rw (a, disconnect) (tt, n)
    | inr b ↦ rw (b.0, b.1, disconnect) (tt, n)
  ]

  or_disconnect-IsOneLife :
      (context : String) (r : Io St) (l : Loop St U R) (rest : Conn St → Loop St U R)
      → l.is_reconnect ≡ false
      → ((c : Conn St) → IsOneLife true (rest c))
      → IsOneLife true (or_disconnect h strategy display context r l rest)
  or_disconnect-IsOneLife context (ok _, c) l rest n k = k c
  or_disconnect-IsOneLife context (err e, c) l rest n k =
      disconnect-IsOneLife (record l { handler = c.handler })
        (WsDisconnectCause.internal_error context (display e)) true n

  open_session-IsOneLife :
      (l : Loop St U R) (sink : Sink)
      → l.is_reconnect ≡ false
      → IsOneLife true (open_session h strategy display l sink)
  unfolding open_session
  open_session-IsOneLife l sink n =
      or_disconnect-IsOneLife "auth_send" _ (opened h strategy display l)
        (after_auth h strategy display (opened h strategy display l)) n
        λ c.
          or_disconnect-IsOneLife "subscription_replay" _ (opened h strategy display l) _ n
            λ c'. (tt, n)

  after_round-IsOneLife :
      (l : Loop St U R) (f : Flow St U) (answered : Bool)
      → l.is_reconnect ≡ false
      → IsOneLife answered (after_round h strategy display l f)
  unfolding after_round
  after_round-IsOneLife l (stays s) answered n = (tt, n)
  after_round-IsOneLife l (breaks cause s) answered n =
      disconnect-IsOneLife (leave_session l s) cause answered n
  after_round-IsOneLife l (returns s) answered n = (tt, n)

  step_at-IsOneLife :
      (p : Phase) (l : Loop St U R) (e : Event U) (answered : Bool)
      → l.phase ≡ p
      → InOneLife answered p
      → l.is_reconnect ≡ false
      → IsOneLife (answered_after e answered) (step_at h strategy display p l e)
  unfolding step_at
  step_at-IsOneLife connecting l (connects (ok sink)) answered q i n =
      open_session-IsOneLife l sink n
  step_at-IsOneLife connecting l (connects (err e)) answered q i n =
      disconnect-IsOneLife l (WsDisconnectCause.internal_error "connect" (display e)) true n
  step_at-IsOneLife connecting l (selects input) answered q i n = (rw q i, n)
  step_at-IsOneLife connecting l (wakes w) answered q i n = (rw q i, n)
  step_at-IsOneLife (session authenticated writer) l (selects input) answered q i n =
      after_round-IsOneLife l (round h display (session_of l authenticated writer) input) answered n
  step_at-IsOneLife (session authenticated writer) l (connects r) answered q i n = (rw q tt, n)
  step_at-IsOneLife (session authenticated writer) l (wakes w) answered q i n = (rw q tt, n)
  step_at-IsOneLife (waiting d) l e answered q i n = absurd i
  step_at-IsOneLife stopped l (connects r) answered q i n = (rw q tt, n)
  step_at-IsOneLife stopped l e answered q i n = (rw q tt, n)

  run-IsOneLife :
      (l : Loop St U R) (es : List (Event U)) (answered : Bool)
      → IsOneLife answered l
      → IsOneLife (answered_by es answered) (run h strategy display l es)
  unfolding run step
  run-IsOneLife l [] answered i = i
  run-IsOneLife l (e ∷ es) answered (i, n) =
      run-IsOneLife (step h strategy display l e) es (answered_after e answered)
        (step_at-IsOneLife l.phase l e answered refl i n)

  -- Under an endpoint and a strategy that give up on every disconnect, whatever happens, the managed
  -- loop makes one connection attempt: it never waits for another, once the attempt was answered it
  -- never stands at a connect again, and it never takes a connection for a reconnect.
  pub run-start-IsOneLife :
      (handler : St) (r : R) (es : List (Event U))
      → IsOneLife
          (answered_by es false)
          (run h strategy display (start h strategy display handler r) es)
  unfolding start enter_connecting
  run-start-IsOneLife handler r es =
      run-IsOneLife (start h strategy display handler r) es false (refl, refl)
