-- ===== src/Managed/Reconnects.antt =====
-- What a reconnect carries over: the flag given to the endpoint, and the commands of the delay.
use Prim.Native.String.{String}
use native.Mathlib.Nat.{add-zero, add_assoc}
use shared_ws.Prelude.{
  ℕ, ◌+◌, ◌<◌, Bool, false, none, some, ◌≡◌, ◌≢◌, refl, ◌∙◌, ap, List, [], ◌∷◌, arith, ltb,
}
use shared_ws.Types.Basic.{ok, err, WebSocketError, WsDisconnectCause}
use shared_ws.Types.Endpoint.{Endpoint}
use shared_ws.Types.Strategy.{ReconnectStrategy}
use shared_ws.Managed.Io.{ManagedWsCommand, Writer}
use shared_ws.Managed.Session.{Flow, stays, breaks, returns, round}
use shared_ws.Managed.Loop.{
  Phase, connecting, session, waiting, Loop, Event, connects, selects, wakes, enter_connecting,
  leave_session, session_of, wait_goes_on, disconnect, opened, after_round, step_at, step, run,
  start,
}
use shared_ws.Managed.Cases.{open_session_cases}
use shared_ws.Managed.Persistence.{asks_shutdown}

-- 1 for an answer of the transport to a connection attempt.
abbrev pub answers : {U : Type 0} → Phase → Event U → ℕ
answers connecting (connects _) = 1
answers _ _ = 0

-- `n` attempts have been answered: only then is the loop past the first attempt, and an attempt is
-- flagged as a reconnect exactly if there was one before.
record Counts {St U R : Type 0} (l : Loop St U R) (n : ℕ) : Type 0 where
  begun : l.phase ≢ connecting → 0 < n
  flagged : l.phase ≡ connecting → l.is_reconnect ≡ ltb 0 n

begun_past :
    {St U R : Type 0} {b : Bool} {w : Writer} (l : Loop St U R) (n : ℕ)
    → Counts l n
    → l.phase ≡ session b w
    → 0 < n + 0
begun_past l n k p = ground arith

begun_waiting :
    {St U R : Type 0} {d : ℕ} (l : Loop St U R) (n : ℕ) → Counts l n → l.phase ≡ waiting d → 0 < n
begun_waiting l n k p = ground arith

module _ {St M U J R : Type 0} (h : Endpoint St M U J) (strategy : ReconnectStrategy R) where
  disconnect-Counts :
      (l : Loop St U R) (cause : WsDisconnectCause) (n : ℕ)
      → 0 < n
      → Counts (disconnect h strategy l cause) n
  unfolding disconnect enter_connecting
  disconnect-Counts l cause n p = ground arith

  module _ (display : WebSocketError → String) where
    after_round-Counts :
        (l : Loop St U R) (f : Flow St U) (n : ℕ)
        → 0 < n
        → Counts (after_round h strategy display l f) n
    unfolding after_round
    after_round-Counts l (stays s) n p = ground arith
    after_round-Counts l (breaks cause s) n p = disconnect-Counts (leave_session l s) cause n p
    after_round-Counts l (returns s) n p = ground arith

    step_at-Counts :
        (p : Phase) (l : Loop St U R) (e : Event U) (n : ℕ)
        → l.phase ≡ p
        → Counts l n
        → Counts (step_at h strategy display p l e) (n + answers p e)
    unfolding step_at enter_connecting
    step_at-Counts connecting l (connects (ok sink)) n p k =
        open_session_cases h strategy display (λ l'. Counts l' (n + 1)) l sink
          (λ cause handler.
            disconnect-Counts (record (opened h strategy display l) { handler = handler }) cause
              (n + 1) (omega arith))
          (λ b w handler. ground arith)
    step_at-Counts connecting l (connects (err e)) n p k =
        disconnect-Counts l (WsDisconnectCause.internal_error "connect" (display e)) (n + 1)
          (omega arith)
    step_at-Counts (session b w) l (selects i) n p k =
        after_round-Counts l (round h display (session_of l b w) i) (n + 0) (begun_past l n k p)
    step_at-Counts (waiting d) l (wakes w) n p k = let begun = begun_waiting l n k p in ground arith
    step_at-Counts q l e n p k = rw (add-zero n) k

    -- The attempts answered while the events are handled.
    pub attempts : Loop St U R → List (Event U) → ℕ
    attempts l [] = 0
    attempts l (e ∷ es) = answers l.phase e + attempts (step h strategy display l e) es

    run-Counts :
        (l : Loop St U R) (es : List (Event U)) (n : ℕ)
        → Counts l n
        → Counts (run h strategy display l es) (n + attempts l es)
    unfolding run step attempts
    run-Counts l [] n k = rw (add-zero n) k
    run-Counts l (e ∷ es) n k =
        rw
          (← add_assoc n (answers l.phase e) (attempts (step_at h strategy display l.phase l e) es))
          (run-Counts (step_at h strategy display l.phase l e) es (n + answers l.phase e)
            (step_at-Counts l.phase l e n refl k))

    start-Counts : (handler : St) (r : R) → Counts (start h strategy display handler r) 0
    unfolding start enter_connecting
    start-Counts handler r = ground arith

    -- Whenever the loop is about to connect, the flag with which it will tell the endpoint of the
    -- connection says exactly whether an attempt was made before.
    pub is_reconnect-attempts :
        (handler : St) (r : R) (es : List (Event U))
        → (run h strategy display (start h strategy display handler r) es).phase ≡ connecting
        → (run h strategy display (start h strategy display handler r) es).is_reconnect
          ≡ ltb 0 (attempts (start h strategy display handler r) es)
    is_reconnect-attempts handler r es e =
        let first = start h strategy display handler r in
        let counts = run-Counts first es 0 (start-Counts handler r) in
        counts.flagged e ∙ ap (ltb 0) (omega arith)

    -- A command that comes during the reconnect delay has the effect of the delay running out, and
    -- no other: unless it is a shutdown, it is dropped, and neither written nor queued.
    pub wakes-command :
        (l : Loop St U R) {delay : ℕ} (c : ManagedWsCommand U)
        → l.phase ≡ waiting delay
        → asks_shutdown (some c) ≡ false
        → step h strategy display l (wakes (some (some c))) ≡ step h strategy display l (wakes none)
    unfolding step step_at wait_goes_on
    wakes-command l (ManagedWsCommand.send payload) p a = rw (p, step, step_at) refl
    wakes-command l c p a = ground arith
