-- ===== src/Managed/Pending.antt =====
-- The commands that wait for authentication, across failures and reconnects.
use Prim.Native.String.{String}
use shared_ws.Prelude.{
  Option, none, some, ◌≡◌, ◌≢◌, ◌⊎◌, inl, inr, refl, sym, ◌∙◌, List, [], ◌∷◌, ◌++◌, append-nil,
  append_assoc, ap, arith,
}
use shared_ws.Frame.{WsFrame}
use shared_ws.Types.Basic.{
  Result, ok, err, WebSocketError, WsDisconnectCause, WsParseOutcome, WsMessageAction,
}
use shared_ws.Types.Endpoint.{Endpoint}
use shared_ws.Types.Strategy.{ReconnectStrategy}
use shared_ws.Managed.Io.{ManagedWsCommand, Sink}
use shared_ws.Managed.Session.{
  Session, Flow, stays, breaks, returns, Input, received, read, round, on_command, on_outcome,
  on_frame, on_action, on_server_error,
}
use shared_ws.Managed.Loop.{
  Phase, connecting, session, waiting, Loop, Event, connects, selects, wakes, enter_connecting,
  leave_session, session_of, disconnect, opened, open_session, after_round, step_at, step, run,
}
use shared_ws.Managed.Cases.{open_session_cases}
use shared_ws.Managed.Deferral.{Confirms}

-- Nothing is taken out of the queue, and what is new comes last.
abbrev pub Extends : {U : Type 0} → List (ManagedWsCommand U) → List (ManagedWsCommand U) → Type 0
Extends {U} old now = (new : List (ManagedWsCommand U)) × (now ≡ old ++ new)

Extends-same : {U : Type 0} (old now : List (ManagedWsCommand U)) → now ≡ old → Extends old now
Extends-same old now e = ([], e ∙ sym (append-nil old))

abbrev session_after : {St U : Type 0} → Flow St U → Session St U
session_after (stays s) = s
session_after (breaks _ s) = s
session_after (returns s) = s

module _ {St M U J : Type 0} (h : Endpoint St M U J) (display : WebSocketError → String) where
  queues_or_not :
      (s : Session St U) (c : ManagedWsCommand U)
      → let now = (session_after (on_command h display s (some c))).pending_auth_commands in
        (now ≡ s.pending_auth_commands) ⊎ (now ≡ s.pending_auth_commands ++ c ∷ [])
  unfolding on_command
  queues_or_not s (ManagedWsCommand.send p) = ground arith
  queues_or_not s c = ground arith

  on_command-Extends :
      (s : Session St U) (c : Option (ManagedWsCommand U))
      → Extends s.pending_auth_commands
          (session_after (on_command h display s c)).pending_auth_commands
  unfolding on_command
  on_command-Extends s none = Extends-same s.pending_auth_commands s.pending_auth_commands refl
  on_command-Extends s (some c) = elim (queues_or_not s c) [
    | inl e ↦
        Extends-same s.pending_auth_commands
          (session_after (on_command h display s (some c))).pending_auth_commands e
    | inr e ↦ (c ∷ [], e)
  ]

  on_outcome-pending :
      (s : Session St U) (o : Result String (WsParseOutcome M J))
      → o ≢ ok (WsParseOutcome.message WsMessageAction.session_authenticated)
      → (session_after (on_outcome h display s o)).pending_auth_commands ≡ s.pending_auth_commands
  unfolding on_action on_server_error
  on_outcome-pending s (err _) n = refl
  on_outcome-pending s (ok (WsParseOutcome.server_error code text value)) n = ground arith
  on_outcome-pending s (ok (WsParseOutcome.message WsMessageAction.session_authenticated)) n =
      absurd (n refl)
  on_outcome-pending s (ok (WsParseOutcome.message action)) n = ground arith

  on_frame-pending :
      (s : Session St U) (frame : WsFrame)
      → ¬ Confirms h display (s.conn).handler frame
      → (session_after (on_frame h display s frame)).pending_auth_commands ≡ s.pending_auth_commands
  unfolding on_frame
  on_frame-pending s frame n =
      let (parsed, handler) = h.parse_frame (h.on_inbound_frame (s.conn).handler frame) frame in
      on_outcome-pending (record s { conn = record (s.conn) { handler = handler } }) parsed n

  -- No frame among the inputs is read as the confirmation.
  abbrev pub Unconfirmed : St → Input U → Type 0
  Unconfirmed handler (read (some (ok frame))) = ¬ Confirms h display handler frame
  Unconfirmed handler _ = Unit

  round-Extends :
      (s : Session St U) (i : Input U)
      → Unconfirmed (s.conn).handler i
      → Extends s.pending_auth_commands (session_after (round h display s i)).pending_auth_commands
  unfolding round
  round-Extends s (received c) n = on_command-Extends s c
  round-Extends s (read (some (ok frame))) n =
      Extends-same s.pending_auth_commands
        (session_after (on_frame h display s frame)).pending_auth_commands
        (on_frame-pending s frame n)
  round-Extends s (read (some (err e))) n =
      Extends-same s.pending_auth_commands s.pending_auth_commands refl
  round-Extends s (read none) n = Extends-same s.pending_auth_commands s.pending_auth_commands refl

  module _ {R : Type 0} (strategy : ReconnectStrategy R) where
    disconnect-pending :
        (l : Loop St U R) (cause : WsDisconnectCause)
        → (disconnect h strategy l cause).pending_auth_commands ≡ l.pending_auth_commands
    unfolding disconnect enter_connecting
    disconnect-pending l cause = ground arith

    open_session-pending :
        (l : Loop St U R) (sink : Sink)
        → (open_session h strategy display l sink).pending_auth_commands ≡ l.pending_auth_commands
    open_session-pending l sink =
        open_session_cases h strategy display
          (λ l'. l'.pending_auth_commands ≡ l.pending_auth_commands) l sink
          (λ cause handler.
            disconnect-pending (record (opened h strategy display l) { handler = handler }) cause)
          (λ b w handler. refl)

    after_round-pending :
        (l : Loop St U R) (f : Flow St U)
        → (after_round h strategy display l f).pending_auth_commands
          ≡ (session_after f).pending_auth_commands
    unfolding after_round
    after_round-pending l (stays s) = refl
    after_round-pending l (breaks cause s) = disconnect-pending (leave_session l s) cause
    after_round-pending l (returns s) = refl

    abbrev pub UnconfirmedEvent : Loop St U R → Event U → Type 0
    UnconfirmedEvent l (selects i) = Unconfirmed l.handler i
    UnconfirmedEvent l _ = Unit

    step_at-Extends :
        (p : Phase) (l : Loop St U R) (e : Event U)
        → UnconfirmedEvent l e
        → Extends l.pending_auth_commands (step_at h strategy display p l e).pending_auth_commands
    unfolding step_at enter_connecting
    step_at-Extends connecting l (connects (ok sink)) n =
        Extends-same l.pending_auth_commands _ (open_session-pending l sink)
    step_at-Extends connecting l (connects (err e)) n =
        Extends-same l.pending_auth_commands _
          (disconnect-pending l (WsDisconnectCause.internal_error "connect" (display e)))
    step_at-Extends (session b w) l (selects i) n =
        let (new, e) = round-Extends (session_of l b w) i n in
        (new, after_round-pending l (round h display (session_of l b w) i) ∙ e)
    step_at-Extends (waiting d) l (wakes w) n =
        ([], ground (arith, append-nil l.pending_auth_commands))
    step_at-Extends q l e n = Extends-same l.pending_auth_commands l.pending_auth_commands refl

    -- Each event is met at a state at which it is no confirmation.
    abbrev pub NeverConfirmed : Loop St U R → List (Event U) → Type 0
    NeverConfirmed l [] = Unit
    NeverConfirmed l (e ∷ es) =
        UnconfirmedEvent l e × NeverConfirmed (step h strategy display l e) es

    -- A queued command is not lost: until a frame confirms the session, whatever fails, closes and
    -- reconnects meanwhile, the queue keeps what it had, in order, and only grows at its end.
    pub run-Extends :
        (l : Loop St U R) (es : List (Event U))
        → NeverConfirmed l es
        → Extends l.pending_auth_commands (run h strategy display l es).pending_auth_commands
    unfolding run step
    run-Extends l [] n = Extends-same l.pending_auth_commands l.pending_auth_commands refl
    run-Extends l (e ∷ es) n =
        let (new, q) = step_at-Extends l.phase l e n.0 in
        let (more, r) = run-Extends (step h strategy display l e) es n.1 in
        (
          new ++ more,
          r
              ∙ ap (λ (old : List (ManagedWsCommand U)). old ++ more) q
              ∙ append_assoc l.pending_auth_commands new more,
        )
