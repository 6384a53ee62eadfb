-- ===== src/Server/Handle/Dispatch.antt =====
-- What `dispatch` answers while the server runs beside it.
use shared_ws.Prelude.{ℕ, ◌≡◌, ◌∙◌, refl, ◌⊎◌, inl, inr, Option, none, some, List, [], ◌∷◌, arith}
use shared_ws.Types.Basic.{Result, ok, err}
use shared_ws.Server.Config.{WsServerConfig, WsServerRetryPolicy}
use shared_ws.Server.Lifecycle.{
  ManagedWsServerStatus, starting, listening, retrying, shutting_down, stopped, terminal,
  ManagedWsServerTerminalError, ServerShared, Phase, binding, accepting, waiting, draining,
  publishing, publishes, publish_terminal, clients_gone, aborting, finished, Server, Event,
  requests_shutdown, connection_ends, end_connection, step_at, step, run, start,
}
use shared_ws.Server.Endings.{
  ShowsPhase, Shows, IsServing, IsDraining, IsFailing, IsTerminated, IsStopped, step_at-Shows,
  run-start-ShowsPhase, run-Shows,
}
use shared_ws.Server.Clearing.{end_connections-IsSame}
use shared_ws.Server.Handle.{
  ManagedWsServerDispatchError, terminated, not_running, delivered, status_snapshot, reread_cause,
  dispatch_at, dispatch_unless, dispatch,
}

-- The answer in terms of the three states that the call reads.
abbrev pub Answers :
    {A : Type 0}
    → ServerShared A
    → ServerShared A
    → ServerShared A
    → Option ℕ
    → Result (ManagedWsServerDispatchError A) ℕ
    → Type 0
Answers first second third sent (ok n) =
    (first.terminal_error ≡ none)
    × ((second.status ≡ starting) ⊎ (second.status ≡ retrying) ⊎ (second.status ≡ listening))
    × (n ≡ delivered sent)
Answers first second third sent (err not_running) =
    (first.terminal_error ≡ none)
    × (second.terminal_error ≡ none)
    × ((second.status ≡ shutting_down) ⊎ (second.status ≡ stopped))
Answers first second third sent (err (terminated e)) = third.terminal_error ≡ some e

-- What a cause that is stored is at the end of a step or a run.
abbrev KeepsCause : {A : Type 0} → ServerShared A → ServerShared A → Type 0
KeepsCause {A} s t =
    (e : ManagedWsServerTerminalError A) → s.terminal_error ≡ some e → t.terminal_error ≡ some e

module _ {A W : Type 0} (config : WsServerConfig A W) (retry : WsServerRetryPolicy)
    (fault : Option ℕ) where
  end_connection-cause :
      (s : Server A) (id : ℕ)
      → (end_connection config retry fault s id).shared.terminal_error ≡ s.shared.terminal_error
  unfolding end_connection
  end_connection-cause s id = ground arith

  step_at-KeepsCause :
      (p : Phase) (s : Server A) (event : Event)
      → ShowsPhase p s.shared
      → KeepsCause s.shared (step_at config retry fault p s event).shared
  unfolding step_at publish_terminal
  step_at-KeepsCause p s requests_shutdown h e c = c
  step_at-KeepsCause p s (connection_ends id) h e c = end_connection-cause s id ∙ c
  step_at-KeepsCause binding s event h e c = ground arith
  step_at-KeepsCause (accepting a) s event h e c = ground arith
  step_at-KeepsCause (waiting d) s event h e c = ground arith
  step_at-KeepsCause draining s event h e c = ground arith
  step_at-KeepsCause publishing s publishes h e c = c
  step_at-KeepsCause aborting s clients_gone h e c =
      (end_connections-IsSame config retry fault s s.clients).1 ∙ c
  step_at-KeepsCause p s event h e c = c

  -- A server that has a terminal cause keeps it.
  run-KeepsCause :
      (s : Server A) (events : List Event)
      → Shows s
      → KeepsCause s.shared (run config retry fault s events).shared
  unfolding run step
  run-KeepsCause s [] h e c = c
  run-KeepsCause s (event ∷ events) h e c =
      run-KeepsCause (step config retry fault s event) events
        (step_at-Shows config retry fault s.phase s event refl h) e
        (step_at-KeepsCause s.phase s event h e c)

module _ {A : Type 0} where
  -- A final status tells whether there is a cause, and no other does.
  abbrev ShowsStatus : ServerShared A → Type 0
  ShowsStatus s = IsServing s ⊎ IsDraining s ⊎ IsFailing s ⊎ IsStopped s ⊎ IsTerminated s

  ShowsPhase-cases : (p : Phase) (s : ServerShared A) → ShowsPhase p s → ShowsStatus s
  ShowsPhase-cases binding s h = inl h
  ShowsPhase-cases (accepting a) s h = inl h
  ShowsPhase-cases (waiting d) s h = inl h
  ShowsPhase-cases draining s h = inr (inl h)
  ShowsPhase-cases publishing s h = inr (inr (inl h))
  ShowsPhase-cases aborting s h = inr (inr (inr (inr h)))
  ShowsPhase-cases finished s h = inr (inr (inr h))

  terminal_has_cause :
      (s : ServerShared A)
      → ShowsStatus s
      → s.status ≡ terminal
      → (e : ManagedWsServerTerminalError A) × (s.terminal_error ≡ some e)
  terminal_has_cause s (inl r) t = ground (arith, r.0, t)
  terminal_has_cause s (inr (inl d)) t = ground (arith, d.0, t)
  terminal_has_cause s (inr (inr (inl (_, e, c)))) t = (e, c)
  terminal_has_cause s (inr (inr (inr (inl p)))) t = ground (arith, p.0, t)
  terminal_has_cause s (inr (inr (inr (inr (_, e, c))))) t = (e, c)

  ended_has_no_cause :
      (s : ServerShared A)
      → ShowsStatus s
      → (s.status ≡ shutting_down) ⊎ (s.status ≡ stopped)
      → s.terminal_error ≡ none
  ended_has_no_cause s (inl r) t = r.1
  ended_has_no_cause s (inr (inl d)) t = d.1
  ended_has_no_cause s (inr (inr (inl f))) (inl t) = ground (arith, f.0, t)
  ended_has_no_cause s (inr (inr (inl f))) (inr t) = ground (arith, f.0, t)
  ended_has_no_cause s (inr (inr (inr (inl p)))) t = p.1
  ended_has_no_cause s (inr (inr (inr (inr q)))) (inl t) = ground (arith, q.0, t)
  ended_has_no_cause s (inr (inr (inr (inr q)))) (inr t) = ground (arith, q.0, t)

  -- The status decides, and a terminal one has its cause at the second read.
  dispatch_at-Answers :
      (status : ManagedWsServerStatus) (first second third : ServerShared A) (sent : Option ℕ)
      → second.status ≡ status
      → ShowsStatus second
      → first.terminal_error ≡ none
      → KeepsCause second third
      → Answers first second third sent (dispatch_at status third sent)
  unfolding dispatch_at reread_cause
  dispatch_at-Answers starting first second third sent e h n k = (n, inl e, refl)
  dispatch_at-Answers retrying first second third sent e h n k = (n, inr (inl e), refl)
  dispatch_at-Answers listening first second third sent e h n k = (n, inr (inr e), refl)
  dispatch_at-Answers shutting_down first second third sent e h n k =
      (n, ended_has_no_cause second h (inl e), inl e)
  dispatch_at-Answers stopped first second third sent e h n k =
      (n, ended_has_no_cause second h (inr e), inr e)
  dispatch_at-Answers terminal first second third sent e h n k =
      let cause = terminal_has_cause second h e in rw (k cause.0 cause.1) refl

  dispatch_unless-Answers :
      (cause : Option (ManagedWsServerTerminalError A)) (first second third : ServerShared A)
      (sent : Option ℕ)
      → first.terminal_error ≡ cause
      → ShowsStatus second
      → KeepsCause first third
      → KeepsCause second third
      → Answers first second third sent (dispatch_unless cause second.status third sent)
  unfolding dispatch_unless
  dispatch_unless-Answers none first second third sent c h k1 k2 =
      dispatch_at-Answers second.status first second third sent refl h c k2
  dispatch_unless-Answers (some e) first second third sent c h k1 k2 = k1 e c

module _ {A W C : Type 0} (config : WsServerConfig A W) (retry : WsServerRetryPolicy)
    (fault : Option ℕ) where
  -- While the server goes on between its reads, those between the two writes of a terminal end
  -- among them, `dispatch` answers with the number of the connections that the command was queued
  -- to, and 0 when there is none, only if the first read found no terminal error and the second a
  -- server that was starting, retrying or listening; that the server is no longer running only if
  -- it was shutting down or had stopped by the second read, with no terminal error; and that it was
  -- terminated only with the error that the handle keeps.
  pub dispatch-Answers :
      (send : C → Option ℕ) (command : C) (before between after : List Event)
      (first second third : Server A)
      → first ≡ run config retry fault (start config retry fault) before
      → second ≡ run config retry fault first between
      → third ≡ run config retry fault second after
      → Answers first.shared second.shared third.shared
          (send command)
          (dispatch send first.shared second.shared third.shared command)
  unfolding dispatch status_snapshot
  dispatch-Answers send command before between after first second third a b c =
      let shows_first : Shows first = rw a (run-start-ShowsPhase config retry fault before) in
      let shows_second : Shows second =
        rw b (run-Shows config retry fault first between shows_first) in
      let keeps = run-KeepsCause config retry fault in
      dispatch_unless-Answers first.shared.terminal_error first.shared second.shared third.shared
        (send command) refl (ShowsPhase-cases second.phase second.shared shows_second)
        (λ e k.
          rw c (keeps second after shows_second e (rw b (keeps first between shows_first e k))))
        (λ e k. rw c (keeps second after shows_second e k))
