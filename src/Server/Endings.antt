-- ===== src/Server/Endings.antt =====
-- How a server ends.
use Prim.Native.String.{String}
use shared_ws.Prelude.{
  ℕ, ◌≡◌, ◌∙◌, refl, ◌⊎◌, inl, inr, Bool, true, false, Option, none, some, List, [], ◌∷◌, arith,
  ◌+◌, ◌%◌, leb, Bool-cases, if◌then◌else◌,
}
use shared_ws.Types.Basic.{Result, ok, err}
use shared_ws.Server.Config.{WsServerConfig, WsServerRetryPolicy, is_exhausted}
use shared_ws.Server.Clearing.{end_connections-IsSame}
use shared_ws.Server.Lifecycle.{
  ManagedWsServerStatus, starting, listening, retrying, shutting_down, stopped, terminal, is_final,
  ManagedWsServerTerminalError, ServerShared, set_status, store_cause, Phase, binding, accepting,
  waiting, draining, publishing, aborting, finished, Server, Event, publishes, publish_terminal,
  end_connections, requests_shutdown, sees_shutdown, binds, accepts, sleeps, connection_ends,
  clients_gone, leave_lifecycle, on_failure, enter_accept, admit_connection, end_connection,
  on_bind, on_accept, bound, step_at, step, run, start, IoError, try_acquire,
  is_transient_accept_error, contains,
}

abbrev pub IsTerminated : {A : Type 0} → ServerShared A → Type 0
IsTerminated {A} s =
    (s.status ≡ terminal) × (e : ManagedWsServerTerminalError A) × (s.terminal_error ≡ some e)

-- The statuses of a server that binds, waits or accepts.
abbrev pub is_serving : ManagedWsServerStatus → Bool
is_serving starting = true
is_serving retrying = true
is_serving listening = true
is_serving _ = false

abbrev pub IsServing : {A : Type 0} → ServerShared A → Type 0
IsServing s = (is_serving s.status ≡ true) × (s.terminal_error ≡ none)

abbrev pub IsDraining : {A : Type 0} → ServerShared A → Type 0
IsDraining s = (s.status ≡ shutting_down) × (s.terminal_error ≡ none)

-- The cause is stored, and the status is still the one from before.
abbrev pub IsFailing : {A : Type 0} → ServerShared A → Type 0
IsFailing {A} s =
    (is_serving s.status ≡ true)
    × (e : ManagedWsServerTerminalError A) × (s.terminal_error ≡ some e)

abbrev pub IsRunning : {A : Type 0} → ServerShared A → Type 0
IsRunning s = (is_final s.status ≡ false) × (s.terminal_error ≡ none)

abbrev pub IsStopped : {A : Type 0} → ServerShared A → Type 0
IsStopped s = (s.status ≡ stopped) × (s.terminal_error ≡ none)

-- What the handle shows at each await of the server.
abbrev pub ShowsPhase : {A : Type 0} → Phase → ServerShared A → Type 0
ShowsPhase finished s = IsStopped s ⊎ IsTerminated s
ShowsPhase publishing s = IsFailing s
ShowsPhase aborting s = IsTerminated s
ShowsPhase draining s = IsDraining s
ShowsPhase binding s = IsServing s
ShowsPhase (accepting _) s = IsServing s
ShowsPhase (waiting _) s = IsServing s

abbrev pub Shows : {A : Type 0} → Server A → Type 0
Shows s = ShowsPhase s.phase s.shared

module _ {A : Type 0} where
  if-Shows : (b : Bool) (s t : Server A) → Shows s → Shows t → Shows (if b then s else t)
  if-Shows true s t hs ht = hs
  if-Shows false s t hs ht = ht

  set_status-IsServing :
      (s : ServerShared A) (status : ManagedWsServerStatus)
      → is_serving status ≡ true
      → IsServing s
      → IsServing (set_status s status)
  unfolding set_status
  set_status-IsServing s status n h = rw (h.1, set_status) (n, h.1)

  pub set_status_stopped :
      (s : ServerShared A) → s.terminal_error ≡ none → IsStopped (set_status s stopped)
  unfolding set_status
  set_status_stopped s n = rw (n, set_status) (refl, n)

  store_cause-IsFailing :
      (s : ServerShared A) (e : ManagedWsServerTerminalError A)
      → IsServing s
      → IsFailing (store_cause s e)
  unfolding store_cause
  store_cause-IsFailing s e h = (h.0, e, rw h.1 refl)

module _ {A W : Type 0} (config : WsServerConfig A W) (retry : WsServerRetryPolicy)
    (fault : Option ℕ) where
  leave_lifecycle-Shows :
      (s : Server A) → IsServing s.shared → Shows (leave_lifecycle config retry fault s)
  unfolding leave_lifecycle set_status
  leave_lifecycle-Shows s h = rw (h.1, set_status) (refl, h.1)

  on_failure-Shows :
      (s : Server A) (failure : String)
      → IsServing s.shared
      → Shows (on_failure config retry fault s failure)
  unfolding on_failure
  on_failure-Shows s failure h =
      elim (Bool-cases (is_exhausted retry ((s.consecutive_failures + 1) % 4294967296))) [
        | inl e ↦ rw (e, on_failure) (store_cause-IsFailing s.shared _ h)
        | inr e ↦ rw (e, on_failure) (set_status-IsServing s.shared retrying refl h)
      ]

  enter_accept-Shows :
      (limit : Option ℕ) (s : Server A) (n : ℕ)
      → IsServing s.shared
      → Shows (enter_accept config retry limit s n)
  unfolding enter_accept
  enter_accept-Shows none s n h = h
  enter_accept-Shows (some t) s n h = elim (Bool-cases (leb t n)) [
    | inl e ↦ rw (e, enter_accept) (store_cause-IsFailing s.shared _ h)
    | inr e ↦ rw (e, enter_accept) h
  ]

  admit_connection-IsServing :
      (s : Server A) → IsServing s.shared → IsServing (admit_connection config retry fault s).shared
  unfolding admit_connection try_acquire
  admit_connection-IsServing s h = ground arith

  on_bind-Shows :
      (s : Server A) (r : Result String (Option String))
      → IsServing s.shared
      → Shows (on_bind config retry fault s r)
  unfolding on_bind
  on_bind-Shows s (err failure) h = on_failure-Shows s failure h
  on_bind-Shows s (ok none) h =
      enter_accept-Shows fault (bound config retry fault s) 0
        (set_status-IsServing s.shared listening refl h)
  on_bind-Shows s (ok (some failure)) h =
      on_failure-Shows (bound config retry fault s) failure
        (set_status-IsServing s.shared listening refl h)

  on_accept-Shows :
      (s : Server A) (n : ℕ) (r : Result IoError (Unit {0}))
      → IsServing s.shared
      → Shows (on_accept config retry fault s n r)
  unfolding on_accept
  on_accept-Shows s n (ok _) h =
      enter_accept-Shows fault (admit_connection config retry fault s) (n + 1)
        (admit_connection-IsServing s h)
  on_accept-Shows s n (err e) h = elim (Bool-cases (is_transient_accept_error e)) [
    | inl t ↦ rw (t, on_accept) (enter_accept-Shows fault s n h)
    | inr t ↦ rw (t, on_accept) (on_failure-Shows s e.text h)
  ]

  -- What does not touch the status or the cause.
  same-ShowsPhase :
      (p : Phase) (s t : ServerShared A)
      → t.status ≡ s.status
      → t.terminal_error ≡ s.terminal_error
      → ShowsPhase p s
      → ShowsPhase p t
  same-ShowsPhase finished s t a b h = rw (a, b) h
  same-ShowsPhase publishing s t a b h = rw (a, b) h
  same-ShowsPhase aborting s t a b h = rw (a, b) h
  same-ShowsPhase draining s t a b h = rw (a, b) h
  same-ShowsPhase binding s t a b h = rw (a, b) h
  same-ShowsPhase (accepting n) s t a b h = rw (a, b) h
  same-ShowsPhase (waiting d) s t a b h = rw (a, b) h

  pub step_at-Shows :
      (p : Phase) (s : Server A) (e : Event)
      → s.phase ≡ p
      → ShowsPhase p s.shared
      → Shows (step_at config retry fault p s e)
  unfolding step_at end_connection publish_terminal
  step_at-Shows p s requests_shutdown n h = same-ShowsPhase s.phase s.shared _ refl refl (rw n h)
  step_at-Shows p s (connection_ends id) n h = elim (Bool-cases (contains id s.clients)) [
    | inl t ↦ rw (t, end_connection) (same-ShowsPhase s.phase s.shared _ refl refl (rw n h))
    | inr t ↦ rw (t, end_connection) (rw n h)
  ]
  step_at-Shows binding s (binds r) n h =
      if-Shows (s.shared).shutdown (leave_lifecycle config retry fault s)
        (on_bind config retry fault s r) (leave_lifecycle-Shows s h) (on_bind-Shows s r h)
  step_at-Shows (accepting a) s (accepts r) n h =
      if-Shows (s.shared).shutdown (leave_lifecycle config retry fault s)
        (on_accept config retry fault s a r) (leave_lifecycle-Shows s h) (on_accept-Shows s a r h)
  step_at-Shows (accepting a) s sees_shutdown n h =
      if-Shows (s.shared).shutdown (leave_lifecycle config retry fault s) s
        (leave_lifecycle-Shows s h) (rw n h)
  step_at-Shows (waiting d) s sleeps n h = h
  step_at-Shows (waiting d) s sees_shutdown n h =
      if-Shows (s.shared).shutdown (leave_lifecycle config retry fault s) s
        (leave_lifecycle-Shows s h) (rw n h)
  step_at-Shows publishing s publishes n h = (refl, h.1, h.2)
  step_at-Shows draining s clients_gone n h =
      let same = end_connections-IsSame config retry fault s s.clients in
      inl
        (set_status_stopped (end_connections config retry fault s s.clients).shared (same.1 ∙ h.1))
  step_at-Shows aborting s clients_gone n h =
      let same = end_connections-IsSame config retry fault s s.clients in
      inr (
        same-ShowsPhase aborting s.shared (end_connections config retry fault s s.clients).shared
          same.0 same.1 h)
  step_at-Shows p s e n h = rw n h

  pub run-Shows : (s : Server A) (es : List Event) → Shows s → Shows (run config retry fault s es)
  unfolding run step
  run-Shows s [] h = h
  run-Shows s (e ∷ es) h =
      run-Shows (step config retry fault s e) es (step_at-Shows s.phase s e refl h)

  -- Whatever happens to a server that is spawned: it ends with the status `Stopped` and no terminal
  -- error, or with `Terminal` and an error. Until then it shows `Starting`, `Retrying` or
  -- `Listening` while it binds, waits or accepts, `ShuttingDown` while it drains, both with no
  -- terminal error; and `Terminal`, with its error, while its connections are aborted, after a time
  -- in which the error is stored and one of the first three statuses still shows.
  pub run-start-ShowsPhase :
      (es : List Event)
      → ShowsPhase
          (run config retry fault (start config retry fault) es).phase
          (run config retry fault (start config retry fault) es).shared
  unfolding start
  run-start-ShowsPhase es = run-Shows (start config retry fault) es (refl, refl)
