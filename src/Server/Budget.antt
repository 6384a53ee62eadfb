-- ===== src/Server/Budget.antt =====
-- The connection budget of a server.
use Prim.Native.String.{String}
use shared_ws.Prelude.{
  ℕ, suc, ◌+◌, ◌≤◌, ◌≡◌, ◌∙◌, refl, Bool, true, false, Option, none, some, List, [], ◌∷◌, arith,
  length, if◌then◌else◌,
}
use shared_ws.Types.Basic.{Result, ok, err}
use shared_ws.Server.Config.{WsServerConfig, WsServerRetryPolicy}
use shared_ws.Server.Lifecycle.{
  publishing, publishes, publish_terminal, end_connections, run, step, start, ManagedWsServerStatus,
  ServerShared, set_status, store_cause, try_acquire, Phase, binding, accepting, waiting, draining,
  aborting, Server, Event, requests_shutdown, sees_shutdown, binds, accepts, sleeps,
  connection_ends, clients_gone, without, contains, leave_lifecycle, on_failure, enter_accept,
  admit_connection, end_connection, on_bind, on_accept, bound, listening, stopped, step_at, IoError,
  is_transient_accept_error,
}

pub length-without :
    (id : ℕ) (xs : List ℕ) → contains id xs ≡ true → suc (length (without id xs)) ≡ length xs
length-without id [] h = cc
length-without id (x ∷ xs) h = ground (arith, length-without id xs)

pub set_status-active :
    {A : Type 0} (s : ServerShared A) (status : ManagedWsServerStatus)
    → (set_status s status).active ≡ s.active
unfolding set_status
set_status-active s status = ground arith

module _ {A W : Type 0} (config : WsServerConfig A W) (retry : WsServerRetryPolicy)
    (fault : Option ℕ) where
  -- The slots taken are those of the connections whose tasks run, within the limit.
  abbrev pub IsBudgeted : Server A → Type 0
  IsBudgeted s = (s.shared.active ≡ length s.clients) × (s.shared.active ≤ config.max_connections)

  on_failure-IsBudgeted :
      (s : Server A) (failure : String)
      → IsBudgeted s
      → IsBudgeted (on_failure config retry fault s failure)
  unfolding on_failure set_status store_cause
  on_failure-IsBudgeted s failure h = ground arith

  enter_accept-IsBudgeted :
      (s : Server A) (n : ℕ) → IsBudgeted s → IsBudgeted (enter_accept config retry fault s n)
  unfolding enter_accept store_cause
  enter_accept-IsBudgeted s n h = ground arith

  admit_connection-IsBudgeted :
      (s : Server A) → IsBudgeted s → IsBudgeted (admit_connection config retry fault s)
  unfolding admit_connection try_acquire
  admit_connection-IsBudgeted s h = ground arith

  end_connection-IsBudgeted :
      (s : Server A) (id : ℕ) → IsBudgeted s → IsBudgeted (end_connection config retry fault s id)
  unfolding end_connection
  end_connection-IsBudgeted s id h = ground (arith, length-without id s.clients)

  end_connections-IsBudgeted :
      (s : Server A) (ids : List ℕ)
      → IsBudgeted s
      → IsBudgeted (end_connections config retry fault s ids)
  unfolding end_connections
  end_connections-IsBudgeted s [] h = h
  end_connections-IsBudgeted s (id ∷ ids) h =
      end_connections-IsBudgeted (end_connection config retry fault s id) ids
        (end_connection-IsBudgeted s id h)

  leave_lifecycle-IsBudgeted :
      (s : Server A) → IsBudgeted s → IsBudgeted (leave_lifecycle config retry fault s)
  unfolding leave_lifecycle set_status
  leave_lifecycle-IsBudgeted s h = ground arith

  if-IsBudgeted :
      (b : Bool) (s t : Server A) → IsBudgeted s → IsBudgeted t → IsBudgeted (if b then s else t)
  if-IsBudgeted true s t hs ht = hs
  if-IsBudgeted false s t hs ht = ht

  bound-IsBudgeted : (s : Server A) → IsBudgeted s → IsBudgeted (bound config retry fault s)
  bound-IsBudgeted s h = ground (arith, set_status-active s.shared listening)

  on_bind-IsBudgeted :
      (s : Server A) (r : Result String (Option String))
      → IsBudgeted s
      → IsBudgeted (on_bind config retry fault s r)
  unfolding on_bind
  on_bind-IsBudgeted s (err failure) h = on_failure-IsBudgeted s failure h
  on_bind-IsBudgeted s (ok none) h =
      enter_accept-IsBudgeted (bound config retry fault s) 0 (bound-IsBudgeted s h)
  on_bind-IsBudgeted s (ok (some failure)) h =
      on_failure-IsBudgeted (bound config retry fault s) failure (bound-IsBudgeted s h)

  on_accept-IsBudgeted :
      (s : Server A) (n : ℕ) (r : Result IoError (Unit {0}))
      → IsBudgeted s
      → IsBudgeted (on_accept config retry fault s n r)
  unfolding on_accept
  on_accept-IsBudgeted s n (ok _) h =
      enter_accept-IsBudgeted (admit_connection config retry fault s) (n + 1)
        (admit_connection-IsBudgeted s h)
  on_accept-IsBudgeted s n (err e) h =
      if-IsBudgeted (is_transient_accept_error e) (enter_accept config retry fault s n)
        (on_failure config retry fault s e.text) (enter_accept-IsBudgeted s n h)
        (on_failure-IsBudgeted s e.text h)

  pub step_at-IsBudgeted :
      (p : Phase) (s : Server A) (e : Event)
      → IsBudgeted s
      → IsBudgeted (step_at config retry fault p s e)
  unfolding step_at publish_terminal
  step_at-IsBudgeted p s requests_shutdown h = h
  step_at-IsBudgeted p s (connection_ends id) h = end_connection-IsBudgeted s id h
  step_at-IsBudgeted binding s (binds r) h =
      if-IsBudgeted (s.shared).shutdown (leave_lifecycle config retry fault s)
        (on_bind config retry fault s r) (leave_lifecycle-IsBudgeted s h) (on_bind-IsBudgeted s r h)
  step_at-IsBudgeted (accepting a) s (accepts r) h =
      if-IsBudgeted (s.shared).shutdown (leave_lifecycle config retry fault s)
        (on_accept config retry fault s a r) (leave_lifecycle-IsBudgeted s h)
        (on_accept-IsBudgeted s a r h)
  step_at-IsBudgeted (accepting a) s sees_shutdown h =
      if-IsBudgeted (s.shared).shutdown (leave_lifecycle config retry fault s) s
        (leave_lifecycle-IsBudgeted s h) h
  step_at-IsBudgeted (waiting d) s sleeps h = h
  step_at-IsBudgeted (waiting d) s sees_shutdown h =
      if-IsBudgeted (s.shared).shutdown (leave_lifecycle config retry fault s) s
        (leave_lifecycle-IsBudgeted s h) h
  step_at-IsBudgeted draining s clients_gone h =
      let ended = end_connections config retry fault s s.clients in
      let b = end_connections-IsBudgeted s s.clients h in
      let kept = set_status-active ended.shared stopped in (kept ∙ b.0, omega (arith, kept, b.1))
  step_at-IsBudgeted aborting s clients_gone h = end_connections-IsBudgeted s s.clients h
  step_at-IsBudgeted publishing s publishes h = h
  step_at-IsBudgeted p s e h = h

  run-IsBudgeted :
      (s : Server A) (es : List Event) → IsBudgeted s → IsBudgeted (run config retry fault s es)
  unfolding run step
  run-IsBudgeted s [] h = h
  run-IsBudgeted s (e ∷ es) h =
      run-IsBudgeted (step config retry fault s e) es (step_at-IsBudgeted s.phase s e h)

  pub run-start-IsBudgeted :
      (es : List Event) → IsBudgeted (run config retry fault (start config retry fault) es)
  unfolding start
  run-start-IsBudgeted es = run-IsBudgeted (start config retry fault) es (refl, omega arith)
