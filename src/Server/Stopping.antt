-- ===== src/Server/Stopping.antt =====
-- How a server that is asked to shut down comes to its end.
use shared_ws.Prelude.{
  ℕ, ◌+◌, ◌≤◌, ◌≡◌, refl, inl, inr, ◌∙◌, Bool, true, false, Option, List, [], ◌∷◌, ◌++◌, arith,
  if◌then◌else◌, Bool-cases, length,
}
use shared_ws.Server.Config.{WsServerConfig, WsServerRetryPolicy}
use shared_ws.Server.Lifecycle.{
  stopped, ServerShared, set_status, Phase, binding, accepting, waiting, draining, publishing,
  publishes, end_connections, aborting, finished, Server, Event, requests_shutdown, sees_shutdown,
  binds, accepts, sleeps, connection_ends, clients_gone, leave_lifecycle, is_final, end_connection,
  contains, step_at, step, run, start,
}
use shared_ws.Server.Drained.{HasStopped, set_status-shutdown, drained-HasStopped}
use shared_ws.Server.Endings.{IsRunning, IsStopped, ShowsPhase, run-start-ShowsPhase}
use shared_ws.Server.Budget.{IsBudgeted, step_at-IsBudgeted, run-start-IsBudgeted}
use shared_ws.Server.Clearing.{end_connections-IsSame}

-- Whether an event is an answer to the await at which the server stands.
abbrev pub answers : Event → Phase → Bool
answers requests_shutdown _ = false
answers (connection_ends _) _ = false
answers (binds _) binding = true
answers (accepts _) (accepting _) = true
answers sees_shutdown (accepting _) = true
answers sees_shutdown (waiting _) = true
answers sleeps (waiting _) = true
answers publishes publishing = true
answers clients_gone draining = true
answers clients_gone aborting = true
answers _ _ = false

abbrev one_if : Bool → ℕ
one_if true = 1
one_if false = 0

-- The awaits that are left of a shutdown, at most.
abbrev pub awaits_left : Phase → ℕ
awaits_left binding = 2
awaits_left (accepting _) = 2
awaits_left (waiting _) = 3
awaits_left draining = 1
awaits_left publishing = 2
awaits_left aborting = 1
awaits_left finished = 0

-- A server that stops: it is asked to, and where it has finished no task is left.
abbrev Stops : {A : Type 0} → Phase → ServerShared A → Type 0
Stops finished s = IsStopped s × (s.active ≡ 0)
Stops aborting s = ⊥
Stops publishing s = ⊥
Stops p s = IsRunning s

module _ {A W : Type 0} (config : WsServerConfig A W) (retry : WsServerRetryPolicy)
    (fault : Option ℕ) where
  -- How many of the events answer the await of their time.
  abbrev pub answered : Server A → List Event → ℕ
  answered s [] = 0
  answered s (e ∷ es) = one_if (answers e s.phase) + answered (step config retry fault s e) es

  -- What a step at `p` that answers the await, or not, leaves of a server that stops.
  abbrev Goes : Phase → Bool → Server A → Type 0
  Goes p answered t =
      (t.shared.shutdown ≡ true)
      × Stops t.phase t.shared
      × (one_if answered + awaits_left t.phase ≤ awaits_left p)

  stays-Goes :
      (p : Phase) (s : Server A)
      → s.phase ≡ p
      → s.shared.shutdown ≡ true
      → Stops p s.shared
      → Goes p false s
  stays-Goes p s n d h = rw n (d, h, omega arith)

  leave_lifecycle-Goes :
      (p : Phase) (s : Server A)
      → 2 ≤ awaits_left p
      → s.shared.shutdown ≡ true
      → IsRunning s.shared
      → Goes p true (leave_lifecycle config retry fault s)
  unfolding leave_lifecycle set_status is_final
  leave_lifecycle-Goes p s l d h = ground arith

  if-Goes :
      (p : Phase) (b : Bool) (s t : Server A)
      → b ≡ true
      → Goes p true s
      → Goes p true (if b then s else t)
  if-Goes p true s t e g = g
  if-Goes p false s t e g = ground arith

  same-Stops :
      (p : Phase) (s t : ServerShared A)
      → t.status ≡ s.status
      → t.terminal_error ≡ s.terminal_error
      → t.active ≤ s.active
      → Stops p s
      → Stops p t
  same-Stops finished s t a b l h = rw (a, b) (h.0, omega (arith, l, h.1))
  same-Stops aborting s t a b l h = h
  same-Stops publishing s t a b l h = h
  same-Stops draining s t a b l h = rw (a, b) h
  same-Stops binding s t a b l h = rw (a, b) h
  same-Stops (accepting n) s t a b l h = rw (a, b) h
  same-Stops (waiting d) s t a b l h = rw (a, b) h

  end_connection-Goes :
      (p : Phase) (s : Server A) (id : ℕ)
      → s.phase ≡ p
      → s.shared.shutdown ≡ true
      → Stops p s.shared
      → Goes p false (end_connection config retry fault s id)
  unfolding end_connection
  end_connection-Goes p s id n d h = elim (Bool-cases (contains id s.clients)) [
    | inl t ↦
        rw (t, end_connection)
          (d, rw n (same-Stops p s.shared _ refl refl (omega arith) h), rw n (omega arith))
    | inr t ↦ rw (t, end_connection) (stays-Goes p s n d h)
  ]

  drained-Goes :
      (s : Server A)
      → s.shared.shutdown ≡ true
      → IsRunning s.shared
      → s.shared.active ≡ length s.clients
      → Goes draining true (step_at config retry fault draining s clients_gone)
  unfolding step_at
  drained-Goes s d h b =
      let ended = end_connections config retry fault s s.clients in
      let same = end_connections-IsSame config retry fault s s.clients in
      let (_, stopped_now, none_left) = drained-HasStopped config retry fault s h b in
      (set_status-shutdown ended.shared stopped ∙ same.2 ∙ d, (stopped_now, none_left), omega arith)

  step_at-Goes :
      (p : Phase) (s : Server A) (e : Event)
      → s.phase ≡ p
      → s.shared.shutdown ≡ true
      → Stops p s.shared
      → s.shared.active ≡ length s.clients
      → Goes p (answers e p) (step_at config retry fault p s e)
  unfolding step_at
  step_at-Goes p s requests_shutdown n d h b =
      (refl, rw n (same-Stops p s.shared _ refl refl (omega arith) h), rw n (omega arith))
  step_at-Goes p s (connection_ends id) n d h b = end_connection-Goes p s id n d h
  step_at-Goes binding s (binds r) n d h b =
      if-Goes binding (s.shared).shutdown (leave_lifecycle config retry fault s) _ d
        (leave_lifecycle-Goes binding s (omega arith) d h)
  step_at-Goes (accepting a) s (accepts r) n d h b =
      if-Goes (accepting a) (s.shared).shutdown (leave_lifecycle config retry fault s) _ d
        (leave_lifecycle-Goes (accepting a) s (omega arith) d h)
  step_at-Goes (accepting a) s sees_shutdown n d h b =
      if-Goes (accepting a) (s.shared).shutdown (leave_lifecycle config retry fault s) _ d
        (leave_lifecycle-Goes (accepting a) s (omega arith) d h)
  step_at-Goes (waiting w) s sleeps n d h b = (d, h, omega arith)
  step_at-Goes (waiting w) s sees_shutdown n d h b =
      if-Goes (waiting w) (s.shared).shutdown (leave_lifecycle config retry fault s) _ d
        (leave_lifecycle-Goes (waiting w) s (omega arith) d h)
  step_at-Goes draining s clients_gone n d h b = drained-Goes s d h b
  step_at-Goes aborting s clients_gone n d h b = absurd h
  step_at-Goes publishing s publishes n d h b = absurd h
  step_at-Goes p s e n d h b = stays-Goes p s n d h

  finished-Stops :
      (p : Phase) (s : ServerShared A)
      → awaits_left p ≤ 0
      → Stops p s
      → (p ≡ finished) × IsStopped s × (s.active ≡ 0)
  finished-Stops finished s l h = (refl, h.0, h.1)
  finished-Stops p s l h = ground arith

  run-Stops :
      (s : Server A) (es : List Event)
      → s.shared.shutdown ≡ true
      → Stops s.phase s.shared
      → IsBudgeted config retry fault s
      → awaits_left s.phase ≤ answered s es
      → HasStopped (run config retry fault s es)
  unfolding run step
  run-Stops s [] d h b l = finished-Stops s.phase s.shared l h
  run-Stops s (e ∷ es) d h b l =
      let g = step_at-Goes s.phase s e refl d h b.0 in
      run-Stops (step config retry fault s e) es g.0 g.1
        (step_at-IsBudgeted config retry fault s.phase s e b) (omega (arith, l, g.2))

  run-append :
      (s : Server A) (es later : List Event)
      → run config retry fault s (es ++ later)
        ≡ run config retry fault (run config retry fault s es) later
  unfolding run
  run-append s [] later = refl
  run-append s (e ∷ es) later = run-append (step config retry fault s e) es later

  running-Stops :
      (p : Phase) (s : ServerShared A)
      → ShowsPhase p s
      → IsRunning s
      → Stops p (record s { shutdown = true })
  unfolding is_final
  running-Stops finished s (inl e) r = ground (arith, e.0, r.0)
  running-Stops finished s (inr e) r = ground (arith, e.0, r.0)
  running-Stops aborting s e r = ground (arith, e.0, r.0)
  running-Stops publishing s (_, cause, e) r = ground (arith, e, r.1)
  running-Stops draining s e r = r
  running-Stops binding s e r = r
  running-Stops (accepting n) s e r = r
  running-Stops (waiting d) s e r = r

  -- A server that runs, whatever has happened to it, and is asked to shut down has finished once
  -- the awaits that it comes to were answered: three where it waits to bind again, two where it
  -- binds or accepts, one where it drains. It is `Stopped` then, with no terminal error and no
  -- connection active, since each that ended gave its slot back, whatever the answers are, failed binds and accepts among them, and whatever
  -- else happens in between.
  pub requests_shutdown-run :
      (es later : List Event)
      → IsRunning (run config retry fault (start config retry fault) es).shared
      → awaits_left (run config retry fault (start config retry fault) es).phase
        ≤ answered
            (step config retry fault
              (run config retry fault (start config retry fault) es)
              requests_shutdown)
            later
      → HasStopped
          (run config retry fault (start config retry fault) (es ++ requests_shutdown ∷ later))
  unfolding run step step_at
  requests_shutdown-run es later r l =
      let s = run config retry fault (start config retry fault) es in
      rw (run-append (start config retry fault) es (requests_shutdown ∷ later)) (
        run-Stops (step config retry fault s requests_shutdown) later refl
          (running-Stops s.phase s.shared (run-start-ShowsPhase config retry fault es) r)
          (run-start-IsBudgeted config retry fault es) l)
