-- ===== src/Server/System/Work.antt =====
-- What the tasks of a server do once a shutdown was asked for.
use Prim.Native.String.{String}
use shared_ws.Prelude.{
  ℕ, ◌+◌, ◌*◌, ◌≤◌, ◌≡◌, ◌∙◌, refl, ap, true, Option, List, [], ◌∷◌, ◌++◌, arith, length,
}
use shared_ws.Types.Basic.{ok, WebSocketError}
use shared_ws.Managed.Io.{Sink}
use shared_ws.Server.Config.{WsServerConfig, WsServerRetryPolicy}
use shared_ws.Server.Lifecycle.{
  Phase, binding, accepting, waiting, draining, publishing, publishes, publish_terminal,
  end_connections, aborting, Server, Event, requests_shutdown, binds, accepts, sleeps,
  sees_shutdown, connection_ends, clients_gone, leave_lifecycle, end_connection, shutting_down,
  stopped, step, step_at,
}
use shared_ws.Server.Clearing.{end_connections-IsSame}
use shared_ws.Server.Drained.{set_status-shutdown}
use shared_ws.Server.Connection.{
  WsServerConnectionContext, EndpointFactory, Poll, Branch, Connection, Life, not_upgraded, open_at,
  ended, run_connection, run_connection_loop, select, take_branch, settle, first_ready,
}
use shared_ws.Server.System.{
  Stage, upgrading, lives, Task, System, Step, goes, accepts_socket, dispatches, upgrades, polls,
  leaves, clears, spawned, cleared,
}
use shared_ws.Server.System.Steps.{Steps, stays, next}

-- The steps that are left of a task, at most.
abbrev life_work : {St A C : Type 0} → Life St A C → ℕ
life_work not_upgraded = 1
life_work (open_at _) = 2
life_work (ended _ _) = 1

abbrev stage_work : {St A C : Type 0} → Stage St A C → ℕ
stage_work upgrading = 3
stage_work (lives life) = life_work life

abbrev work : {St A C : Type 0} → List (Task St A C) → ℕ
work [] = 0
work (t ∷ tasks) = stage_work t.stage + work tasks

module _ {St A C : Type 0} where
  work-append : (xs ys : List (Task St A C)) → work (xs ++ ys) ≡ work xs + work ys
  work-append [] ys = omega arith
  work-append (t ∷ xs) ys = omega (arith, work-append xs ys)

  stage_work-le : (stage : Stage St A C) → stage_work stage ≤ 3
  stage_work-le stage = ground arith

  life_work-le : (life : Life St A C) → life_work life ≤ 2
  life_work-le life = ground arith

  work-le : (tasks : List (Task St A C)) → work tasks ≤ 3 * length tasks
  work-le [] = omega arith
  work-le (t ∷ tasks) = omega (arith, work-le tasks, stage_work-le t.stage)

  -- One task has less to do, or is gone.
  replaced-work :
      (before after : List (Task St A C)) (k k' : Task St A C) (tasks : List (Task St A C))
      → tasks ≡ before ++ k ∷ after
      → 1 + stage_work k'.stage ≤ stage_work k.stage
      → 1 + work (before ++ k' ∷ after) ≤ work tasks
  replaced-work before after k k' tasks e l =
      omega (arith, l, ap work e, work-append before (k ∷ after), work-append before (k' ∷ after))

  removed-work :
      (before after : List (Task St A C)) (k : Task St A C) (tasks : List (Task St A C))
      → tasks ≡ before ++ k ∷ after
      → 1 ≤ stage_work k.stage
      → 1 + work (before ++ after) ≤ work tasks
  removed-work before after k tasks e l =
      omega (arith, l, ap work e, work-append before (k ∷ after), work-append before after)

  over-work : (stage : Stage St A C) → 1 ≤ stage_work stage
  over-work stage = ground arith

  unjoined-work :
      (p : Phase) (limit : ℕ) (s : Server A) (peer local : A) (sent : List C)
      (tasks : List (Task St A C))
      → s.shared.shutdown ≡ true
      → work (spawned limit p s peer local sent tasks) ≤ work tasks
  unfolding spawned
  unjoined-work (accepting a) limit s peer local sent tasks d = rw d (omega arith)
  unjoined-work p limit s peer local sent tasks d = omega arith

  cleared-work : (p : Phase) (tasks : List (Task St A C)) → work (cleared p tasks) ≤ work tasks
  unfolding cleared
  cleared-work draining tasks = omega arith
  cleared-work aborting tasks = omega arith
  cleared-work p tasks = omega arith

ready_for_shutdown :
    {C : Type 0} (p : Poll C) → p.shutdown ≡ true → first_ready p ≡ Branch.sees_shutdown
unfolding first_ready
ready_for_shutdown p d = rw d refl

module _ {A W : Type 0} (config : WsServerConfig A W) (retry : WsServerRetryPolicy)
    (fault : Option ℕ) where
  leave_lifecycle-shutdown :
      (s : Server A) → (leave_lifecycle config retry fault s).shared.shutdown ≡ s.shared.shutdown
  unfolding leave_lifecycle
  leave_lifecycle-shutdown s = set_status-shutdown s.shared shutting_down

  step_at-shutdown :
      (p : Phase) (s : Server A) (e : Event)
      → s.shared.shutdown ≡ true
      → (step_at config retry fault p s e).shared.shutdown ≡ true
  unfolding step_at end_connection publish_terminal
  step_at-shutdown p s requests_shutdown d = refl
  step_at-shutdown p s (connection_ends id) d = ground (arith, d)
  step_at-shutdown binding s (binds r) d = ground (arith, d, leave_lifecycle-shutdown s)
  step_at-shutdown (accepting a) s (accepts r) d = ground (arith, d, leave_lifecycle-shutdown s)
  step_at-shutdown (accepting a) s sees_shutdown d = ground (arith, d, leave_lifecycle-shutdown s)
  step_at-shutdown (waiting w) s sees_shutdown d = ground (arith, d, leave_lifecycle-shutdown s)
  step_at-shutdown (waiting w) s sleeps d = d
  step_at-shutdown draining s clients_gone d =
      set_status-shutdown (end_connections config retry fault s s.clients).shared stopped
      ∙ (end_connections-IsSame config retry fault s s.clients).2
      ∙ d
  step_at-shutdown aborting s clients_gone d =
      (end_connections-IsSame config retry fault s s.clients).2 ∙ d
  step_at-shutdown publishing s publishes d = d
  step_at-shutdown p s e d = d

  -- A shutdown that was asked for is never taken back.
  step-shutdown :
      (s : Server A) (e : Event)
      → s.shared.shutdown ≡ true
      → (step config retry fault s e).shared.shutdown ≡ true
  unfolding step
  step-shutdown s e d = step_at-shutdown s.phase s e d

module _ {St A W C : Type 0} (config : WsServerConfig A W) (retry : WsServerRetryPolicy)
    (fault : Option ℕ) (h : EndpointFactory St A C) (display : WebSocketError → String) where
  -- A step of a task, and no other.
  abbrev is_of_task : {s t : System St A C} → Step config retry fault h display s t → ℕ
  is_of_task (upgrades _ _ _ _ _ _) = 1
  is_of_task (polls _ _ _ _ _ _ _ _ _) = 1
  is_of_task (leaves _ _ _ _ _) = 1
  is_of_task _ = 0

  abbrev pub task_steps : {s t : System St A C} → Steps config retry fault h display s t → ℕ
  task_steps stays = 0
  task_steps (next m ms) = is_of_task m + task_steps ms

  upgraded-work :
      (ctx : WsServerConnectionContext A) (handshake : Option Sink)
      → life_work (run_connection h display ctx handshake []) ≤ 2
  upgraded-work ctx handshake = life_work-le (run_connection h display ctx handshake [])

  polled-work :
      (c : Connection St A C) (p : Poll C)
      → p.shutdown ≡ true
      → life_work (run_connection_loop h display c (p ∷ [])) ≡ 1
  unfolding run_connection_loop select take_branch settle
  polled-work c p d = rw (ready_for_shutdown p d) refl

  Step-work :
      (s t : System St A C) (m : Step config retry fault h display s t)
      → s.server.shared.shutdown ≡ true
      → (t.server.shared.shutdown ≡ true) × (is_of_task m + work t.tasks ≤ work s.tasks)
  Step-work s t (goes e q) d = (step-shutdown config retry fault s.server e d, omega arith)
  Step-work s t (accepts_socket peer local) d = (
    step-shutdown config retry fault s.server (accepts (ok tt)) d,
    omega (
      arith,
      unjoined-work (s.server).phase config.max_connections s.server peer local s.sent s.tasks d,
    ),
  )
  Step-work s t (dispatches x) d = (d, omega arith)
  Step-work s t (upgrades before after k handshake e u) d = (
    d,
    replaced-work before after k _ s.tasks e
        (omega (arith, ap stage_work u, upgraded-work k.context handshake)),
  )
  Step-work s t (polls before after k c p e o b down) d = (
    d,
    replaced-work before after k _ s.tasks e
        (omega (arith, ap stage_work o, polled-work c p (down ∙ d))),
  )
  Step-work s t (leaves before after k e o) d = (
    step-shutdown config retry fault s.server (connection_ends k.context.connection_id) d,
    removed-work before after k s.tasks e (over-work k.stage),
  )
  Step-work s t clears d = (
    step-shutdown config retry fault s.server clients_gone d,
    omega (arith, cleared-work (s.server).phase s.tasks),
  )

  Steps-work :
      (s t : System St A C) (m : Steps config retry fault h display s t)
      → s.server.shared.shutdown ≡ true
      → task_steps m + work t.tasks ≤ work s.tasks
  Steps-work s t stays d = omega arith
  Steps-work s t (next {t = u} m ms) d =
      let k = Step-work s u m d in omega (arith, k.1, Steps-work u t ms k.0)

  -- Once a shutdown was asked for, and however the steps of the lifecycle and of the tasks interleave
  -- from then on, new sockets included, all the tasks together take at most three steps for each
  -- task that there was, whatever their handlers and sockets do.
  pub task_steps-bounded :
      (s t : System St A C) (m : Steps config retry fault h display s t)
      → s.server.shared.shutdown ≡ true
      → task_steps m ≤ 3 * length s.tasks
  task_steps-bounded s t m d = omega (arith, Steps-work s t m d, work-le s.tasks)
