-- ===== src/Server/System/Slots.antt =====
-- The tasks of a server and the slots of its connection budget, whatever the interleaving.
use Prim.Native.String.{String}
use shared_ws.Prelude.{
  ℕ, ◌≤◌, ◌≡◌, ◌∙◌, refl, sym, ap, subst, Option, List, ◌∷◌, ◌++◌, arith, length, length-append,
}
use shared_ws.Types.Basic.{ok, WebSocketError}
use shared_ws.Server.Config.{WsServerConfig, WsServerRetryPolicy}
use shared_ws.Server.Lifecycle.{
  Phase, accepting, draining, aborting, Server, Event, accepts, connection_ends, clients_gone,
  try_acquire, end_connection, end_connections, step, step_at, start,
}
use shared_ws.Server.Clearing.{end_connections-clears}
use shared_ws.Server.Budget.{IsBudgeted, length-without}
use shared_ws.Server.Connection.{EndpointFactory}
use shared_ws.Server.System.{
  Task, System, IsPlain, Step, goes, accepts_socket, dispatches, upgrades, polls, leaves, clears,
  Reach, spawns, later, new_task, spawned, cleared,
}
use shared_ws.Server.System.Clients.{
  count, IsMatched, step_at-clients, accepted-clients, step-IsBudgeted, joined-IsMatched,
  joined-length, member-contains, without-IsMatched, same_id-IsMatched,
}

module _ {A W : Type 0} (config : WsServerConfig A W) (retry : WsServerRetryPolicy)
    (fault : Option ℕ) where
  -- All the connections of the server end.
  no_clients :
      (s : Server A)
      → s.shared.active ≡ length s.clients
      → ((n : ℕ) → 0 ≡ count n (end_connections config retry fault s s.clients).clients)
        × (0 ≡ length (end_connections config retry fault s s.clients).clients)
  no_clients s b =
      let e = (end_connections-clears config retry fault s s.clients refl b).0 in
      (λ n. ap (count n) (sym e), ap length (sym e))

module _ {St A W C : Type 0} (config : WsServerConfig A W) (retry : WsServerRetryPolicy)
    (fault : Option ℕ) where
  -- Every task is a client and has a slot, and every client is a task.
  abbrev pub HasSlots : Server A → List (Task St A C) → Type 0
  HasSlots s tasks =
      IsMatched s.clients tasks
      × (length tasks ≡ length s.clients)
      × IsBudgeted config retry fault s

  plain-HasSlots :
      (s : Server A) (e : Event) (tasks : List (Task St A C))
      → IsPlain e
      → HasSlots s tasks
      → HasSlots (step config retry fault s e) tasks
  unfolding step
  plain-HasSlots s e tasks q (m, l, b) =
      let same = step_at-clients config retry fault s.phase s e q in
      (
        λ n. m n ∙ ap (count n) (sym same),
        l ∙ ap length (sym same),
        step-IsBudgeted config retry fault s e b,
      )

  accepting-HasSlots :
      (a : ℕ) (s : Server A) (peer local : A) (sent : List C) (tasks : List (Task St A C))
      → IsMatched s.clients tasks
      → length tasks ≡ length s.clients
      → IsMatched
          (step_at config retry fault (accepting a) s (accepts (ok tt))).clients
          (spawned config.max_connections (accepting a) s peer local sent tasks)
        × (length (spawned config.max_connections (accepting a) s peer local sent tasks)
            ≡ length (step_at config retry fault (accepting a) s (accepts (ok tt))).clients)
  unfolding spawned new_task
  accepting-HasSlots a s peer local sent tasks m l =
      let t = new_task s.shared.next_connection_id peer local sent in
      let slot = try_acquire s.shared config.max_connections in
      rw (accepted-clients config retry fault s a) (
        joined-IsMatched (s.shared).shutdown slot t tasks s.clients m,
        joined-length (s.shared).shutdown slot t tasks s.clients l,
      )

  accepted-HasSlots :
      (p : Phase) (s : Server A) (peer local : A) (sent : List C) (tasks : List (Task St A C))
      → IsMatched s.clients tasks
      → length tasks ≡ length s.clients
      → IsMatched
          (step_at config retry fault p s (accepts (ok tt))).clients
          (spawned config.max_connections p s peer local sent tasks)
        × (length (spawned config.max_connections p s peer local sent tasks)
            ≡ length (step_at config retry fault p s (accepts (ok tt))).clients)
  unfolding spawned step_at
  accepted-HasSlots (accepting a) s peer local sent tasks m l =
      accepting-HasSlots a s peer local sent tasks m l
  accepted-HasSlots p s peer local sent tasks m l = (m, l)

  left-HasSlots :
      (s : Server A) (before after : List (Task St A C)) (t : Task St A C)
      → HasSlots s (before ++ t ∷ after)
      → HasSlots
          (step config retry fault s (connection_ends t.context.connection_id))
          (before ++ after)
  unfolding step step_at end_connection
  left-HasSlots s before after t (m, l, b) =
      let c = member-contains before after t s.clients m in
      (
        rw (c, end_connection) (without-IsMatched before after t s.clients m),
        rw (c, end_connection)
            (omega (
              arith,
              l,
              length-without t.context.connection_id s.clients c,
              length-append before (t ∷ after),
              length-append before after,
            )),
        step-IsBudgeted config retry fault s (connection_ends t.context.connection_id) b,
      )

  replaced-HasSlots :
      (s : Server A) (before after : List (Task St A C)) (t t' : Task St A C)
      (tasks : List (Task St A C))
      → tasks ≡ before ++ t ∷ after
      → t'.context ≡ t.context
      → HasSlots s tasks
      → HasSlots s (before ++ t' ∷ after)
  replaced-HasSlots s before after t t' tasks e i (m, l, b) = (
    same_id-IsMatched before after t t' s.clients i (subst (IsMatched s.clients) e m),
    omega (
      arith,
      l,
      ap length e,
      length-append before (t ∷ after),
      length-append before (t' ∷ after),
    ),
    b,
  )

  cleared-HasSlots :
      (p : Phase) (s : Server A) (tasks : List (Task St A C))
      → IsMatched s.clients tasks
      → length tasks ≡ length s.clients
      → s.shared.active ≡ length s.clients
      → IsMatched (step_at config retry fault p s clients_gone).clients (cleared p tasks)
        × (length (cleared p tasks) ≡ length (step_at config retry fault p s clients_gone).clients)
  unfolding cleared step_at
  cleared-HasSlots draining s tasks m l b = no_clients config retry fault s b
  cleared-HasSlots aborting s tasks m l b = no_clients config retry fault s b
  cleared-HasSlots p s tasks m l b = (m, l)

module _ {St A W C : Type 0} (config : WsServerConfig A W) (retry : WsServerRetryPolicy)
    (fault : Option ℕ) (h : EndpointFactory St A C) (display : WebSocketError → String) where
  Step-HasSlots :
      (s s' : System St A C)
      → Step config retry fault h display s s'
      → HasSlots config retry fault s.server s.tasks
      → HasSlots config retry fault s'.server s'.tasks
  unfolding step
  Step-HasSlots s s' (goes e q) a = plain-HasSlots config retry fault s.server e s.tasks q a
  Step-HasSlots s s' (accepts_socket peer local) (m, l, b) =
      let k =
        accepted-HasSlots config retry fault (s.server).phase s.server peer local s.sent s.tasks m
          l in
      (k.0, k.1, step-IsBudgeted config retry fault s.server (accepts (ok tt)) b)
  Step-HasSlots s s' (dispatches x) a = a
  Step-HasSlots s s' (upgrades before after t handshake e u) a =
      replaced-HasSlots config retry fault s.server before after t _ s.tasks e refl a
  Step-HasSlots s s' (polls before after t c p e o b down) a =
      replaced-HasSlots config retry fault s.server before after t _ s.tasks e refl a
  Step-HasSlots s s' (leaves before after t e o) a =
      left-HasSlots config retry fault s.server before after t
        (subst (HasSlots config retry fault s.server) e a)
  Step-HasSlots s s' clears (m, l, b) =
      let k = cleared-HasSlots config retry fault (s.server).phase s.server s.tasks m l b.0 in
      (k.0, k.1, step-IsBudgeted config retry fault s.server clients_gone b)

  pub Reach-HasSlots :
      (s : System St A C)
      → Reach config retry fault h display s
      → HasSlots config retry fault s.server s.tasks
  unfolding start
  Reach-HasSlots s spawns = (λ n. refl, refl, (refl, omega arith))
  Reach-HasSlots s (later r m) = Step-HasSlots _ s m (Reach-HasSlots _ r)

  -- However the lifecycle of a server, the tasks of its connections and the commands that are sent
  -- to it interleave, its tasks are as many as the slots taken, and never more than
  -- `max_connections`; and the ids of the running clients are those of the tasks, each as often.
  pub Reach-TakesSlots :
      (s : System St A C)
      → Reach config retry fault h display s
      → (length s.tasks ≡ s.server.shared.active)
        × (length s.tasks ≤ config.max_connections)
        × IsMatched s.server.clients s.tasks
  Reach-TakesSlots s r =
      let k = Reach-HasSlots s r in (k.1 ∙ sym k.2.0, omega (arith, k.1, k.2), k.0)
