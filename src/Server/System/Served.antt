-- ===== src/Server/System/Served.antt =====
-- What the handlers of a server have been told, whatever the interleaving.
use Prim.Native.String.{String}
use shared_ws.Prelude.{
  Each, Each-append, Each-before, Each-after, Each-map, drop-append_short, get_elem?-lt, ℕ, suc,
  ◌≤◌, ◌≡◌, refl, sym, ap, subst, Bool, true, false, Option, none, some, List, [], ◌∷◌, ◌++◌,
  append_assoc, arith, drop, length, length-append,
}
use shared_ws.Types.Basic.{WebSocketError}
use shared_ws.Managed.Io.{Sink}
use shared_ws.Server.Config.{WsServerConfig, WsServerRetryPolicy}
use shared_ws.Server.Lifecycle.{
  Phase, accepting, draining, Server, ServerShared, aborting, try_acquire,
}
use shared_ws.Server.Connection.{
  connected, EndpointFactory, Connection, not_upgraded, open_at, ended, received, fell_behind,
  Branch, receives, lagged, new_connection, tell, settle, Going, greet, run_connection,
  run_connection_loop, select, first_ready, take_branch, on_received,
}
use shared_ws.Server.Connection.Commands.{
  past, IsAnswer, commands_of, IsServed, Feeds, told-Feeds, take_branch-Feeds,
  finish_connection-IsServed,
}
use shared_ws.Server.Connection.Trace.{tell-Told}
use shared_ws.Server.System.{
  Stage, upgrading, lives, Task, System, Step, goes, accepts_socket, dispatches, upgrades, polls,
  leaves, clears, Reach, spawns, later, new_task, spawned, joined, cleared,
}

-- The commands that a task's handler was told are those sent since it was spawned, in order and
-- without a gap: as far as its receiver stands where it is served, and up to some place at its end.
abbrev HasServed : {St A C : Type 0} → List C → Task St A C → Stage St A C → Type 0
HasServed sent t upgrading = (t.place ≡ t.subscribed)
HasServed sent t (lives not_upgraded) = Unit
HasServed sent t (lives (open_at c)) =
    (commands_of c.told ++ drop t.place sent ≡ drop t.subscribed sent) × (t.place ≤ length sent)
HasServed sent t (lives (ended cause c)) = IsServed (drop t.subscribed sent) c

abbrev pub IsServedTask : {St A C : Type 0} → List C → Task St A C → Type 0
IsServedTask sent t = (t.subscribed ≤ length sent) × HasServed sent t t.stage

module _ {St A C : Type 0} where
  joined-Each :
      (P : Task St A C → Type 0) (down : Bool) (slot : Option (ServerShared A)) (t : Task St A C)
      (tasks : List (Task St A C))
      → P t
      → Each P tasks
      → Each P (joined down slot t tasks)
  joined-Each P true slot t tasks p e = e
  joined-Each P false none t tasks p e = e
  joined-Each P false (some _) t tasks p e = (p, e)

  spawned-Each :
      (limit : ℕ) (p : Phase) (s : Server A) (peer local : A) (sent : List C)
      (tasks : List (Task St A C))
      → Each (IsServedTask sent) tasks
      → Each (IsServedTask sent) (spawned limit p s peer local sent tasks)
  unfolding spawned new_task
  spawned-Each limit (accepting a) s peer local sent tasks e =
      joined-Each (IsServedTask sent) (s.shared).shutdown (try_acquire s.shared limit)
        (new_task s.shared.next_connection_id peer local sent) tasks (omega arith, refl) e
  spawned-Each limit p s peer local sent tasks e = e

  cleared-Each :
      (P : Task St A C → Type 0) (p : Phase) (tasks : List (Task St A C))
      → Each P tasks
      → Each P (cleared p tasks)
  unfolding cleared
  cleared-Each P draining tasks e = tt
  cleared-Each P aborting tasks e = tt
  cleared-Each P p tasks e = e

  -- A command more, at the end.
  sends-HasServed :
      (sent : List C) (x : C) (t : Task St A C) (stage : Stage St A C)
      → t.subscribed ≤ length sent
      → HasServed sent t stage
      → HasServed (sent ++ x ∷ []) t stage
  sends-HasServed sent x t upgrading l h = h
  sends-HasServed sent x t (lives not_upgraded) l h = h
  sends-HasServed sent x t (lives (open_at c)) l (e, i) = (
    rw
        (
          drop-append_short t.place sent (x ∷ []) i,
          drop-append_short t.subscribed sent (x ∷ []) l,
          ← e,
        )
        (sym (append_assoc (commands_of c.told) (drop t.place sent) (x ∷ []))),
    omega (arith, i, length-append sent (x ∷ [])),
  )
  sends-HasServed sent x t (lives (ended cause c)) l (rest, e) = (
    rest ++ x ∷ [],
    rw (drop-append_short t.subscribed sent (x ∷ []) l, ← e)
        (sym (append_assoc (commands_of c.told) rest (x ∷ []))),
  )

module _ {St A C : Type 0} (h : EndpointFactory St A C) (display : WebSocketError → String) where
  settle-HasServed :
      (sent : List C) (t : Task St A C) (i : ℕ) (g : Going St A C)
      → i ≤ length sent
      → Feeds (drop t.subscribed sent) (drop i sent) g
      → HasServed sent
          (record t { place = i })
          (lives (settle h display g (λ c'. run_connection_loop h display c' [])))
  unfolding settle run_connection_loop
  settle-HasServed sent t i (none, c) l f = (f, l)
  settle-HasServed sent t i (some cause, c) l f =
      finish_connection-IsServed h display sent (drop t.subscribed sent) c cause f

  upgraded-HasServed :
      (sent : List C) (t : Task St A C) (handshake : Option Sink)
      → t.subscribed ≤ length sent
      → t.place ≡ t.subscribed
      → HasServed sent t (lives (run_connection h display t.context handshake []))
  unfolding run_connection greet
  upgraded-HasServed sent t none l e = tt
  upgraded-HasServed sent t (some sink) l e =
      let c = new_connection (h.create_endpoint t.context) sink in
      let g = tell h display c (connected t.context) in
      settle-HasServed sent t t.place g (omega (arith, l, e)) (
        told-Feeds (drop t.subscribed sent) (drop t.place sent) (drop t.place sent) c g
          (connected t.context ∷ []) (tell-Told h display c (connected t.context)) refl
          (ap (λ n. drop n sent) e))

  polled-HasServed :
      (sent : List C) (t : Task St A C) (c : Connection St A C) (b : Branch C)
      → IsAnswer sent t.place b
      → HasServed sent t (lives (open_at c))
      → HasServed sent
          (record t { place = past b t.place })
          (lives (
            settle h display
              (take_branch h display c b)
              (λ c'. run_connection_loop h display c' [])))
  unfolding take_branch on_received settle
  polled-HasServed sent t c (receives (fell_behind missed)) a (e, l) =
      finish_connection-IsServed h display sent (drop t.subscribed sent) c (lagged missed)
        (drop t.place sent, e)
  polled-HasServed sent t c (receives (received x)) a (e, l) =
      settle-HasServed sent t (suc t.place) (take_branch h display c (receives (received x)))
        (get_elem?-lt sent t.place x a)
        (take_branch-Feeds h display sent (drop t.subscribed sent) c (receives (received x)) t.place
          a e)
  polled-HasServed sent t c b a (e, l) =
      settle-HasServed sent t t.place (take_branch h display c b) l
        (take_branch-Feeds h display sent (drop t.subscribed sent) c b t.place a e)

module _ {St A C : Type 0} where
  -- One task changes.
  Each-replace :
      (P : Task St A C → Type 0) (before after : List (Task St A C)) (t t' : Task St A C)
      (tasks : List (Task St A C))
      → tasks ≡ before ++ t ∷ after
      → Each P tasks
      → (P t → P t')
      → Each P (before ++ t' ∷ after)
  Each-replace P before after t t' tasks e a f =
      let a' = subst (Each P) e a in
      let behind = Each-after P before (t ∷ after) a' in
      Each-append P before (t' ∷ after) (Each-before P before (t ∷ after) a') (f behind.0, behind.1)

  Each-remove :
      (P : Task St A C → Type 0) (before after : List (Task St A C)) (t : Task St A C)
      (tasks : List (Task St A C))
      → tasks ≡ before ++ t ∷ after
      → Each P tasks
      → Each P (before ++ after)
  Each-remove P before after t tasks e a =
      let a' = subst (Each P) e a in
      Each-append P before after (Each-before P before (t ∷ after) a')
        (Each-after P before (t ∷ after) a').1

  sends-IsServedTask :
      (sent : List C) (x : C) (t : Task St A C)
      → IsServedTask sent t
      → IsServedTask (sent ++ x ∷ []) t
  sends-IsServedTask sent x t (l, s) =
      (omega (arith, l, length-append sent (x ∷ [])), sends-HasServed sent x t t.stage l s)

module _ {St A W C : Type 0} (config : WsServerConfig A W) (retry : WsServerRetryPolicy)
    (fault : Option ℕ) (h : EndpointFactory St A C) (display : WebSocketError → String) where
  Step-Each :
      (s s' : System St A C)
      → Step config retry fault h display s s'
      → Each (IsServedTask s.sent) s.tasks
      → Each (IsServedTask s'.sent) s'.tasks
  unfolding run_connection_loop select
  Step-Each s s' (goes e p) a = a
  Step-Each s s' (accepts_socket peer local) a =
      spawned-Each config.max_connections (s.server).phase s.server peer local s.sent s.tasks a
  Step-Each s s' (dispatches x) a =
      Each-map (IsServedTask s.sent) (IsServedTask (s.sent ++ x ∷ [])) (sends-IsServedTask s.sent x)
        s.tasks a
  Step-Each s s' (upgrades before after t handshake e u) a =
      Each-replace (IsServedTask s.sent) before after t _ s.tasks e a (λ (l, d).
        (l, upgraded-HasServed h display s.sent t handshake l (subst (HasServed s.sent t) u d)))
  Step-Each s s' (polls before after t c p e o b down) a =
      Each-replace (IsServedTask s.sent) before after t _ s.tasks e a (λ (l, d). (
        l,
        polled-HasServed h display s.sent t c (first_ready p) b (subst (HasServed s.sent t) o d),
      ))
  Step-Each s s' (leaves before after t e o) a =
      Each-remove (IsServedTask s.sent) before after t s.tasks e a
  Step-Each s s' clears a = cleared-Each (IsServedTask s.sent) (s.server).phase s.tasks a

  -- However the lifecycle of a server, the tasks of its connections and the commands that are sent
  -- to it interleave, each task's handler has been told commands sent since its receiver was
  -- subscribed, from the first on, in order, and none left out or told twice: while it is served
  -- all those before the place of its receiver, and once it ended those up to some command.
  pub Reach-IsServedTask :
      (s : System St A C)
      → Reach config retry fault h display s
      → Each (IsServedTask s.sent) s.tasks
  Reach-IsServedTask s spawns = tt
  Reach-IsServedTask s (later r m) = Step-Each _ s m (Reach-IsServedTask _ r)
