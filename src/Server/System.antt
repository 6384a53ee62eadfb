-- ===== src/Server/System.antt =====
-- src/ws/server/runtime.rs: the server with the tasks of its connections and the broadcast channel of
-- its commands, interleaved in any order. The step of a task is one poll of its `select!`, with what
-- it does about the branch that it takes.
pub mod Served
pub mod Clients
pub mod Slots
pub mod Steps
pub mod Drain
pub mod Work
mod Tests
use Prim.Native.String.{String}
use shared_ws.Prelude.{
  ℕ, ◌≡◌, ◌≢◌, Bool, true, false, Option, none, some, List, [], ◌∷◌, ◌++◌, length, if◌then◌else◌,
}
use shared_ws.Types.Basic.{Result, ok, err, WebSocketError}
use shared_ws.Managed.Io.{Sink}
use shared_ws.Server.Config.{WsServerConfig, WsServerRetryPolicy}
use shared_ws.Server.Lifecycle.{
  Phase, accepting, draining, aborting, Server, ServerShared, Event, requests_shutdown,
  sees_shutdown, binds, accepts, sleeps, connection_ends, clients_gone, try_acquire, step, start,
  IoError,
}
use shared_ws.Server.Connection.{
  WsServerConnectionContext, EndpointFactory, Poll, Connection, Life, not_upgraded, open_at, ended,
  WsServerCloseCause, run_connection, run_connection_loop, first_ready,
}
use shared_ws.Server.Connection.Commands.{past, IsAnswer}

-- A task before its handshake is decided, and after it.
pub data Stage (St A C : Type 0) : Type 0 where
  upgrading : Stage St A C
  lives : Life St A C → Stage St A C

-- The task of a connection. Its receiver was subscribed at one place of the channel, and stands at
-- another.
pub record Task (St A C : Type 0) : Type 0 where
  pub context : WsServerConnectionContext A
  pub subscribed : ℕ
  pub place : ℕ
  pub stage : Stage St A C

-- `sent` are the commands that `command_tx` was given, oldest first.
pub record System (St A C : Type 0) : Type 0 where
  pub server : Server A
  pub sent : List C
  pub tasks : List (Task St A C)

-- An event of the lifecycle that concerns no task.
abbrev pub IsPlain : Event → Type 0
IsPlain (accepts (ok _)) = ⊥
IsPlain (connection_ends _) = ⊥
IsPlain clients_gone = ⊥
IsPlain _ = Unit

-- A task that has returned.
abbrev pub IsOver : {St A C : Type 0} → Stage St A C → Type 0
IsOver (lives not_upgraded) = Unit
IsOver (lives (ended _ _)) = Unit
IsOver _ = ⊥

module _ {St A C : Type 0} where
  -- `command_tx.subscribe()`: the receiver is at the end of the channel.
  unfoldable pub new_task : ℕ → A → A → List C → Task St A C
  new_task id peer local sent = record {
    context = record { connection_id = id; peer_addr = peer; local_addr = local };
    subscribed = length sent;
    place = length sent;
    stage = upgrading;
  }

  -- A task more, if a slot was free and no shutdown came first.
  abbrev pub joined :
      Bool → Option (ServerShared A) → Task St A C → List (Task St A C) → List (Task St A C)
  joined true slot t tasks = tasks
  joined false none t tasks = tasks
  joined false (some _) t tasks = t ∷ tasks

  -- The tasks once a socket was accepted, where the loop accepts one and a slot is free.
  unfoldable pub spawned :
      ℕ → Phase → Server A → A → A → List C → List (Task St A C) → List (Task St A C)
  spawned limit (accepting _) s peer local sent tasks =
      joined s.shared.shutdown (try_acquire s.shared limit)
        (new_task s.shared.next_connection_id peer local sent) tasks
  spawned limit _ s peer local sent tasks = tasks

  -- What the end of the drain, or the abort, leaves of the tasks.
  unfoldable pub cleared : Phase → List (Task St A C) → List (Task St A C)
  cleared draining tasks = []
  cleared aborting tasks = []
  cleared _ tasks = tasks

module _ {St A W C : Type 0} (config : WsServerConfig A W) (retry : WsServerRetryPolicy)
    (fault : Option ℕ) (h : EndpointFactory St A C) (display : WebSocketError → String) where
  pub data Step (s : System St A C) : System St A C → Type 0 where
    goes :
        (e : Event) → IsPlain e → Step s (record s { server = step config retry fault s.server e })
    accepts_socket :
        (peer local : A)
        → Step s (record s {
          server = step config retry fault s.server (accepts (ok tt));
          tasks =
              spawned config.max_connections (s.server).phase s.server peer local s.sent s.tasks;
        })
    dispatches : (x : C) → Step s (record s { sent = s.sent ++ x ∷ [] })
    -- The upgrade fails or times out, or there is a socket.
    upgrades :
        (before after : List (Task St A C)) (t : Task St A C) (handshake : Option Sink)
        → s.tasks ≡ before ++ t ∷ after
        → t.stage ≡ upgrading
        → Step s (record s {
          tasks =
              before
              ++ record t { stage = lives (run_connection h display t.context handshake []) }
                ∷ after;
        })
    -- The receiver answers for its place, and the shutdown is seen exactly when it was asked for.
    polls :
        (before after : List (Task St A C)) (t : Task St A C) (c : Connection St A C) (p : Poll C)
        → s.tasks ≡ before ++ t ∷ after
        → t.stage ≡ lives (open_at c)
        → IsAnswer s.sent t.place (first_ready p)
        → p.shutdown ≡ s.server.shared.shutdown
        → Step s (record s {
          tasks =
              before
              ++ record t {
                place = past (first_ready p) t.place;
                stage = lives (run_connection_loop h display c (p ∷ []));
              }
                ∷ after;
        })
    leaves :
        (before after : List (Task St A C)) (t : Task St A C)
        → s.tasks ≡ before ++ t ∷ after
        → IsOver t.stage
        → Step s (record s {
          server = step config retry fault s.server (connection_ends t.context.connection_id);
          tasks = before ++ after;
        })
    clears : Step s (record s {
      server = step config retry fault s.server clients_gone;
      tasks = cleared (s.server).phase s.tasks;
    })

  abbrev pub spawn_server : System St A C
  spawn_server = record { server = start config retry fault; sent = []; tasks = [] }

  -- The systems that a spawned server comes to.
  pub data Reach : System St A C → Type 0 where
    spawns : Reach spawn_server
    later : {s t : System St A C} → Reach s → Step s t → Reach t
