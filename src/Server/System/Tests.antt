-- ===== src/Server/System/Tests.antt =====
-- A server with two connections, step by step.
use Prim.Native.String.{String}
use shared_ws.Prelude.{Each, ℕ, ◌+◌, ◌*◌, ◌≡◌, ◌≤◌, refl, true, false, none, some, [], ◌∷◌, length}
use shared_ws.Types.Basic.{ok}
use shared_ws.Managed.Fixtures.{display, takes_all}
use shared_ws.Server.Config.{new}
use shared_ws.Server.Lifecycle.{
  requests_shutdown, binds, accepts, start, step, step_at, on_bind, enter_accept, on_accept,
  admit_connection, try_acquire, set_status,
}
use shared_ws.Server.Connection.{
  EndpointFactory, connected, command, Connection, Poll, received, no_action, run_connection,
  run_connection_loop, greet, settle, tell, after_event, apply_action, select, take_branch,
  on_received, first_ready, open_at,
}
use shared_ws.Server.System.{
  System, Task, lives, goes, accepts_socket, dispatches, upgrades, polls, Reach, spawns, later,
  spawn_server, spawned, new_task,
}
use shared_ws.Server.System.Served.{IsServedTask, Reach-IsServedTask}
use shared_ws.Server.System.Clients.{IsMatched}
use shared_ws.Server.System.Slots.{Reach-TakesSlots}
use shared_ws.Server.System.Steps.{Steps, stays, next}
use shared_ws.Server.System.Work.{task_steps, task_steps-bounded}
use shared_ws.Server.Tests.{config, retry}

abbrev quiet : EndpointFactory ℕ String ℕ
quiet = record { create_endpoint = λ ctx. 0; on_event = λ n event. (ok no_action, n + 1) }

abbrev spawned_server : System ℕ String ℕ
spawned_server = spawn_server config retry none quiet display

abbrev bound_server : System ℕ String ℕ
bound_server = record spawned_server {
  server = step config retry none (spawned_server.server) (binds (ok none));
}

-- A command that no receiver is there for, a socket, and another command.
abbrev commanded : System ℕ String ℕ
commanded = record bound_server { sent = 3 ∷ [] }

abbrev accepted : System ℕ String ℕ
accepted = record commanded {
  server = step config retry none (commanded.server) (accepts (ok tt));
  tasks =
      spawned config.max_connections (commanded.server).phase commanded.server "peer" "local"
        commanded.sent commanded.tasks;
}

abbrev newcomer : Task ℕ String ℕ
newcomer = new_task 0 "peer" "local" (3 ∷ [])

abbrev upgraded : System ℕ String ℕ
upgraded = record accepted {
  tasks =
      record newcomer {
        stage = lives (run_connection quiet display newcomer.context (some takes_all) []);
      }
      ∷ [];
}

abbrev commanded_again : System ℕ String ℕ
commanded_again = record upgraded { sent = 3 ∷ 7 ∷ [] }

abbrev gets_seven : Poll ℕ
gets_seven = record {
  shutdown = false;
  incoming = none;
  commands = some (received 7);
  tick_due = true;
}

abbrev greeted : Connection ℕ String ℕ
greeted = record {
  handler = 1;
  told = connected newcomer.context ∷ [];
  writer = record { sink = takes_all; written = [] };
  socket_closed = false;
}

abbrev served : System ℕ String ℕ
served = record commanded_again {
  tasks =
      record newcomer {
        place = 2;
        stage = lives (run_connection_loop quiet display greeted (gets_seven ∷ []));
      }
      ∷ [];
}

served-Reach : Reach config retry none quiet display served
unfolding start step step_at on_bind enter_accept on_accept admit_connection try_acquire set_status
    spawned new_task run_connection greet settle tell after_event apply_action run_connection_loop
    select take_branch on_received first_ready new
served-Reach =
    later
      (later
        (later
          (later (later (later spawns (goes (binds (ok none)) tt)) (dispatches 3))
            (accepts_socket "peer" "local"))
          (upgrades [] [] newcomer (some takes_all) refl refl))
        (dispatches 7))
      (polls [] [] (record newcomer { stage = lives (open_at greeted) }) greeted gets_seven refl
        refl refl refl)

Reach-IsServedTask_example : Each (IsServedTask (3 ∷ 7 ∷ [])) served.tasks
Reach-IsServedTask_example = Reach-IsServedTask config retry none quiet display served served-Reach

Reach-TakesSlots_example :
    (length served.tasks ≡ served.server.shared.active)
    × (length served.tasks ≤ config.max_connections)
    × IsMatched served.server.clients served.tasks
Reach-TakesSlots_example = Reach-TakesSlots config retry none quiet display served served-Reach

abbrev told_seven : Connection ℕ String ℕ
told_seven = record greeted { handler = 2; told = connected newcomer.context ∷ command 7 ∷ [] }

-- The task is served the second command alone.
serves_seven : (run_connection_loop quiet display greeted (gets_seven ∷ [])) ≡ open_at told_seven
unfolding settle tell after_event apply_action run_connection_loop select take_branch on_received
    first_ready new_task
serves_seven = refl

-- The same server, asked to shut down while its task is served.
abbrev asked : System ℕ String ℕ
asked = record served { server = step config retry none (served.server) requests_shutdown }

-- Its next poll finds the shutdown.
abbrev sees_it : Poll ℕ
sees_it = record gets_seven { shutdown = true }

abbrev ended_task : System ℕ String ℕ
ended_task = record asked {
  tasks =
      record newcomer {
        place = 2;
        stage = lives (run_connection_loop quiet display told_seven (sees_it ∷ []));
      }
      ∷ [];
}

asked-Steps : Steps config retry none quiet display asked ended_task
unfolding start step step_at on_bind enter_accept on_accept admit_connection try_acquire set_status
    run_connection_loop select take_branch on_received first_ready new settle tell after_event
    apply_action spawned new_task
asked-Steps =
    next
      (polls [] [] (record newcomer { place = 2; stage = lives (open_at told_seven) }) told_seven
        sees_it refl refl tt refl)
      stays

task_steps-bounded_example :
    task_steps config retry none quiet display asked-Steps ≤ 3 * length asked.tasks
unfolding start step step_at on_bind enter_accept on_accept admit_connection try_acquire set_status
    new
task_steps-bounded_example =
    task_steps-bounded config retry none quiet display asked ended_task asked-Steps refl
