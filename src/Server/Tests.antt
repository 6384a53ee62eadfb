-- ===== src/Server/Tests.antt =====
-- The server's lifecycle on small inputs.
use Prim.Native.String.{String}
use shared_ws.Prelude.{◌≡◌, refl, Option, none, some, List, [], ◌∷◌, ◌++◌, arith}
use shared_ws.Types.Basic.{ok, err}
use shared_ws.Server.Config.{WsServerConfig, WsServerRetryPolicy, new, next_backoff}
use shared_ws.Server.Lifecycle.{
  Event, requests_shutdown, sees_shutdown, binds, accepts, sleeps, connection_ends, clients_gone,
  publishes, run, start, step, step_at, IoError, other, is_final, on_bind, on_accept, enter_accept,
  set_status, leave_lifecycle, admit_connection, try_acquire, end_connection, binding, terminal,
  bind_retry_exhausted, ManagedWsServerTerminalError,
}
use shared_ws.Server.Backoff.{backoff_after}
use shared_ws.Server.Endings.{ShowsPhase, run-start-ShowsPhase}
use shared_ws.Server.Retries.{failing, bind_budget_used_up}
use shared_ws.Server.Drained.{HasStopped}
use shared_ws.Server.Stopping.{requests_shutdown-run}

abbrev pub config : WsServerConfig String (Unit {0})
config = new "[::1]:8080" tt

abbrev pub retry : WsServerRetryPolicy
retry = record { initial_backoff = 100000000; max_backoff = 5000000000; max_attempts = none }

-- A bind that fails, one that succeeds, a connection that comes and goes, and a shutdown.
abbrev script : List Event
script =
    binds (err "in use")
    ∷ sleeps
    ∷ binds (ok none)
    ∷ accepts (ok tt)
    ∷ accepts (ok tt)
    ∷ connection_ends 0
    ∷ requests_shutdown
    ∷ sees_shutdown
    ∷ clients_gone
    ∷ []

abbrev broken : IoError
broken = record { kind = other; raw_os_error = none; text = "broken" }

run-start-ShowsPhase_example :
    ShowsPhase
      (run config retry none (start config retry none) script).phase
      (run config retry none (start config retry none) script).shared
run-start-ShowsPhase_example = run-start-ShowsPhase config retry none script

-- The sixth doubling would be 6.4 s.
sixth_backoff : backoff_after retry 6 ≡ 5000000000
unfolding next_backoff
sixth_backoff = refl

abbrev impatient : WsServerRetryPolicy
impatient = record { initial_backoff = 100; max_backoff = 150; max_attempts = some 3 }

bind_budget_used_up_example :
    let s = run config impatient none (start config impatient none) (failing "in use" 2) in
    let failed = step config impatient none s (binds (err "in use")) in
    let over = step config impatient none failed publishes in
    let cause : Option (ManagedWsServerTerminalError String) =
      some (bind_retry_exhausted "[::1]:8080" 3 "in use") in
    (s.phase ≡ binding)
    × (s.backoff ≡ 150)
    × (failed.shared.terminal_error ≡ cause)
    × (over.shared.status ≡ terminal)
    × (over.shared.terminal_error ≡ cause)
unfolding new next_backoff
bind_budget_used_up_example =
    bind_budget_used_up config impatient none "in use" 2 refl (omega arith)

-- Two connections are open; the first accept that follows the request fails.
requests_shutdown-run_example : HasStopped (
    run config retry none (start config retry none) (
      (binds (ok none) ∷ accepts (ok tt) ∷ accepts (ok tt) ∷ [])
      ++ requests_shutdown ∷ accepts (err broken) ∷ connection_ends 1 ∷ clients_gone ∷ []))
unfolding is_final run step step_at start on_bind on_accept enter_accept set_status leave_lifecycle
    admit_connection try_acquire new end_connection
requests_shutdown-run_example =
    requests_shutdown-run config retry none
      (binds (ok none) ∷ accepts (ok tt) ∷ accepts (ok tt) ∷ [])
      (accepts (err broken) ∷ connection_ends 1 ∷ clients_gone ∷ []) (refl, refl) (omega arith)
