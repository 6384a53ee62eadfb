-- ===== src/Managed/Shutdown/Tests.antt =====
-- A loop whose endpoint wants every reconnect at once.
use shared_ws.Prelude.{ℕ, ◌≡◌, refl, true, false, some, List, [], ◌∷◌}
use shared_ws.Frame.{Bytes}
use shared_ws.Types.Basic.{err, ok, WebSocketError, auth_gated, immediate_reconnect}
use shared_ws.Types.Endpoint.{Endpoint}
use shared_ws.Managed.Io.{ManagedWsCommand}
use shared_ws.Managed.Loop.{Loop, Event, connecting, connects, wakes, run, start, enter_connecting}
use shared_ws.Managed.Handle.{spawn_managed_ws_task, shutdown_with_timeout, drop_handle, enqueue}
use shared_ws.Managed.Shutdown.{run_unheard}
use shared_ws.Managed.Fixtures.{counting, fast_reconnect, display}

abbrev impatient : Endpoint ℕ ℕ Bytes (Unit {0})
impatient = record (counting auth_gated) { classify_disconnect = λ st cause. immediate_reconnect }

abbrev first : Loop ℕ Bytes (Unit {0})
first = start impatient fast_reconnect display 0 tt

abbrev refused : Event Bytes
refused = connects (err WebSocketError.outbound_queue_full)

abbrev script : List (Event Bytes)
script = refused ∷ wakes (some (some ManagedWsCommand.shutdown)) ∷ refused ∷ []

run_unheard_example : (run impatient fast_reconnect display first script).phase ≡ connecting
unfolding start enter_connecting
run_unheard_example =
    run_unheard impatient fast_reconnect display (λ st cause. refl) first script refl
      (tt, (tt, (tt, tt)))

-- A task that ends in time: the shutdown is queued, and once more when the handle is dropped.
shutdown_in_time : shutdown_with_timeout (λ n. "0") "closed" spawn_managed_ws_task true 9 ≡ (
  ok tt,
  record (spawn_managed_ws_task {U = Bytes}) {
    queued = ManagedWsCommand.shutdown ∷ ManagedWsCommand.shutdown ∷ [];
    has_task = false;
  },
)
unfolding shutdown_with_timeout spawn_managed_ws_task drop_handle enqueue
shutdown_in_time = refl
