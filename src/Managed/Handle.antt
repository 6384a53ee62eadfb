-- ===== src/Managed/Handle.antt =====
-- src/ws/managed.rs: the handle of a managed loop. Whether the task ends within a timeout and the
-- text of an error are given.
use Prim.Native.String.{String, ◌++◌ as ◌<>◌}
use shared_ws.Prelude.{
  ℕ, ◌/◌, Bool, true, false, List, [], ◌∷◌, ◌++◌, if◌then◌else◌, ◌&&◌, not, ◌≡◌, ◌≢◌, arith,
}
use shared_ws.Types.Basic.{Result, ok, err, WsConnectionStatus, disconnected}
use shared_ws.Managed.Io.{ManagedWsCommand, ws_status_to_u8, ws_status_from_u8}

-- `ManagedWsLoopHandle`: what is in its command channel, whether the loop still has the receiver,
-- the status byte, and its task, with whether that was aborted.
pub record ManagedWsLoopHandle (U : Type 0) : Type 0 where
  pub queued : List (ManagedWsCommand U)
  pub receiver_alive : Bool
  pub status : ℕ
  pub has_task : Bool
  pub aborted : Bool

module _ {U : Type 0} where
  unfoldable pub spawn_managed_ws_task : ManagedWsLoopHandle U
  spawn_managed_ws_task = record {
    queued = [];
    receiver_alive = true;
    status = ws_status_to_u8 disconnected;
    has_task = true;
    aborted = false;
  }

  unfoldable pub status_snapshot : ManagedWsLoopHandle U → WsConnectionStatus
  status_snapshot h = ws_status_from_u8 h.status

  unfoldable pub enqueue : ManagedWsLoopHandle U → ManagedWsCommand U → ManagedWsLoopHandle U
  enqueue h command = if h.receiver_alive then record h { queued = h.queued ++ command ∷ [] } else h

  -- `Drop::drop`
  unfoldable pub drop_handle : ManagedWsLoopHandle U → ManagedWsLoopHandle U
  unfolding enqueue
  drop_handle h =
      let h' = enqueue h ManagedWsCommand.shutdown in
      if h'.has_task then record h' { has_task = false; aborted = true } else h'

  -- The answer, and the handle once it is dropped, which it is on every return.
  abbrev await_task :
      (ℕ → String)
      → ManagedWsLoopHandle U
      → Bool
      → ℕ
      → Result String (Unit {0}) × ManagedWsLoopHandle U
  await_task show h ends_in_time timeout =
      if h.has_task && not ends_in_time
      then (
        err ("websocket loop did not stop within " <> show (timeout / 1000000) <> " ms"),
        drop_handle (record h { has_task = false }),
      )
      else (ok tt, drop_handle (record h { has_task = false }))

  unfoldable pub shutdown_with_timeout :
      (ℕ → String)
      → String
      → ManagedWsLoopHandle U
      → Bool
      → ℕ
      → Result String (Unit {0}) × ManagedWsLoopHandle U
  unfolding drop_handle
  shutdown_with_timeout show send_error h ends_in_time timeout =
      if h.receiver_alive
      then await_task show (enqueue h ManagedWsCommand.shutdown) ends_in_time timeout
      else (err ("failed to enqueue websocket shutdown: " <> send_error), drop_handle h)

  -- A call whose task does not end in time fails and leaves the task running, since it gave the
  -- task up before the handle was dropped.
  pub shutdown_with_timeout_late :
      (show : ℕ → String) (send_error : String) (h : ManagedWsLoopHandle U) (timeout : ℕ)
      → h.receiver_alive ≡ true
      → h.has_task ≡ true
      → h.aborted ≡ false
      → ((shutdown_with_timeout show send_error h false timeout).0 ≢ ok tt)
        × ((shutdown_with_timeout show send_error h false timeout).1.aborted ≡ false)
  unfolding shutdown_with_timeout drop_handle enqueue
  shutdown_with_timeout_late show send_error h timeout a t b = ground (arith, a, t, b)
