-- ===== src/Server/Handle.antt =====
-- src/ws/server/handle.rs: the handle of a managed server. The server runs beside it, so a call that
-- reads the shared state twice is given the state of each read; the broadcast channel is a
-- parameter.
pub mod Dispatch
mod Tests
use shared_ws.Prelude.{
  ℕ, ◌≡◌, Bool, true, false, Option, none, some, List, [], ◌∷◌, ◌==◌, if◌then◌else◌,
}
use shared_ws.Types.Basic.{Result, ok, err}
use shared_ws.Server.Lifecycle.{
  ManagedWsServerStatus, starting, retrying, listening, shutting_down, stopped, terminal, is_final,
  ManagedWsServerTerminalError, ServerShared,
}

pub data ManagedWsServerDispatchError (A : Type 0) : Type 0 where
  terminated : ManagedWsServerTerminalError A → ManagedWsServerDispatchError A
  not_running : ManagedWsServerDispatchError A

pub data ManagedWsServerShutdownError : Type 0 where
  shutdown_timeout : ℕ → ManagedWsServerShutdownError

-- `settled` has the expected status and the last one; a timeout has the time waited too.
pub data ManagedWsServerStatusError : Type 0 where
  settled : ManagedWsServerStatus → ManagedWsServerStatus → ManagedWsServerStatusError
  status_timeout : ManagedWsServerStatus → ManagedWsServerStatus → ℕ → ManagedWsServerStatusError

abbrev status_index : ManagedWsServerStatus → ℕ
status_index starting = 0
status_index retrying = 1
status_index listening = 2
status_index shutting_down = 3
status_index stopped = 4
status_index terminal = 5

-- `command_tx.send`: the number of the receivers, or an error when there is none.
abbrev pub delivered : Option ℕ → ℕ
delivered none = 0
delivered (some n) = n

module _ {A : Type 0} where
  unfoldable pub status_snapshot : ServerShared A → ManagedWsServerStatus
  status_snapshot s = s.status

  -- A second read of the cause, after the status was found terminal.
  unfoldable pub reread_cause :
      Option (ManagedWsServerTerminalError A) → ManagedWsServerDispatchError A
  reread_cause (some e) = terminated e
  reread_cause none = not_running

  unfoldable pub dispatch_at :
      ManagedWsServerStatus → ServerShared A → Option ℕ → Result (ManagedWsServerDispatchError A) ℕ
  dispatch_at shutting_down again sent = err not_running
  dispatch_at stopped again sent = err not_running
  dispatch_at terminal again sent = err (reread_cause again.terminal_error)
  dispatch_at _ again sent = ok (delivered sent)

  unfoldable pub dispatch_unless :
      Option (ManagedWsServerTerminalError A)
      → ManagedWsServerStatus
      → ServerShared A
      → Option ℕ
      → Result (ManagedWsServerDispatchError A) ℕ
  dispatch_unless (some e) status again sent = err (terminated e)
  dispatch_unless none status again sent = dispatch_at status again sent

  -- The cause is read in `first`, the status in `second`, and the cause again in `third`.
  unfoldable pub dispatch :
      {C : Type 0}
      → (C → Option ℕ)
      → ServerShared A
      → ServerShared A
      → ServerShared A
      → C
      → Result (ManagedWsServerDispatchError A) ℕ
  dispatch send first second third command =
      dispatch_unless first.terminal_error (status_snapshot second) third (send command)

  -- Whether the task of the server, if the handle has it, ends within the timeout: the answer, the
  -- state with the shutdown requested, and whether the task is aborted.
  unfoldable pub shutdown_with_timeout :
      ServerShared A
      → Option Bool
      → ℕ
      → Result ManagedWsServerShutdownError (Unit {0}) × ServerShared A × Bool
  shutdown_with_timeout s none timeout = (ok tt, record s { shutdown = true }, false)
  shutdown_with_timeout s (some true) timeout = (ok tt, record s { shutdown = true }, false)
  shutdown_with_timeout s (some false) timeout =
      (err (shutdown_timeout timeout), record s { shutdown = true }, true)

  unfoldable pub terminal_error : ServerShared A → Option (ManagedWsServerTerminalError A)
  terminal_error s = s.terminal_error

-- What ends the wait for another status: the timer, with the status at that time, or the server,
-- which drops the channel.
pub data WaitEnd : Type 0 where
  times_out : ManagedWsServerStatus → WaitEnd
  sender_gone : WaitEnd

-- `observed` are the statuses that `borrow_and_update` reads, one after each change.
unfoldable pub wait_for_status :
    ManagedWsServerStatus
    → ℕ
    → ManagedWsServerStatus
    → List ManagedWsServerStatus
    → WaitEnd
    → Result ManagedWsServerStatusError (Unit {0})
wait_for_status expected timeout current [] end =
    if status_index current == status_index expected
    then ok tt
    else if is_final current
    then err (settled expected current)
    else elim end [
      | times_out last ↦ err (status_timeout expected last timeout)
      | sender_gone ↦ err (settled expected current)
    ]
wait_for_status expected timeout current (next ∷ observed) end =
    let later = wait_for_status expected timeout next observed end in
    if status_index current == status_index expected
    then ok tt
    else if is_final current
    then err (settled expected current)
    else later
