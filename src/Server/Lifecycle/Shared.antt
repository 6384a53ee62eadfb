-- ===== src/Server/Lifecycle/Shared.antt =====
-- src/ws/server/runtime.rs and types.rs: what the handle and the server share, and the errors that
-- it ends with.
use Prim.Native.String.{String}
use shared_ws.Prelude.{
  ℕ, ◌+◌, Option, none, some, Bool, true, false, ◌||◌, leb, ◌==◌, if◌then◌else◌,
}

pub data ManagedWsServerStatus : Type 0 where
  starting listening retrying shutting_down stopped terminal : ManagedWsServerStatus

unfoldable pub is_final : ManagedWsServerStatus → Bool
is_final stopped = true
is_final terminal = true
is_final _ = false

pub data ManagedWsServerTerminalError (A : Type 0) : Type 0 where
  bind_retry_exhausted : A → ℕ → String → ManagedWsServerTerminalError A
  accept_retry_exhausted : A → ℕ → String → ManagedWsServerTerminalError A
  internal_loop_failure : ℕ → ManagedWsServerTerminalError A

pub data FailureOrigin : Type 0 where
  bind accept : FailureOrigin

-- `ErrorKind`, as far as it is told apart.
pub data ErrorKind : Type 0 where
  connection_aborted connection_reset interrupted would_block timed_out other : ErrorKind

pub record IoError : Type 0 where
  pub kind : ErrorKind
  pub raw_os_error : Option ℕ
  pub text : String

abbrev is_transient_kind : ErrorKind → Bool
is_transient_kind other = false
is_transient_kind _ = true

unfoldable pub is_transient_accept_error : IoError → Bool
is_transient_accept_error e =
    is_transient_kind e.kind
    || elim e.raw_os_error [ none ↦ false | some code ↦ code == 23 || code == 24 ]

-- `ServerShared`, less the command channel.
pub record ServerShared (A : Type 0) : Type 0 where
  pub status : ManagedWsServerStatus
  pub shutdown : Bool
  pub terminal_error : Option (ManagedWsServerTerminalError A)
  pub active : ℕ
  pub next_connection_id : ℕ

abbrev is_terminal : ManagedWsServerStatus → Bool
is_terminal terminal = true
is_terminal _ = false

module _ {A : Type 0} where
  -- A terminal end is never overwritten.
  unfoldable pub set_status : ServerShared A → ManagedWsServerStatus → ServerShared A
  set_status s status = elim s.terminal_error [
    | none ↦ record s { status = status }
    | some _ ↦ if is_terminal status then record s { status = status } else s
  ]

  -- The two writes of `set_terminal`: first the cause, which is written once, then the status.
  unfoldable pub store_cause : ServerShared A → ManagedWsServerTerminalError A → ServerShared A
  store_cause s error = record s {
    terminal_error = elim s.terminal_error [ none ↦ some error | some first ↦ some first ];
  }

  unfoldable pub publish_terminal : ServerShared A → ServerShared A
  publish_terminal s = record s { status = terminal }

  -- `ConnectionSlot::try_acquire`
  unfoldable pub try_acquire : ServerShared A → ℕ → Option (ServerShared A)
  try_acquire s limit =
      if leb limit s.active then none else some (record s { active = s.active + 1 })
