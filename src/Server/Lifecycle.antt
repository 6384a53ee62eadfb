-- ===== src/Server/Lifecycle.antt =====
-- src/ws/server/runtime.rs and handle.rs: `run_server` with its accept loop, step by step over its
-- awaits, and the status that the handle shows. A bind attempt is an event as well, since its answer
-- is the system's. A connection task is the slot of the connection budget that it holds.
mod Shared
use Prim.Native.String.{String}
use shared_ws.Prelude.{
  ℕ, ◌+◌, ◌-◌, ◌%◌, Option, none, some, Bool, true, false, ◌||◌, List, [], ◌∷◌, leb, ◌==◌,
  if◌then◌else◌,
}
unfoldable pub use Shared.*
use shared_ws.Types.Basic.{Result, ok, err}
use shared_ws.Server.Config.{WsServerConfig, WsServerRetryPolicy, next_backoff, is_exhausted}

-- The await at which the server stands: a bind attempt is next, `select!` of the accept loop after
-- so many accepted sockets, the sleep before another bind, the drain of the connections, the end of
-- the aborted ones, or none; or, which is no await, between the two writes of `set_terminal`.
pub data Phase : Type 0 where
  binding draining publishing aborting finished : Phase
  accepting waiting : ℕ → Phase

-- `clients` are the ids of the connections whose tasks run.
pub record Server (A : Type 0) : Type 0 where
  pub phase : Phase
  pub shared : ServerShared A
  pub backoff : ℕ
  pub consecutive_failures : ℕ
  pub origin : FailureOrigin
  pub clients : List ℕ

pub data Event : Type 0 where
  -- The handle asks for a shutdown.
  requests_shutdown : Event
  -- The branch of a `select!` that waits for the shutdown is taken.
  sees_shutdown : Event
  -- The answer to a bind, or what keeps the listener that is bound from telling its address.
  binds : Result String (Option String) → Event
  accepts : Result IoError (Unit {0}) → Event
  sleeps : Event
  -- A connection task ends.
  connection_ends : ℕ → Event
  -- The second write of `set_terminal`.
  publishes : Event
  -- The drain or the abort of the connections ends, with no task left.
  clients_gone : Event

abbrev pub without : ℕ → List ℕ → List ℕ
without id [] = []
without id (x ∷ xs) = let rest = without id xs in if x == id then xs else x ∷ rest

abbrev pub contains : ℕ → List ℕ → Bool
contains id [] = false
contains id (x ∷ xs) = let later = contains id xs in if x == id then true else later

module _ {A W : Type 0} (config : WsServerConfig A W) (retry : WsServerRetryPolicy)
    (terminal_accept_failure_after : Option ℕ) where
  -- `break 'lifecycle`
  unfoldable pub leave_lifecycle : Server A → Server A
  leave_lifecycle s = record s { phase = draining; shared = set_status s.shared shutting_down }

  unfoldable pub end_terminal : Server A → ManagedWsServerTerminalError A → Server A
  end_terminal s error = record s { phase = publishing; shared = store_cause s.shared error }

  abbrev pub exhausted_error : FailureOrigin → ℕ → String → ManagedWsServerTerminalError A
  exhausted_error bind attempts failure = bind_retry_exhausted config.bind_addr attempts failure
  exhausted_error accept attempts failure = accept_retry_exhausted config.bind_addr attempts failure

  -- What follows a failed bind or a lost listener. `consecutive_failures` is a `u32`.
  unfoldable pub on_failure : Server A → String → Server A
  unfolding end_terminal
  on_failure s failure =
      let attempts = (s.consecutive_failures + 1) % 4294967296 in
      let counted = record s { consecutive_failures = attempts } in
      if is_exhausted retry attempts
      then end_terminal counted (exhausted_error s.origin attempts failure)
      else record counted { phase = waiting s.backoff; shared = set_status s.shared retrying }

  -- The top of the accept loop, with the fault that tests inject.
  unfoldable pub enter_accept : Server A → ℕ → Server A
  unfolding end_terminal
  enter_accept s accepted = elim terminal_accept_failure_after [
    | none ↦ record s { phase = accepting accepted }
    | some threshold ↦
        if leb threshold accepted
        then end_terminal s (internal_loop_failure accepted)
        else record s { phase = accepting accepted }
  ]

  -- The connection id is a `u64`.
  unfoldable pub admit_connection : Server A → Server A
  admit_connection s = elim (try_acquire s.shared config.max_connections) [
    | none ↦ s
    | some shared ↦ record s {
      shared = record shared {
        next_connection_id = (s.shared.next_connection_id + 1) % 18446744073709551616;
      };
      clients = s.shared.next_connection_id ∷ s.clients;
    }
  ]

  -- A task that ends drops its slot.
  unfoldable pub end_connection : Server A → ℕ → Server A
  end_connection s id =
      if contains id s.clients
      then record s {
        shared = record (s.shared) { active = s.shared.active - 1 };
        clients = without id s.clients;
      }
      else s

  -- The tasks of these connections end.
  unfoldable pub end_connections : Server A → List ℕ → Server A
  end_connections s [] = s
  end_connections s (id ∷ ids) = end_connections (end_connection s id) ids

  -- A bound listener resets the failures and the backoff.
  abbrev pub bound : Server A → Server A
  bound s = record s {
    consecutive_failures = 0;
    backoff = retry.initial_backoff;
    origin = accept;
    shared = set_status s.shared listening;
  }

  unfoldable pub on_bind : Server A → Result String (Option String) → Server A
  unfolding on_failure enter_accept
  on_bind s (err failure) = on_failure s failure
  on_bind s (ok no_address) = elim no_address [
    | none ↦ enter_accept (bound s) 0
    | some failure ↦ on_failure (bound s) failure
  ]

  unfoldable pub on_accept : Server A → ℕ → Result IoError (Unit {0}) → Server A
  unfolding on_failure enter_accept admit_connection
  on_accept s accepted (ok _) = enter_accept (admit_connection s) (accepted + 1)
  on_accept s accepted (err e) =
      if is_transient_accept_error e then enter_accept s accepted else on_failure s e.text

  -- The top of `'lifecycle` looks for a shutdown before it binds, and the `select!` of the accept
  -- loop is biased to it.
  unfoldable pub step_at : Phase → Server A → Event → Server A
  step_at q s requests_shutdown = record s { shared = record (s.shared) { shutdown = true } }
  step_at q s (connection_ends id) = end_connection s id
  step_at binding s (binds r) = if s.shared.shutdown then leave_lifecycle s else on_bind s r
  step_at (accepting accepted) s (accepts r) =
      if s.shared.shutdown then leave_lifecycle s else on_accept s accepted r
  step_at (accepting accepted) s sees_shutdown = if s.shared.shutdown then leave_lifecycle s else s
  step_at (waiting d) s sleeps = record s {
    phase = binding;
    backoff = next_backoff retry s.backoff;
  }
  step_at (waiting d) s sees_shutdown = if s.shared.shutdown then leave_lifecycle s else s
  step_at publishing s publishes = record s { phase = aborting; shared = publish_terminal s.shared }
  step_at draining s clients_gone =
      let ended = end_connections s s.clients in
      record ended { phase = finished; shared = set_status ended.shared stopped }
  step_at aborting s clients_gone = record (end_connections s s.clients) { phase = finished }
  step_at _ s _ = s

  unfoldable pub step : Server A → Event → Server A
  step s e = step_at s.phase s e

  unfoldable pub run : Server A → List Event → Server A
  run s [] = s
  run s (e ∷ es) = run (step s e) es

  -- The server as it is spawned, at its first bind.
  unfoldable pub start : Server A
  start = record {
    phase = binding;
    shared = record {
      status = starting;
      shutdown = false;
      terminal_error = none;
      active = 0;
      next_connection_id = 0;
    };
    backoff = retry.initial_backoff;
    consecutive_failures = 0;
    origin = bind;
    clients = [];
  }
