-- ===== src/Server/Config.antt =====
-- src/ws/server/config.rs: the configuration of a server and its retry policy. Durations are
-- nanoseconds.
use Prim.Native.String.{String}
use shared_ws.Prelude.{ℕ, ◌*◌, Option, none, some, Bool, false, min, ltb, leb, ◌==◌, if◌then◌else◌}
use shared_ws.Types.Basic.{Result, ok, err}

-- `A` is the type of addresses, `W` the limits of the websocket layer.
pub record WsServerConfig (A W : Type 0) : Type 0 where
  pub bind_addr : A
  pub backlog : ℕ
  pub max_connections : ℕ
  pub handshake_timeout : ℕ
  pub endpoint_tick_interval : ℕ
  pub shutdown_timeout : ℕ
  pub retained_commands_per_client : ℕ
  pub websocket : W

pub data ManagedWsServerStartError : Type 0 where
  invalid_config : String → String → ManagedWsServerStartError
  runtime_unavailable : ManagedWsServerStartError

unfoldable pub new : {A W : Type 0} → A → W → WsServerConfig A W
new bind_addr websocket = record {
  bind_addr = bind_addr;
  backlog = 1024;
  max_connections = 256;
  handshake_timeout = 5000000000;
  endpoint_tick_interval = 1000000000;
  shutdown_timeout = 5000000000;
  retained_commands_per_client = 1;
  websocket = websocket;
}

unfoldable pub validate :
    {A W : Type 0} → WsServerConfig A W → Result ManagedWsServerStartError (Unit {0})
validate c =
    if c.backlog == 0
    then err (invalid_config "backlog" "listen backlog must be greater than zero")
    else if c.max_connections == 0
    then err (invalid_config "max_connections" "connection cap must admit at least one client")
    else if c.handshake_timeout == 0
    then err (invalid_config "handshake_timeout" "handshake timeout must be greater than zero")
    else if c.endpoint_tick_interval == 0
    then err
        (invalid_config "endpoint_tick_interval" "endpoint tick interval must be greater than zero")
    else if c.shutdown_timeout == 0
    then err (invalid_config "shutdown_timeout" "shutdown timeout must be greater than zero")
    else if c.retained_commands_per_client == 0
    then err (
        invalid_config "retained_commands_per_client"
          "at least one managed command must be retained per client")
    else ok tt

pub record WsServerRetryPolicy : Type 0 where
  pub initial_backoff : ℕ
  pub max_backoff : ℕ
  pub max_attempts : Option ℕ

abbrev is_zero_attempts : Option ℕ → Bool
is_zero_attempts none = false
is_zero_attempts (some n) = n == 0

unfoldable pub validate_policy : WsServerRetryPolicy → Result ManagedWsServerStartError (Unit {0})
validate_policy p =
    if p.initial_backoff == 0
    then err (invalid_config "initial_backoff" "initial bind backoff must be greater than zero")
    else if ltb p.max_backoff p.initial_backoff
    then err
        (invalid_config "max_backoff" "maximum bind backoff must not be below the initial backoff")
    else if is_zero_attempts p.max_attempts
    then err (invalid_config "max_attempts" "retry budget must allow at least one attempt")
    else ok tt

-- `Duration::MAX`, in nanoseconds: `u64::MAX` seconds and 999,999,999 nanoseconds.
abbrev pub duration_max : ℕ
duration_max = 18446744073709551615999999999

unfoldable pub next_backoff : WsServerRetryPolicy → ℕ → ℕ
next_backoff p current = min (min duration_max (current * 2)) p.max_backoff

unfoldable pub is_exhausted : WsServerRetryPolicy → ℕ → Bool
is_exhausted p attempts = elim p.max_attempts [ some limit ↦ leb limit attempts | none ↦ false ]
