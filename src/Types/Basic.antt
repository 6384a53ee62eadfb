-- ===== src/Types/Basic.antt =====
-- src/core/types.rs and src/ws/managed.rs: the vocabulary of the managed client, and the traits
-- that an application implements, as records of functions over their state.
use Prim.Native.String.{String}
use shared_ws.Prelude.{ℕ, Option, List}
use shared_ws.Frame.{Bytes}

-- `i32` codes are carried and never computed with: `negsuc n` is -(n + 1).
pub data ℤ : Type 0 where
  pos negsuc : ℕ → ℤ

-- Durations are numbers of nanoseconds.
pub data WebSocketError : Type 0 where
  connection_failed : String → WebSocketError
  authentication_failed : String → Option ℤ → WebSocketError
  subscription_failed : String → String → WebSocketError
  transport_error : String → String → WebSocketError
  parse_failed actor_error timeout : String → WebSocketError
  stale_connection : ℕ → WebSocketError
  server_error : Option ℤ → String → WebSocketError
  invalid_state endpoint_specific : String → WebSocketError
  outbound_queue_full : WebSocketError
  rate_limited : String → Option ℕ → WebSocketError

-- `high_latency` has the percentile, an `f64` that is 50.0 or 99.0, as a number.
pub data WsDisconnectCause : Type 0 where
  stale_data pong_timeout remote_closed : WsDisconnectCause
  read_failure endpoint_requested : String → WsDisconnectCause
  server_error : Option ℤ → String → WsDisconnectCause
  internal_error : String → String → WsDisconnectCause
  handshake_failed : Option ℕ → String → WsDisconnectCause
  high_latency : ℕ → ℕ → WsDisconnectCause

pub data WsDisconnectAction : Type 0 where
  immediate_reconnect backoff_reconnect abort : WsDisconnectAction

pub data WsConnectionStatus : Type 0 where
  connecting connected disconnected : WsConnectionStatus

pub data WsMessageAction (T : Type 0) : Type 0 where
  continue session_authenticated shutdown : WsMessageAction T
  send : Bytes → WsMessageAction T
  process : T → WsMessageAction T
  reconnect : String → WsMessageAction T

-- `J` is the JSON value type of the parser library.
pub data WsParseOutcome (T J : Type 0) : Type 0 where
  server_error : Option ℤ → String → Option J → WsParseOutcome T J
  message : WsMessageAction T → WsParseOutcome T J

pub data WsSubscriptionAction (U : Type 0) : Type 0 where
  add remove replace : List U → WsSubscriptionAction U
  clear : WsSubscriptionAction U

pub data WsSessionMode : Type 0 where
  is_public auth_gated : WsSessionMode

pub data WsErrorAction : Type 0 where
  continue reconnect fatal : WsErrorAction

pub data Result (E A : Type 0) : Type 0 where
  ok : A → Result E A
  err : E → Result E A
