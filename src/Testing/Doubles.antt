-- ===== src/Testing/Doubles.antt =====
-- src/testing.rs: the strategy that never retries, and the endpoint for requests over JSON-RPC, as
-- the managed loops see them. Neither keeps a state.
use shared_ws.Prelude.{false, none, []}
use shared_ws.Types.Basic.{ok, abort, WsErrorAction, WsMessageAction, WsParseOutcome}
use shared_ws.Types.Endpoint.{Endpoint}
use shared_ws.Types.Strategy.{ReconnectStrategy}
use shared_ws.Types.Defaults.{EndpointMethods, with_defaults}

abbrev pub no_reconnect : ReconnectStrategy (Unit {0})
no_reconnect = record {
  next_delay = λ r. (86400000000000, r);
  reset = λ r. r;
  should_retry = λ r. false;
}

-- `NoSubscriptions` is its subscription manager.
abbrev pub json_rpc_methods : (J : Type 0) → EndpointMethods (Unit {0}) (Unit {0}) (Unit {0}) J
json_rpc_methods J = record {
  initial_subscriptions = λ st. ([], st);
  update_subscriptions = λ st action. (ok [], st);
  serialize_subscription = λ st u. ([], st);
  generate_auth = λ st. none;
  parse = λ st bytes. (ok (WsParseOutcome.message WsMessageAction.continue), st);
  handle_message = λ st m. (ok tt, st);
  handle_server_error = λ st code text value. (WsErrorAction.continue, st);
  reset_state = λ st. st;
  classify_disconnect = λ st cause. abort;
}

abbrev pub json_rpc_endpoint : (J : Type 0) → Endpoint (Unit {0}) (Unit {0}) (Unit {0}) J
json_rpc_endpoint J = with_defaults (json_rpc_methods J)
