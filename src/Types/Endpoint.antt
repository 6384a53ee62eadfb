-- ===== src/Types/Endpoint.antt =====
-- The traits `WsEndpointHandler` and `WsSubscriptionManager`, which the application implements.
-- A `&mut self` method returns the new state. An application error is the text that it displays as.
use Prim.Native.String.{String}
use shared_ws.Prelude.{Bool, Option, List}
use shared_ws.Frame.{Bytes, WsFrame}
use shared_ws.Types.Basic.{
  ℤ, Result, WsDisconnectAction, WsDisconnectCause, WsErrorAction, WsParseOutcome, WsSessionMode,
  WsSubscriptionAction,
}

-- `St` is the handler's state, `M` its messages, `U` its subscription messages.
pub record Endpoint (St M U J : Type 0) : Type 0 where
  pub initial_subscriptions : St → List U × St
  pub update_subscriptions : St → WsSubscriptionAction U → Result String (List U) × St
  pub serialize_subscription : St → U → Bytes × St
  pub generate_auth : St → Option Bytes
  pub parse_frame : St → WsFrame → Result String (WsParseOutcome M J) × St
  pub handle_message : St → M → Result String (Unit {0}) × St
  pub handle_server_error : St → Option ℤ → String → Option J → WsErrorAction × St
  pub reset_state : St → St
  pub classify_disconnect : St → WsDisconnectCause → WsDisconnectAction
  pub session_mode : St → WsSessionMode
  pub on_open : St → St
  pub on_connection_opened : St → Bool → Option M × St
  pub on_connection_disconnected : St → WsDisconnectCause → Bool → Option M × St
  pub on_inbound_frame : St → WsFrame → St
  pub on_outbound_frame : St → WsFrame → St
