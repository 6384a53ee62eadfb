-- ===== src/Types/Defaults.antt =====
-- src/core/types.rs: the methods that `WsEndpointHandler` gives by default, over those that an
-- application must write.
use Prim.Native.String.{String}
use shared_ws.Prelude.{Option, none, some, List}
use shared_ws.Frame.{Bytes, WsFrame, text, binary, ping, pong, close, frame_bytes}
use shared_ws.Types.Basic.{
  ℤ, Result, ok, WsDisconnectAction, WsDisconnectCause, WsErrorAction, WsMessageAction,
  WsParseOutcome, is_public, WsSubscriptionAction,
}
use shared_ws.Types.Endpoint.{Endpoint}

-- `WsSubscriptionManager` and `WsEndpointHandler`, in the methods without a default.
pub record EndpointMethods (St M U J : Type 0) : Type 0 where
  pub initial_subscriptions : St → List U × St
  pub update_subscriptions : St → WsSubscriptionAction U → Result String (List U) × St
  pub serialize_subscription : St → U → Bytes × St
  pub generate_auth : St → Option Bytes
  pub parse : St → Bytes → Result String (WsParseOutcome M J) × St
  pub handle_message : St → M → Result String (Unit {0}) × St
  pub handle_server_error : St → Option ℤ → String → Option J → WsErrorAction × St
  pub reset_state : St → St
  pub classify_disconnect : St → WsDisconnectCause → WsDisconnectAction

module _ {St M U J : Type 0} (methods : EndpointMethods St M U J) where
  unfoldable pub parse_text : St → Bytes → Result String (WsParseOutcome M J) × St
  parse_text st bytes = methods.parse st bytes

  abbrev parse_bytes : St → Option Bytes → Result String (WsParseOutcome M J) × St
  parse_bytes st none = (ok (WsParseOutcome.message WsMessageAction.continue), st)
  parse_bytes st (some bytes) = methods.parse st bytes

  unfoldable pub parse_frame : St → WsFrame → Result String (WsParseOutcome M J) × St
  unfolding parse_text
  parse_frame st (text bytes) = parse_text st bytes
  parse_frame st (binary bytes) = parse_bytes st (frame_bytes (binary bytes))
  parse_frame st (ping bytes) = parse_bytes st (frame_bytes (ping bytes))
  parse_frame st (pong bytes) = parse_bytes st (frame_bytes (pong bytes))
  parse_frame st (close f) = parse_bytes st (frame_bytes (close f))

  abbrev pub with_defaults : Endpoint St M U J
  with_defaults = record {
    initial_subscriptions = methods.initial_subscriptions;
    update_subscriptions = methods.update_subscriptions;
    serialize_subscription = methods.serialize_subscription;
    generate_auth = methods.generate_auth;
    parse_frame = parse_frame;
    handle_message = methods.handle_message;
    handle_server_error = methods.handle_server_error;
    reset_state = methods.reset_state;
    classify_disconnect = methods.classify_disconnect;
    session_mode = λ st. is_public;
    on_open = λ st. st;
    on_connection_opened = λ st again. (none, st);
    on_connection_disconnected = λ st cause again. (none, st);
    on_inbound_frame = λ st frame. st;
    on_outbound_frame = λ st frame. st;
  }
