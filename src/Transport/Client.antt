-- ===== src/Transport/Client.antt =====
-- src/client.rs: connecting and accepting without the gate, with the limits of a client.
use Prim.Native.String.{String}
use shared_ws.Prelude.{ℕ, ◌*◌, ◌^◌, ◌≡◌, refl, Bool, Option, none, some}
use shared_ws.Types.Basic.{Result, ok, err, WebSocketError}
use shared_ws.Frame.{WsFrame}
use shared_ws.Transport.{
  CloseCodes, TungsteniteMessage, WebSocketConfig, map_ws_error, msg_to_frame, build_ws_config,
  default_buffers,
}

pub record WsConnectConfig : Type 0 where
  pub max_message_size : Option ℕ
  pub max_frame_size : Option ℕ
  pub write_buffer_size : ℕ
  pub max_write_buffer_size : ℕ

unfoldable pub default_connect_config : WsConnectConfig
default_connect_config = record {
  max_message_size = some (16 * 1024 * 1024);
  max_frame_size = some (16 * 1024 * 1024);
  write_buffer_size = 128 * 2 ^ 10;
  max_write_buffer_size = 256 * 2 ^ 10;
}

-- `WebSocketConfig::from`
unfoldable pub web_socket_config : WsConnectConfig → WebSocketConfig
web_socket_config cfg = record {
  max_message_size = cfg.max_message_size;
  max_frame_size = cfg.max_frame_size;
  write_buffer_size = cfg.write_buffer_size;
  max_write_buffer_size = cfg.max_write_buffer_size;
}

-- `WsClient::next`, from an item of tungstenite's stream.
unfoldable pub client_next :
    {K R : Type 0}
    → CloseCodes K
    → Option (Result String (TungsteniteMessage K R))
    → Option (Result WebSocketError WsFrame)
unfolding msg_to_frame map_ws_error
client_next codes none = none
client_next codes (some (err e)) = some (err (map_ws_error "read" e))
client_next codes (some (ok msg)) = some (msg_to_frame codes msg)

abbrev connection_failed : {Socket : Type 0} → Result String Socket → Result WebSocketError Socket
connection_failed (ok socket) = ok socket
connection_failed (err e) = err (WebSocketError.connection_failed e)

abbrev configured : Option WsConnectConfig → Option WebSocketConfig
configured none = none
configured (some cfg) = some (web_socket_config cfg)

module _ {Socket : Type 0} where
  unfoldable pub connect_async :
      (String → Result String Socket) → String → Result WebSocketError Socket
  connect_async dial url = connection_failed (dial url)

  -- `dial` takes tungstenite's configuration, whether Nagle's algorithm is off, and a connector.
  unfoldable pub connect_async_tls_with_config :
      {Connector : Type 0}
      → (String → Option WebSocketConfig → Bool → Option Connector → Result String Socket)
      → String
      → Option WsConnectConfig
      → Bool
      → Option Connector
      → Result WebSocketError Socket
  connect_async_tls_with_config dial url config disable_nagle connector =
      connection_failed (dial url (configured config) disable_nagle connector)

  unfoldable pub accept_async_with_config :
      {Stream : Type 0}
      → (Stream → WebSocketConfig → Result String Socket)
      → Stream
      → WsConnectConfig
      → Result WebSocketError Socket
  accept_async_with_config accept stream config =
      connection_failed (accept stream (web_socket_config config))

-- The client and the transport have the same limits by default.
same_defaults : web_socket_config default_connect_config ≡ build_ws_config default_buffers
unfolding web_socket_config default_connect_config build_ws_config default_buffers
same_defaults = refl
