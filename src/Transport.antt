-- ===== src/Transport.antt =====
-- src/transport/tungstenite.rs and src/client.rs: the adapters over tungstenite, which have the same
-- conversions of messages. The conversions between a close code and its number are parameters, and
-- so are the socket and what connects it. tungstenite's `Utf8Bytes` are their bytes.
pub mod Wire
pub mod Connect
pub mod Client
mod Tests
use Prim.Native.String.{String}
use shared_ws.Prelude.{
  ℕ, ◌+◌, ◌*◌, ◌^◌, Bool, true, false, Option, none, some, List, [], ◌∷◌, if◌then◌else◌,
}
use shared_ws.Types.Basic.{Result, ok, err, WebSocketError}
use shared_ws.Frame.{Bytes, WsCloseFrame, WsFrame}
use shared_ws.Frame.Utf8.{is_utf8}
use shared_ws.FixturePolicy.{Host, WsFixtureRequirement, ensure_live_ws_allowed}

-- `tungstenite::protocol::CloseFrame` with the codes `K`, and `tungstenite::Message`, whose raw
-- frames are `R`.
pub record TungCloseFrame (K : Type 0) : Type 0 where
  pub code : K
  pub reason : Bytes

pub data TungsteniteMessage (K R : Type 0) : Type 0 where
  text binary ping pong : Bytes → TungsteniteMessage K R
  close : Option (TungCloseFrame K) → TungsteniteMessage K R
  frame : R → TungsteniteMessage K R

-- `u16::from` and `CloseCode::from`
pub record CloseCodes (K : Type 0) : Type 0 where
  pub number : K → ℕ
  pub from_number : ℕ → K

unfoldable pub map_ws_error : String → String → WebSocketError
map_ws_error context error = WebSocketError.transport_error context error

module _ {K : Type 0} (codes : CloseCodes K) where
  unfoldable pub close_to_core : Option (TungCloseFrame K) → Option WsCloseFrame
  close_to_core none = none
  close_to_core (some f) = some (record { code = codes.number f.code; reason = f.reason })

  -- A reason that is not UTF-8 is dropped.
  unfoldable pub core_to_close : WsCloseFrame → TungCloseFrame K
  core_to_close f = record {
    code = codes.from_number f.code;
    reason = if is_utf8 f.reason then f.reason else [];
  }

  abbrev map_close : Option WsCloseFrame → Option (TungCloseFrame K)
  map_close none = none
  map_close (some f) = some (core_to_close f)

  unfoldable pub msg_to_frame :
      {R : Type 0} → TungsteniteMessage K R → Result WebSocketError WsFrame
  msg_to_frame (text bytes) = ok (WsFrame.text bytes)
  msg_to_frame (binary bytes) = ok (WsFrame.binary bytes)
  msg_to_frame (ping bytes) = ok (WsFrame.ping bytes)
  msg_to_frame (pong bytes) = ok (WsFrame.pong bytes)
  msg_to_frame (close f) = ok (WsFrame.close (close_to_core f))
  msg_to_frame (frame _) = err (map_ws_error "read" "unexpected raw frame")

  unfoldable pub frame_to_msg : {R : Type 0} → WsFrame → TungsteniteMessage K R
  unfolding core_to_close
  frame_to_msg (WsFrame.text bytes) = text bytes
  frame_to_msg (WsFrame.binary bytes) = binary bytes
  frame_to_msg (WsFrame.ping bytes) = ping bytes
  frame_to_msg (WsFrame.pong bytes) = pong bytes
  frame_to_msg (WsFrame.close f) = close (map_close f)

  -- An item of the reader's stream, from an item of tungstenite's.
  unfoldable pub poll_next :
      {R : Type 0}
      → Option (Result String (TungsteniteMessage K R))
      → Option (Result WebSocketError WsFrame)
  unfolding msg_to_frame map_ws_error
  poll_next none = none
  poll_next (some (ok msg)) = some (msg_to_frame msg)
  poll_next (some (err e)) = some (err (map_ws_error "read" e))

  -- The writer hands a frame's message to the sink of tungstenite.
  unfoldable pub start_send :
      {R : Type 0}
      → (TungsteniteMessage K R → Option String)
      → WsFrame
      → Result WebSocketError (Unit {0})
  unfolding frame_to_msg map_ws_error
  start_send sink f = elim (sink (frame_to_msg f)) [
    | none ↦ ok tt
    | some e ↦ err (map_ws_error "write" e)
  ]

pub record WebSocketBufferConfig : Type 0 where
  pub write_buffer_bytes : ℕ
  pub max_write_buffer_bytes : ℕ
  pub max_message_bytes : ℕ
  pub max_frame_bytes : ℕ

unfoldable pub default_buffers : WebSocketBufferConfig
default_buffers = record {
  write_buffer_bytes = 128 * 2 ^ 10;
  max_write_buffer_bytes = 256 * 2 ^ 10;
  max_message_bytes = 16 * 1024 * 1024;
  max_frame_bytes = 16 * 1024 * 1024;
}

-- tungstenite's `WebSocketConfig`, in the fields that are set.
pub record WebSocketConfig : Type 0 where
  pub max_message_size : Option ℕ
  pub max_frame_size : Option ℕ
  pub write_buffer_size : ℕ
  pub max_write_buffer_size : ℕ

unfoldable pub build_ws_config : WebSocketBufferConfig → WebSocketConfig
build_ws_config buffers = record {
  max_message_size = some buffers.max_message_bytes;
  max_frame_size = some buffers.max_frame_bytes;
  write_buffer_size = buffers.write_buffer_bytes;
  max_write_buffer_size = buffers.max_write_buffer_bytes;
}

-- A connection attempt that reached the network.
pub record Dial (Connector : Type 0) : Type 0 where
  pub url : String
  pub config : WebSocketConfig
  pub connector : Option Connector

-- `TungsteniteTransport::connect`: its answer, beside the attempts that it made. `dial` is
-- tungstenite's.
module _ {Json Connector Socket : Type 0} (host : Host Json)
    (dial : Dial Connector → Result String Socket) where
  abbrev dialled :
      Dial Connector → Result String Socket → Result WebSocketError Socket × List (Dial Connector)
  dialled d (ok socket) = (ok socket, d ∷ [])
  dialled d (err e) = (err (map_ws_error "connect" e), d ∷ [])

  abbrev pub dial_if :
      Result WebSocketError (Unit {0})
      → Dial Connector
      → Result WebSocketError Socket × List (Dial Connector)
  dial_if (err e) d = (err e, [])
  dial_if (ok _) d = dialled d (dial d)

  unfoldable pub connect :
      List WsFixtureRequirement
      → Option Connector
      → String
      → WebSocketBufferConfig
      → Result WebSocketError Socket × List (Dial Connector)
  unfolding build_ws_config map_ws_error
  connect registry connector url buffers =
      dial_if (ensure_live_ws_allowed host registry)
        (record { url = url; config = build_ws_config buffers; connector = connector })
