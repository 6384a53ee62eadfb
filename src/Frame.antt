-- ===== src/Frame.antt =====
-- src/core/frame.rs: transport-neutral frames. Bytes are a list of numbers below 256; `WsText`, a
-- transparent wrapper with the invariant that its bytes are UTF-8, is those bytes.
pub mod Utf8
pub mod Convert
mod Tests
use shared_ws.Prelude.{ℕ, Bool, true, false, Option, none, some, List, if◌then◌else◌}
use Utf8.{is_utf8}

abbrev pub Bytes : Type 0
Bytes = List ℕ

pub record WsCloseFrame : Type 0 where
  pub code : ℕ
  pub reason : Bytes

pub data WsFrame : Type 0 where
  text binary ping pong : Bytes → WsFrame
  close : Option WsCloseFrame → WsFrame

-- `WsText::try_from_bytes`
pub try_from_bytes : Bytes → Option Bytes
try_from_bytes bytes = if is_utf8 bytes then some bytes else none

unfoldable pub frame_bytes : WsFrame → Option Bytes
frame_bytes (text bytes) = some bytes
frame_bytes (binary bytes) = some bytes
frame_bytes (ping bytes) = some bytes
frame_bytes (pong bytes) = some bytes
frame_bytes (close _) = none

unfoldable pub into_ws_frame : Bytes → WsFrame
into_ws_frame payload = if is_utf8 payload then text payload else binary payload
