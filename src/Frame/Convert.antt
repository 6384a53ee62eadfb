-- ===== src/Frame/Convert.antt =====
-- Converting bytes to frames and back.
use shared_ws.Prelude.{◌≡◌, ◌↔◌, true, false, some, arith}
use shared_ws.Frame.{Bytes, text, binary, into_ws_frame, frame_bytes}
use shared_ws.Frame.Utf8.{is_utf8}

-- A payload keeps its bytes, and goes out as text exactly when it is valid UTF-8, else as binary.
pub into_ws_frame_lem :
    (payload : Bytes)
    → (frame_bytes (into_ws_frame payload) ≡ some payload)
      × ((into_ws_frame payload ≡ text payload) ↔ (is_utf8 payload ≡ true))
      × ((into_ws_frame payload ≡ binary payload) ↔ (is_utf8 payload ≡ false))
unfolding frame_bytes into_ws_frame
into_ws_frame_lem payload = ground arith
