-- ===== src/Transport/Tests.antt =====
-- The adapters on small inputs.
use Prim.Native.String.{String}
use shared_ws.Prelude.{ℕ, ◌≡◌, refl, some, [], ◌∷◌, arith}
use shared_ws.Types.Basic.{ok, err, WebSocketError}
use shared_ws.Frame.{WsFrame}
use shared_ws.Frame.Utf8.{is_utf8}
use shared_ws.Transport.{CloseCodes, frame, msg_to_frame, frame_to_msg, poll_next, map_ws_error}
use shared_ws.Transport.Wire.{IsTyped, IsUtf8Typed, received, msg_to_frame-frame_to_msg}

abbrev plain_codes : CloseCodes ℕ
plain_codes = record { number = λ n. n; from_number = λ n. n }

-- Its reason is a lone continuation byte.
abbrev going_away : WsFrame
going_away = WsFrame.close (some (record { code = 1001; reason = 0x82 ∷ [] }))

msg_to_frame-frame_to_msg_example :
    IsUtf8Typed (frame_to_msg plain_codes {R = String} going_away)
    × (msg_to_frame plain_codes (frame_to_msg plain_codes {R = String} going_away)
        ≡ ok (received going_away))
    × IsTyped (received going_away)
msg_to_frame-frame_to_msg_example =
    msg_to_frame-frame_to_msg plain_codes (λ n b. refl) String going_away (omega arith)

reason_is_dropped : received going_away ≡ WsFrame.close (some (record { code = 1001; reason = [] }))
unfolding is_utf8
reason_is_dropped = refl

raw_frames_are_errors :
    poll_next plain_codes {R = String} (some (ok (frame "raw")))
    ≡ some (err (WebSocketError.transport_error "read" "unexpected raw frame"))
unfolding poll_next msg_to_frame map_ws_error
raw_frames_are_errors = refl
