-- ===== src/Transport/Wire.antt =====
-- Frames that cross the wire.
use shared_ws.Prelude.{ℕ, ◌≤◌, ◌≡◌, refl, ap, true, none, some, [], arith, if◌then◌else◌}
use shared_ws.Types.Basic.{ok}
use shared_ws.Frame.{Bytes, WsFrame}
use shared_ws.Frame.Utf8.{is_utf8}
use shared_ws.Transport.{
  TungsteniteMessage, text, close, CloseCodes, close_to_core, core_to_close, msg_to_frame,
  frame_to_msg,
}

-- What the types promise: a `WsText` and `Utf8Bytes` are UTF-8, a code is a `u16`.
abbrev pub IsTyped : WsFrame → Type 0
IsTyped (WsFrame.text bytes) = is_utf8 bytes ≡ true
IsTyped (WsFrame.close (some f)) = f.code ≤ 65535
IsTyped _ = Unit {0}

abbrev pub IsUtf8Typed : {K R : Type 0} → TungsteniteMessage K R → Type 0
IsUtf8Typed (text bytes) = is_utf8 bytes ≡ true
IsUtf8Typed (close (some f)) = is_utf8 f.reason ≡ true
IsUtf8Typed _ = Unit {0}

-- The frame that the peer gets: a close frame's reason that is not UTF-8 is empty.
abbrev pub received : WsFrame → WsFrame
received (WsFrame.close (some f)) =
    WsFrame.close
      (some (record { code = f.code; reason = if is_utf8 f.reason then f.reason else [] }))
received f = f

empty_is_utf8 : is_utf8 [] ≡ true
unfolding is_utf8
empty_is_utf8 = refl

utf8_or_empty : (reason : Bytes) → is_utf8 (if is_utf8 reason then reason else []) ≡ true
utf8_or_empty reason = ground (arith, empty_is_utf8)

module _ {K : Type 0} (codes : CloseCodes K)
    (kept : (n : ℕ) → n ≤ 65535 → codes.number (codes.from_number n) ≡ n) where
  -- A frame goes out as a message whose texts are UTF-8, and comes back as the same frame, but for
  -- a close reason that is not UTF-8, which is empty then; so what comes in is well typed too. This
  -- is over close codes that keep every number of 16 bits.
  pub msg_to_frame-frame_to_msg :
      (R : Type 0) (f : WsFrame)
      → IsTyped f
      → IsUtf8Typed (frame_to_msg codes {R = R} f)
        × (msg_to_frame codes (frame_to_msg codes {R = R} f) ≡ ok (received f))
        × IsTyped (received f)
  unfolding msg_to_frame frame_to_msg close_to_core core_to_close
  msg_to_frame-frame_to_msg R (WsFrame.text bytes) t = (t, refl, t)
  msg_to_frame-frame_to_msg R (WsFrame.binary bytes) t = (tt, refl, tt)
  msg_to_frame-frame_to_msg R (WsFrame.ping bytes) t = (tt, refl, tt)
  msg_to_frame-frame_to_msg R (WsFrame.pong bytes) t = (tt, refl, tt)
  msg_to_frame-frame_to_msg R (WsFrame.close none) t = (tt, refl, tt)
  msg_to_frame-frame_to_msg R (WsFrame.close (some f)) t = (
    utf8_or_empty f.reason,
    ap
        (λ n. ok (
          WsFrame.close
            (some (record { code = n; reason = if is_utf8 f.reason then f.reason else [] }))))
        (kept f.code t),
    t,
  )
