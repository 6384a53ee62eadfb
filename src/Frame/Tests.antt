-- ===== src/Frame/Tests.antt =====
-- Frames of concrete payloads.
use shared_ws.Prelude.{◌≡◌, refl, true, false, [], ◌∷◌}
use shared_ws.Frame.{text, binary, into_ws_frame}
use shared_ws.Frame.Utf8.{is_utf8}

-- A euro sign and a dollar sign, a lone continuation byte, a surrogate.
validity :
    (is_utf8 (0xe2 ∷ 0x82 ∷ 0xac ∷ 0x24 ∷ []) ≡ true)
    × (is_utf8 (0x82 ∷ []) ≡ false)
    × (is_utf8 (0xed ∷ 0xa0 ∷ 0x80 ∷ []) ≡ false)
unfolding is_utf8
validity = (refl, refl, refl)

a_dollar_is_text : into_ws_frame (0x24 ∷ []) ≡ text (0x24 ∷ [])
unfolding into_ws_frame is_utf8
a_dollar_is_text = refl

a_lone_byte_is_binary : into_ws_frame (0x82 ∷ []) ≡ binary (0x82 ∷ [])
unfolding into_ws_frame is_utf8
a_lone_byte_is_binary = refl
