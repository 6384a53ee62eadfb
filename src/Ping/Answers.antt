-- ===== src/Ping/Answers.antt =====
-- When `ProtocolPingPong` is stale, from what arrived since its last ping.
use shared_ws.Prelude.{
  ℕ, ◌-◌, ◌≤◌, ◌<◌, ◌≡◌, refl, Bool, true, false, not, ◌&&◌, Option, none, some, List, [], ◌∷◌,
  arith, ltb,
}
use shared_ws.Frame.{WsFrame, ping, pong, text, binary, close}
use shared_ws.Ping.Protocol.{ProtocolPingPong, create_ping, handle_inbound, is_stale}

-- Frames with the instants at which they are handled.
abbrev pub handle_all : ProtocolPingPong → List (ℕ × WsFrame) → ProtocolPingPong
handle_all p [] = p
handle_all p ((now, frame) ∷ rest) = handle_all (handle_inbound p now frame).1 rest

abbrev pub is_pong : WsFrame → Bool
is_pong (pong _) = true
is_pong _ = false

abbrev pub has_pong : List (ℕ × WsFrame) → Bool
has_pong [] = false
has_pong ((_, frame) ∷ rest) =
    let later = has_pong rest in elim (is_pong frame) [ true ↦ true | false ↦ later ]

abbrev pub AllSince : ℕ → List (ℕ × WsFrame) → Type 0
AllSince t [] = Unit
AllSince t ((now, _) ∷ rest) = (t ≤ now) × AllSince t rest

-- The last pong, if there is one, was before `t`.
abbrev pub PongBefore : ℕ → Option ℕ → Type 0
PongBefore t none = Unit
PongBefore t (some last) = last < t

-- A pong at or after the ping answers it for good.
answered :
    (p : ProtocolPingPong) (t last : ℕ) (frames : List (ℕ × WsFrame)) (now : ℕ)
    → p.last_ping ≡ some t
    → p.last_pong ≡ some last
    → t ≤ last
    → AllSince t frames
    → is_stale (handle_all p frames) now ≡ false
unfolding handle_inbound is_stale
answered p t last [] now e f le a = ground arith
answered p t last ((at, pong _) ∷ rest) now e f le a =
    answered (record p { last_pong = some at }) t at rest now e refl a.0 a.1
answered p t last ((at, ping _) ∷ rest) now e f le a = answered p t last rest now e f le a.1
answered p t last ((at, text _) ∷ rest) now e f le a = answered p t last rest now e f le a.1
answered p t last ((at, binary _) ∷ rest) now e f le a = answered p t last rest now e f le a.1
answered p t last ((at, close _) ∷ rest) now e f le a = answered p t last rest now e f le a.1

-- With no frame since, the ping waits for its pong.
waiting_stale :
    (p : ProtocolPingPong) (t now : ℕ) (last : Option ℕ)
    → p.last_ping ≡ some t
    → p.last_pong ≡ last
    → PongBefore t last
    → is_stale p now ≡ ltb p.timeout (now - t)
unfolding is_stale
waiting_stale p t now none e f b = ground arith
waiting_stale p t now (some last) e f b = ground arith

unanswered :
    (p : ProtocolPingPong) (t : ℕ) (frames : List (ℕ × WsFrame)) (now : ℕ)
    → p.last_ping ≡ some t
    → PongBefore t p.last_pong
    → AllSince t frames
    → is_stale (handle_all p frames) now ≡ (ltb p.timeout (now - t) && not (has_pong frames))
unfolding handle_inbound is_stale
unanswered p t [] now e b a = ground (arith, waiting_stale p t now p.last_pong e refl b)
unanswered p t ((at, pong _) ∷ rest) now e b a =
    let settled = answered (record p { last_pong = some at }) t at rest now e refl a.0 a.1 in
    ground (arith, settled)
unanswered p t ((at, ping _) ∷ rest) now e b a = unanswered p t rest now e b a.1
unanswered p t ((at, text _) ∷ rest) now e b a = unanswered p t rest now e b a.1
unanswered p t ((at, binary _) ∷ rest) now e b a = unanswered p t rest now e b a.1
unanswered p t ((at, close _) ∷ rest) now e b a = unanswered p t rest now e b a.1

-- After a ping at `t` and any frames handled since, with the pong before the ping, if any, earlier
-- than `t`: the connection is stale exactly when more than the timeout has passed since the ping and
-- none of those frames is a pong.
pub stale_unless_answered :
    (p : ProtocolPingPong) (t : ℕ) (frames : List (ℕ × WsFrame)) (now : ℕ)
    → PongBefore t p.last_pong
    → AllSince t frames
    → is_stale (handle_all (create_ping p t).1 frames) now
      ≡ (ltb p.timeout (now - t) && not (has_pong frames))
unfolding create_ping
stale_unless_answered p t frames now b a =
    unanswered (record p { last_ping = some t }) t frames now refl b a
