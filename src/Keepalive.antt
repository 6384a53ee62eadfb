-- ===== src/Keepalive.antt =====
-- src/core/ping.rs, src/transport/tungstenite.rs, src/client.rs and src/ws/server/runtime.rs together:
-- a ping of a client's protocol strategy, over the wire to a connection of the server, and the way
-- back of what that writes.
mod Tests
use Prim.Native.String.{String}
use shared_ws.Prelude.{
  ℕ, ◌-◌, ◌≤◌, ◌≡◌, ◌∙◌, refl, ap, true, false, Option, none, some, List, [], ◌∷◌, ◌++◌, arith, leb,
  ltb, Bool-cases,
}
use shared_ws.Types.Basic.{ok, WebSocketError}
use shared_ws.Frame.{Bytes, WsFrame, ping, pong}
use shared_ws.Managed.Io.{Sink}
use shared_ws.Ping.{pong_received}
use shared_ws.Ping.Protocol.{ProtocolPingPong, create_ping, handle_inbound, is_stale}
use shared_ws.Transport.{CloseCodes, frame_to_msg, msg_to_frame, poll_next}
use shared_ws.Transport.Client.{client_next}
use shared_ws.Server.Connection.{
  WsServerConnectionContext, EndpointFactory, Poll, Connection, open_at, run_connection,
  run_connection_loop, select, settle, take_branch, on_incoming, on_frame, ws_send, reads,
  first_ready,
}
use shared_ws.Server.Connection.Farewell.{run_connection-append}

-- The client got an answer to the ping of the instant `sent`, whenever it comes: it measures the
-- time since then, and its connection is not stale, as long as it sends no other ping.
abbrev pub Completes : ProtocolPingPong → ℕ → WsFrame → Type 0
Completes p sent answer =
    (t : ℕ)
    → sent ≤ t
    → ((handle_inbound p t answer).0 ≡ pong_received (some (t - sent)))
      × ((now : ℕ) → is_stale (handle_inbound p t answer).1 now ≡ false)

create_ping-Completes :
    (p : ProtocolPingPong) (sent : ℕ) → Completes (create_ping p sent).1 sent (pong [])
unfolding create_ping handle_inbound is_stale
create_ping-Completes p sent t l = (refl, λ now. ground arith)

module _ {St A C : Type 0} (h : EndpointFactory St A C) (display : WebSocketError → String) where
  pinged :
      (c : Connection St A C) (poll : Poll C) (payload : Bytes)
      → first_ready poll ≡ reads (some (ok (ping payload)))
      → c.writer.sink c.writer.written (pong payload) ≡ none
      → run_connection_loop h display c (poll ∷ []) ≡ open_at (ws_send c (pong payload)).1
  unfolding run_connection_loop select take_branch on_incoming on_frame ws_send settle
  pinged c poll payload ready takes = rw (ready, takes) refl

module _ {K : Type 0} (codes : CloseCodes K) (R : Type 0) where
  arrives_as :
      (f : WsFrame)
      → some (ping []) ≡ some f
      → client_next codes (some (ok (frame_to_msg codes {R = R} f))) ≡ some (ok (ping []))
  unfolding client_next msg_to_frame frame_to_msg
  arrives_as (ping payload) e = ground arith
  arrives_as f e = ground arith

module _ {K St A C : Type 0} (codes : CloseCodes K) (R : Type 0) (h : EndpointFactory St A C)
    (display : WebSocketError → String) where
  -- A connection of the server that is open, and whose socket takes what it is handed, gets the
  -- ping that a client's strategy made at some instant, through both adapters: it stays open, tells
  -- its handler nothing, and writes one frame. This comes back to the client as it was written, and
  -- completes the ping, at whatever later instant.
  pub ping_round :
      (p : ProtocolPingPong) (sent : ℕ) (f : WsFrame) (ctx : WsServerConnectionContext A)
      (handshake : Option Sink) (seen : List (Poll C)) (c : Connection St A C) (poll : Poll C)
      → (create_ping p sent).0 ≡ some f
      → run_connection h display ctx handshake seen ≡ open_at c
      → first_ready poll ≡ reads (client_next codes (some (ok (frame_to_msg codes {R = R} f))))
      → ((g : WsFrame) → c.writer.sink c.writer.written g ≡ none)
      → (answer : WsFrame) × (c' : Connection St A C) × (run_connection h display ctx handshake
            (seen ++ poll ∷ [])
          ≡ open_at c')
        × (c'.told ≡ c.told)
        × (c'.writer.written ≡ c.writer.written ++ answer ∷ [])
        × (poll_next codes (some (ok (frame_to_msg codes {R = R} answer))) ≡ some (ok answer))
        × Completes (create_ping p sent).1 sent answer
  unfolding create_ping ws_send poll_next msg_to_frame frame_to_msg
  ping_round p sent f ctx handshake seen c poll made opened ready takes = (
    pong [],
    (ws_send c (pong [])).1,
    run_connection-append h display ctx handshake c seen (poll ∷ []) opened
        ∙ pinged h display c poll [] (ready ∙ ap reads (arrives_as codes R f made))
            (takes (pong [])),
    refl,
    refl,
    refl,
    create_ping-Completes p sent,
  )
