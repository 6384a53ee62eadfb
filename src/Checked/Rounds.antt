-- ===== src/Checked/Rounds.antt =====
-- What the health checks add to a round: answers to pings, and the timeout of a pong.
use Prim.Native.String.{String}
use shared_ws.Prelude.{
  ℕ, ◌-◌, ◌≡◌, none, some, List, [], ◌∷◌, ◌++◌, arith, ltb, not, ◌&&◌, if◌then◌else◌, ap, ◌∙◌,
}
use shared_ws.Frame.{Bytes, WsFrame, ping, pong}
use shared_ws.Types.Basic.{WebSocketError, WsDisconnectCause}
use shared_ws.Types.Endpoint.{Endpoint}
use shared_ws.Ping.Protocol.{ProtocolPingPong, protocol, create_ping, handle_inbound, is_stale}
use shared_ws.Ping.Answers.{handle_all, has_pong, PongBefore, AllSince, stale_unless_answered}
use shared_ws.Health.{Histogram, record_message, is_stale as is_silent}
use shared_ws.Managed.Io.{Conn, write_frame}
use shared_ws.Managed.Session.{Session, stays, breaks}
use shared_ws.Checked.Session.{
  RequiredWsHealth, on_frame, on_tick, write_own, note_error, note_sent,
}

module _ {St M U J : Type 0} (h : Endpoint St M U J) where
  -- The connection once the pong is handed to the socket.
  abbrev pub after_answer : Session St U → Bytes → Conn St
  after_answer s payload = record {
    handler =
        h.on_outbound_frame (h.on_inbound_frame (s.conn).handler (ping payload)) (pong payload);
    writer = record (s.conn.writer) { written = s.conn.writer.written ++ pong payload ∷ [] };
  }

module _ {St M U J H : Type 0} (h : Endpoint St M U J) (histogram : Histogram H)
    (display : WebSocketError → String) (utf8 : String → Bytes) (now : ℕ) where
  -- With the control-frame strategy a ping of the server is answered at once by a pong of the same
  -- payload, the only frame written; the endpoint sees both frames and is asked to parse neither.
  -- If the socket refuses the pong, the session ends with the socket's error under `pong_reply`.
  pub on_frame-ping :
      (s : Session St U) (g : RequiredWsHealth ProtocolPingPong H) (payload : Bytes)
      → on_frame h protocol histogram display utf8 now s g (ping payload)
        ≡ (elim (s.conn.writer.sink s.conn.writer.written (pong payload)) [
          | none ↦ (
            stays (record s { conn = after_answer h s payload }),
            note_sent now (record g { monitor = record_message g.monitor now }),
          )
          | some e ↦ (
            breaks
                (WsDisconnectCause.internal_error "pong_reply" (display e))
                (record s { conn = after_answer h s payload }),
            note_error utf8 now "pong_reply"
                (display e)
                (record g { monitor = record_message g.monitor now }),
          )
        ])
  unfolding on_frame protocol handle_inbound write_frame
  on_frame-ping s g payload = ground arith

  -- A tick, with the control-frame strategy, after a ping at `t` and the frames handled since, all at
  -- `t` or later, where any earlier pong was handled strictly before `t`: if more than the timeout
  -- has passed since that ping and none of the frames is a pong, the session ends with
  -- `PongTimeout`; else, if no data came for the stale threshold, with `StaleData`; else the next
  -- ping is written.
  pub on_tick-timeout :
      (s : Session St U) (g : RequiredWsHealth ProtocolPingPong H) (p : ProtocolPingPong) (t : ℕ)
      (frames : List (ℕ × WsFrame))
      → g.ping_pong ≡ handle_all (create_ping p t).1 frames
      → PongBefore t p.last_pong
      → AllSince t frames
      → on_tick h protocol histogram display utf8 now s g ≡ (
          if ltb p.timeout (now - t) && not (has_pong frames)
          then (breaks WsDisconnectCause.pong_timeout s, g)
          else if is_silent g.monitor now
          then (breaks WsDisconnectCause.stale_data s, g)
          else write_own h protocol histogram display utf8 now "ping_send" s
              (record g { ping_pong = (create_ping g.ping_pong now).1 })
              (ping []))
  unfolding on_tick protocol create_ping
  on_tick-timeout s g p t frames e b a =
      let stale : is_stale g.ping_pong now ≡ (ltb p.timeout (now - t) && not (has_pong frames)) =
        ap (λ q. is_stale q now) e ∙ stale_unless_answered p t frames now b a in
      rw (stale, on_tick)
