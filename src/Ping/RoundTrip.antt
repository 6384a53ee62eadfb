-- ===== src/Ping/RoundTrip.antt =====
-- What the pong of a ping of `WsApplicationPingPong` does.
use shared_ws.Prelude.{
  ℕ, ◌-◌, ◌<◌, ◌≡◌, refl, Bool, true, Option, some, List, ◌∷◌, arith, length, ap, ◌∙◌,
}
use shared_ws.Frame.{Bytes, into_ws_frame}
use shared_ws.Ping.{pong_received}
use shared_ws.Ping.Application.{
  WsApplicationPingPong, values, minimum, least, cleanup_stale, take_pending, process_application,
  create_ping, handle_inbound,
}
use shared_ws.Ping.Actions.{FreshKey}
use shared_ws.Ping.Overdue.{remove_key-absent}

module _ {K G : Type 0} (eq : K → K → Bool) where
  take_newest :
      (p : WsApplicationPingPong K G) (key : K) (now later : ℕ) (rest : List (K × ℕ))
      → p.pending_pings ≡ (key, now) ∷ rest
      → p.oldest_pending ≡ some (least now (minimum (values rest)))
      → eq key key ≡ true
      → take_pending eq p later key ≡ (
        pong_received (some (later - now)),
        record p { pending_pings = rest; oldest_pending = minimum (values rest) },
      )
  unfolding take_pending
  take_newest p key now later rest e o same = ground arith

module _ {K G : Type 0} (eq : K → K → Bool) (parse_pong : Bytes → Option K) where
  handle_payload :
      (p : WsApplicationPingPong K G) (now : ℕ) (payload : Bytes)
      → handle_inbound eq parse_pong p now (into_ws_frame payload)
        ≡ process_application eq parse_pong p now payload
  unfolding handle_inbound into_ws_frame
  handle_payload p now payload = ground arith

  process_parsed :
      (p : WsApplicationPingPong K G) (now : ℕ) (payload : Bytes) (key : K)
      → parse_pong payload ≡ some key
      → process_application eq parse_pong p now payload ≡ take_pending eq p now key
  unfolding process_application
  process_parsed p now payload key h = ground arith

module _ {K G : Type 0} (eq : K → K → Bool) (create_message : G → Bytes × K × G) where
  sends_ping :
      (p : WsApplicationPingPong K G) (started now : ℕ)
      → FreshKey eq create_message (cleanup_stale p started)
      → length (cleanup_stale p started).pending_pings < p.max_pending
      → create_ping eq create_message p started now ≡ (
        some (into_ws_frame (create_message p.messages).0),
        record (cleanup_stale p started) {
          pending_pings =
              ((create_message p.messages).1, now) ∷ (cleanup_stale p started).pending_pings;
          oldest_pending =
              some (least now (minimum (values (cleanup_stale p started).pending_pings)));
          messages = (create_message p.messages).2;
        },
      )
  unfolding create_ping
  sends_ping p started now fresh below = ground (
    arith,
    remove_key-absent eq (cleanup_stale p started).pending_pings (create_message p.messages).1
        fresh,
  )

  -- The pong of a ping: with a new key, below the limit, and a payload that is parsed back to its
  -- key, `create_ping` sends the payload, and that frame received at `later` is answered by the time
  -- since the ping and leaves the strategy as the cleanup before the ping left it, but for the
  -- messages.
  pub handle_inbound-create_ping :
      (parse_pong : Bytes → Option K) (p : WsApplicationPingPong K G) (started now later : ℕ)
      → FreshKey eq create_message (cleanup_stale p started)
      → length (cleanup_stale p started).pending_pings < p.max_pending
      → parse_pong (create_message p.messages).0 ≡ some (create_message p.messages).1
      → eq (create_message p.messages).1 (create_message p.messages).1 ≡ true
      → ((create_ping eq create_message p started now).0
          ≡ some (into_ws_frame (create_message p.messages).0))
        × (handle_inbound eq parse_pong
              (create_ping eq create_message p started now).1
              later
              (into_ws_frame (create_message p.messages).0)
            ≡ (
              pong_received (some (later - now)),
              record (cleanup_stale p started) { messages = (create_message p.messages).2 },
            ))
  unfolding cleanup_stale
  handle_inbound-create_ping parse_pong p started now later fresh below parsed same =
      let sent = sends_ping p started now fresh below in
      let payload = (create_message p.messages).0 in
      let key = (create_message p.messages).1 in
      (
        ap (λ r. r.0) sent,
        rw sent (
            handle_payload eq parse_pong _ later payload
            ∙ process_parsed eq parse_pong _ later payload key parsed
            ∙ take_newest eq _ key now later _ refl refl same),
      )
