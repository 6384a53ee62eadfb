-- ===== src/Ping/ReusedKeys.antt =====
-- What `WsApplicationPingPong` makes of a ping whose key is still pending: `touch_oldest_on_insert`
-- keeps the instant of the entry that the ping replaces.
use shared_ws.Prelude.{ℕ, ◌-◌, ◌≤◌, ◌<◌, ◌≡◌, Bool, true, Option, some, [], ◌∷◌, arith, ltb}
use shared_ws.Frame.{Bytes}
use shared_ws.Ping.Application.{WsApplicationPingPong, process_application, create_ping, is_stale}

module _ {K G : Type 0} (eq : K → K → Bool) (create_message : G → Bytes × K × G)
    (parse_pong : Bytes → Option K) where
  -- The ping at `now` has the key of the only pending ping, sent at `sent` and not overdue, and its
  -- pong is received at `later`: no ping is pending, but the connection still counts as stale at any
  -- instant that is more than the timeout after `sent`.
  pub reused_key_goes_stale :
      (p : WsApplicationPingPong K G) (key : K) (sent started now later at : ℕ)
      → p.pending_pings ≡ (key, sent) ∷ []
      → started - sent ≤ p.timeout
      → sent < now
      → 1 < p.max_pending
      → (create_message p.messages).1 ≡ key
      → parse_pong (create_message p.messages).0 ≡ some key
      → eq key key ≡ true
      → ((process_application eq parse_pong
            (create_ping eq create_message p started now).1
            later
            (create_message p.messages).0).1.pending_pings
          ≡ [])
        × (is_stale
              (process_application eq parse_pong
                (create_ping eq create_message p started now).1
                later
                (create_message p.messages).0).1
              at
            ≡ ltb p.timeout (at - sent))
  unfolding create_ping process_application is_stale
  reused_key_goes_stale p key sent started now later at pending due lt room made parsed same =
      ground arith
