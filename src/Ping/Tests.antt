-- ===== src/Ping/Tests.antt =====
-- The ping strategies on small inputs.
use shared_ws.Prelude.{ℕ, suc, ◌≡◌, refl, true, Option, none, some, List, [], ◌∷◌, ◌==◌, arith}
use shared_ws.Frame.{Bytes, text, into_ws_frame}
use shared_ws.Frame.Utf8.{is_utf8}
use shared_ws.Ping.{pong_received}
use shared_ws.Ping.Application.{
  WsApplicationPingPong, new, with_max_pending, is_stale, create_ping, handle_inbound,
  process_application, cleanup_stale,
}
use shared_ws.Ping.Actions.{Action, pings, handles, act_all}
use shared_ws.Ping.Overdue.{is_stale-act_all}
use shared_ws.Ping.RoundTrip.{handle_inbound-create_ping}
use shared_ws.Ping.ReusedKeys.{reused_key_goes_stale}

-- Messages that number their pings, the number being the key.
abbrev number_message : ℕ → Bytes × ℕ × ℕ
number_message n = (n ∷ [], n, suc n)

-- Messages that are all the same.
abbrev same_message : ℕ → Bytes × ℕ × ℕ
same_message n = (7 ∷ [], 7, n)

abbrev parse_number : Bytes → Option ℕ
parse_number (n ∷ []) = some n
parse_number _ = none

abbrev actions : List Action
actions = pings 0 0 ∷ pings 4 5 ∷ handles 6 (text (1 ∷ [])) ∷ pings 9 9 ∷ []

abbrev numbered : WsApplicationPingPong ℕ ℕ
numbered = with_max_pending (new 5 8 0) 2

is_stale-act_all_example :
    is_stale (act_all ◌==◌ number_message parse_number numbered actions) 20 ≡ true
unfolding new with_max_pending create_ping handle_inbound cleanup_stale is_stale
is_stale-act_all_example =
    is_stale-act_all ◌==◌ number_message parse_number 5 8 2 0 actions 20
      (refl, (refl, (tt, (refl, tt))))

handle_inbound-create_ping_example :
    ((create_ping ◌==◌ number_message numbered 3 3).0 ≡ some (text (0 ∷ [])))
    × (handle_inbound ◌==◌ parse_number
          (create_ping ◌==◌ number_message numbered 3 3).1
          6
          (text (0 ∷ []))
        ≡ (pong_received (some 3), record (cleanup_stale numbered 3) { messages = 1 }))
unfolding new with_max_pending cleanup_stale into_ws_frame is_utf8
handle_inbound-create_ping_example =
    handle_inbound-create_ping ◌==◌ number_message parse_number numbered 3 3 6 refl (omega arith)
      refl refl

-- A ping every 10, a timeout of 12, the pong of the second ping at 11.
abbrev once_pinged : WsApplicationPingPong ℕ ℕ
once_pinged = (create_ping ◌==◌ same_message (new 10 12 0) 0 0).1

reused_key_goes_stale_example :
    ((process_application ◌==◌ parse_number
        (create_ping ◌==◌ same_message once_pinged 10 10).1
        11
        (7 ∷ [])).1.pending_pings
      ≡ [])
    × (is_stale
          (process_application ◌==◌ parse_number
            (create_ping ◌==◌ same_message once_pinged 10 10).1
            11
            (7 ∷ [])).1
          20
        ≡ true)
unfolding new create_ping
reused_key_goes_stale_example =
    reused_key_goes_stale ◌==◌ same_message parse_number once_pinged 7 0 10 10 11 20 refl
      (omega arith) (omega arith) (omega arith) refl refl refl
