-- ===== src/Ping/Overdue.antt =====
-- When `WsApplicationPingPong` is stale: what `oldest_pending` has to say of the pending pings.
use shared_ws.Prelude.{
  ℕ, ◌-◌, ◌≡◌, refl, Bool, true, false, Option, none, some, List, [], ◌∷◌, arith, ltb, Option-cases,
  inl, inr,
}
use shared_ws.Frame.{Bytes, WsFrame, text, binary, ping, pong, close}
use shared_ws.Ping.Application.{
  WsApplicationPingPong, new, remove_key, values, least, minimum, is_stale, reset, cleanup_stale,
  take_pending, process_application, create_ping, handle_inbound, with_max_pending,
}
use shared_ws.Ping.Actions.{
  Action, pings, handles, resets, act, act_all, FreshKey, IsFresh, AllFresh,
}

-- Some pending ping is older than the timeout.
abbrev pub any_overdue : ℕ → ℕ → List ℕ → Bool
any_overdue timeout now [] = false
any_overdue timeout now (sent ∷ rest) =
    let others = any_overdue timeout now rest in
    elim (ltb timeout (now - sent)) [ true ↦ true | false ↦ others ]

minimum-overdue :
    (timeout now : ℕ) (sent : List ℕ)
    → (elim (minimum sent) [ none ↦ false | some oldest ↦ ltb timeout (now - oldest) ])
      ≡ any_overdue timeout now sent
minimum-overdue timeout now [] = refl
minimum-overdue timeout now (x ∷ xs) = ground (arith, minimum-overdue timeout now xs)

module _ {K G : Type 0} where
  -- `oldest_pending` is the least instant of the pending pings.
  abbrev pub TracksOldest : WsApplicationPingPong K G → Type 0
  TracksOldest p = p.oldest_pending ≡ minimum (values p.pending_pings)

  TracksOldest-is_stale :
      (p : WsApplicationPingPong K G) (now : ℕ)
      → TracksOldest p
      → is_stale p now ≡ any_overdue p.timeout now (values p.pending_pings)
  unfolding is_stale
  TracksOldest-is_stale p now h = rw h (minimum-overdue p.timeout now (values p.pending_pings))

module _ {K : Type 0} (eq : K → K → Bool) where
  -- An entry that is taken out was the least, or leaves the least.
  minimum-remove_key :
      (entries : List (K × ℕ)) (key : K) (sent : ℕ)
      → (remove_key eq entries key).0 ≡ some sent
      → minimum (values entries)
        ≡ some (least sent (minimum (values (remove_key eq entries key).1)))
  minimum-remove_key [] key sent h = cc
  minimum-remove_key (entry ∷ rest) key sent h = ground (arith, minimum-remove_key rest key sent)

  pub remove_key-absent :
      (entries : List (K × ℕ)) (key : K)
      → (remove_key eq entries key).0 ≡ none
      → (remove_key eq entries key).1 ≡ entries
  remove_key-absent [] key h = refl
  remove_key-absent (entry ∷ rest) key h = ground (arith, remove_key-absent rest key)

module _ {K G : Type 0} (eq : K → K → Bool) where
  take_pending-TracksOldest :
      (p : WsApplicationPingPong K G) (now : ℕ) (key : K)
      → TracksOldest p
      → TracksOldest (take_pending eq p now key).1
  unfolding take_pending
  take_pending-TracksOldest p now key h =
      elim (Option-cases (remove_key eq p.pending_pings key).0) [
        | inl e ↦ rw (e, take_pending) h
        | inr (sent, e) ↦ ground (arith, minimum-remove_key eq p.pending_pings key sent e)
      ]

module _ {K G : Type 0} (eq : K → K → Bool) (parse_pong : Bytes → Option K) where
  process-TracksOldest :
      (p : WsApplicationPingPong K G) (now : ℕ) (payload : Bytes)
      → TracksOldest p
      → TracksOldest (process_application eq parse_pong p now payload).1
  unfolding process_application
  process-TracksOldest p now payload h = elim (Option-cases (parse_pong payload)) [
    | inl e ↦ rw (e, process_application) h
    | inr (key, e) ↦ rw (e, process_application) (take_pending-TracksOldest eq p now key h)
  ]

  handle_inbound-TracksOldest :
      (p : WsApplicationPingPong K G) (now : ℕ) (frame : WsFrame)
      → TracksOldest p
      → TracksOldest (handle_inbound eq parse_pong p now frame).1
  unfolding handle_inbound
  handle_inbound-TracksOldest p now (text payload) h = process-TracksOldest p now payload h
  handle_inbound-TracksOldest p now (binary payload) h = process-TracksOldest p now payload h
  handle_inbound-TracksOldest p now (ping payload) h = h
  handle_inbound-TracksOldest p now (pong payload) h = h
  handle_inbound-TracksOldest p now (close info) h = h

module _ {K G : Type 0} (eq : K → K → Bool) (create_message : G → Bytes × K × G) where
  create_ping-TracksOldest :
      (p : WsApplicationPingPong K G) (started now : ℕ)
      → FreshKey eq create_message (cleanup_stale p started)
      → TracksOldest (create_ping eq create_message p started now).1
  unfolding create_ping
  create_ping-TracksOldest p started now fresh =
      let cleaned = cleanup_stale p started in
      ground (arith, remove_key-absent eq cleaned.pending_pings (create_message p.messages).1 fresh)

module _ {K G : Type 0} (eq : K → K → Bool) (create_message : G → Bytes × K × G)
    (parse_pong : Bytes → Option K) where
  -- What the connection does with the strategy.
  act-TracksOldest :
      (p : WsApplicationPingPong K G) (a : Action)
      → IsFresh eq create_message p a
      → TracksOldest p
      → TracksOldest (act eq create_message parse_pong p a)
  unfolding reset
  act-TracksOldest p (pings started now) fresh h =
      create_ping-TracksOldest eq create_message p started now fresh
  act-TracksOldest p (handles now frame) fresh h =
      handle_inbound-TracksOldest eq parse_pong p now frame h
  act-TracksOldest p resets fresh h = refl

  act_all-TracksOldest :
      (p : WsApplicationPingPong K G) (actions : List Action)
      → AllFresh eq create_message parse_pong p actions
      → TracksOldest p
      → TracksOldest (act_all eq create_message parse_pong p actions)
  act_all-TracksOldest p [] fresh h = h
  act_all-TracksOldest p (a ∷ rest) fresh h =
      act_all-TracksOldest (act eq create_message parse_pong p a) rest fresh.1
        (act-TracksOldest p a fresh.0 h)

  -- After any pings, frames and resets on a new strategy, if no ping had a key that was pending:
  -- the connection is stale exactly when some pending ping is older than the timeout.
  pub is_stale-act_all :
      (interval timeout limit : ℕ) (messages : G) (actions : List Action) (now : ℕ)
      → AllFresh eq create_message parse_pong
          (with_max_pending (new interval timeout messages) limit)
          actions
      → is_stale
          (act_all eq create_message parse_pong
            (with_max_pending (new interval timeout messages) limit)
            actions)
          now
        ≡ any_overdue
            (act_all eq create_message parse_pong
              (with_max_pending (new interval timeout messages) limit)
              actions).timeout
            now
            (values
              (act_all eq create_message parse_pong
                (with_max_pending (new interval timeout messages) limit)
                actions).pending_pings)
  unfolding new with_max_pending
  is_stale-act_all interval timeout limit messages actions now fresh =
      let p = with_max_pending (new interval timeout messages) limit in
      let p' = act_all eq create_message parse_pong p actions in
      TracksOldest-is_stale p' now (act_all-TracksOldest p actions fresh refl)
