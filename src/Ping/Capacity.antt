-- ===== src/Ping/Capacity.antt =====
-- How many pings `WsApplicationPingPong` keeps.
use shared_ws.Prelude.{
  ℕ, ◌-◌, ◌≤◌, ◌≡◌, Bool, Option, List, [], ◌∷◌, arith, length, length-keep-le, leb, Option-cases,
  inl, inr,
}
use shared_ws.Frame.{Bytes, WsFrame, text, binary, ping, pong, close}
use shared_ws.Ping.Application.{
  WsApplicationPingPong, new, with_max_pending, remove_key, reset, cleanup_stale, take_pending,
  process_application, create_ping, handle_inbound,
}
use shared_ws.Ping.Actions.{Action, pings, handles, resets, act, act_all}

-- The limit is `max_pending`, and no more pings are pending.
abbrev pub IsWithin : {K G : Type 0} → ℕ → WsApplicationPingPong K G → Type 0
IsWithin limit p = (length p.pending_pings ≤ limit) × (p.max_pending ≡ limit)

module _ {K : Type 0} (eq : K → K → Bool) where
  length-remove_key :
      (entries : List (K × ℕ)) (key : K) → length (remove_key eq entries key).1 ≤ length entries
  length-remove_key [] key = omega arith
  length-remove_key (entry ∷ rest) key = ground (arith, length-remove_key rest key)

module _ {K G : Type 0} (eq : K → K → Bool) where
  take_pending-IsWithin :
      {limit : ℕ} (p : WsApplicationPingPong K G) (now : ℕ) (key : K)
      → IsWithin limit p
      → IsWithin limit (take_pending eq p now key).1
  unfolding take_pending
  take_pending-IsWithin p now key h = ground (arith, length-remove_key eq p.pending_pings key)

module _ {K G : Type 0} (eq : K → K → Bool) (parse_pong : Bytes → Option K) where
  process-IsWithin :
      {limit : ℕ} (p : WsApplicationPingPong K G) (now : ℕ) (payload : Bytes)
      → IsWithin limit p
      → IsWithin limit (process_application eq parse_pong p now payload).1
  unfolding process_application
  process-IsWithin p now payload h = elim (Option-cases (parse_pong payload)) [
    | inl e ↦ rw (e, process_application) h
    | inr (key, e) ↦ rw (e, process_application) (take_pending-IsWithin eq p now key h)
  ]

  handle_inbound-IsWithin :
      {limit : ℕ} (p : WsApplicationPingPong K G) (now : ℕ) (frame : WsFrame)
      → IsWithin limit p
      → IsWithin limit (handle_inbound eq parse_pong p now frame).1
  unfolding handle_inbound
  handle_inbound-IsWithin p now (text payload) h = process-IsWithin p now payload h
  handle_inbound-IsWithin p now (binary payload) h = process-IsWithin p now payload h
  handle_inbound-IsWithin p now (ping payload) h = h
  handle_inbound-IsWithin p now (pong payload) h = h
  handle_inbound-IsWithin p now (close info) h = h

module _ {K G : Type 0} (eq : K → K → Bool) (create_message : G → Bytes × K × G) where
  create_ping-IsWithin :
      {limit : ℕ} (p : WsApplicationPingPong K G) (started now : ℕ)
      → IsWithin limit p
      → IsWithin limit (create_ping eq create_message p started now).1
  unfolding create_ping
  create_ping-IsWithin p started now h =
      let cleaned = cleanup_stale p started in
      ground (
        arith,
        length-keep-le (λ entry. leb (started - entry.1) p.timeout) p.pending_pings,
        length-remove_key eq cleaned.pending_pings (create_message p.messages).1,
      )

module _ {K G : Type 0} (eq : K → K → Bool) (create_message : G → Bytes × K × G)
    (parse_pong : Bytes → Option K) where
  act-IsWithin :
      {limit : ℕ} (p : WsApplicationPingPong K G) (a : Action)
      → IsWithin limit p
      → IsWithin limit (act eq create_message parse_pong p a)
  unfolding reset
  act-IsWithin p (pings started now) h = create_ping-IsWithin eq create_message p started now h
  act-IsWithin p (handles now frame) h = handle_inbound-IsWithin eq parse_pong p now frame h
  act-IsWithin p resets h = ground arith

  act_all-IsWithin :
      {limit : ℕ} (p : WsApplicationPingPong K G) (actions : List Action)
      → IsWithin limit p
      → IsWithin limit (act_all eq create_message parse_pong p actions)
  act_all-IsWithin p [] h = h
  act_all-IsWithin p (a ∷ rest) h =
      act_all-IsWithin (act eq create_message parse_pong p a) rest (act-IsWithin p a h)

  -- After any pings, frames and resets on a new strategy at most `limit` pings are pending, whatever
  -- their keys.
  pub act_all-new-IsWithin :
      (interval timeout limit : ℕ) (messages : G) (actions : List Action)
      → IsWithin limit (
          act_all eq create_message parse_pong
            (with_max_pending (new interval timeout messages) limit)
            actions)
  unfolding new with_max_pending
  act_all-new-IsWithin interval timeout limit messages actions =
      let p = with_max_pending (new interval timeout messages) limit in
      act_all-IsWithin p actions (ground arith)
