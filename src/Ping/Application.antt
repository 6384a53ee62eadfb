-- ===== src/Ping/Application.antt =====
-- src/core/ping.rs: `WsApplicationPingPong`, which tracks its pending pings by key. The map is a list
-- of its entries: the code asks for its size, a key and the least instant only. The closures
-- `create_message`, with what it keeps between its calls, and `parse_pong` are parameters, as is the
-- test for equal keys.
use shared_ws.Prelude.{
  ℕ, ◌-◌, Bool, false, Option, none, some, List, [], ◌∷◌, length, keep, min, leb, ltb, ◌==◌,
  if◌then◌else◌,
}
use shared_ws.Frame.{Bytes, WsFrame, text, binary, into_ws_frame}
use shared_ws.Ping.{WsPongResult, not_pong, pong_received, PingPong}

-- `HashMap::remove`: what the key had, and the map without it.
abbrev pub remove_key : {K : Type 0} → (K → K → Bool) → List (K × ℕ) → K → Option ℕ × List (K × ℕ)
remove_key eq [] key = (none, [])
remove_key eq (entry ∷ rest) key =
    let (found, left) = remove_key eq rest key in
    if eq entry.0 key then (some entry.1, rest) else (found, entry ∷ left)

abbrev pub values : {K : Type 0} → List (K × ℕ) → List ℕ
values [] = []
values (entry ∷ rest) = entry.1 ∷ values rest

-- The lesser of an instant and the least of others, if there is one.
abbrev pub least : ℕ → Option ℕ → ℕ
least a none = a
least a (some b) = min b a

-- `Iterator::min`
abbrev pub minimum : List ℕ → Option ℕ
minimum [] = none
minimum (x ∷ xs) = some (least x (minimum xs))

-- `K` is the type of keys and `G` the state of `create_message`.
pub record WsApplicationPingPong (K G : Type 0) : Type 0 where
  pub interval : ℕ
  pub timeout : ℕ
  pub pending_pings : List (K × ℕ)
  pub max_pending : ℕ
  pub oldest_pending : Option ℕ
  pub messages : G

unfoldable pub new : {K G : Type 0} → ℕ → ℕ → G → WsApplicationPingPong K G
new interval timeout messages = record {
  interval = interval;
  timeout = timeout;
  pending_pings = [];
  max_pending = 10;
  oldest_pending = none;
  messages = messages;
}

unfoldable pub with_max_pending :
    {K G : Type 0} → WsApplicationPingPong K G → ℕ → WsApplicationPingPong K G
with_max_pending p max_pending = record p { max_pending = max_pending }

module _ {K G : Type 0} where
  unfoldable pub touch_oldest_on_insert : WsApplicationPingPong K G → ℕ → WsApplicationPingPong K G
  touch_oldest_on_insert p now = record p { oldest_pending = some (least now p.oldest_pending) }

  unfoldable pub cleanup_stale : WsApplicationPingPong K G → ℕ → WsApplicationPingPong K G
  cleanup_stale p now =
      let pending = keep (λ entry. leb (now - entry.1) p.timeout) p.pending_pings in
      record p { pending_pings = pending; oldest_pending = minimum (values pending) }

  -- `self.oldest_pending == Some(sent_at)`
  abbrev pub is_oldest : WsApplicationPingPong K G → ℕ → Bool
  is_oldest p sent_at = elim p.oldest_pending [ none ↦ false | some oldest ↦ oldest == sent_at ]

  unfoldable pub is_stale : WsApplicationPingPong K G → ℕ → Bool
  is_stale p now = elim p.oldest_pending [
    | none ↦ false
    | some oldest ↦ ltb p.timeout (now - oldest)
  ]

  unfoldable pub reset : WsApplicationPingPong K G → WsApplicationPingPong K G
  reset p = record p { pending_pings = []; oldest_pending = none }

module _ {K G : Type 0} (eq : K → K → Bool) where
  -- The map's entry of a parsed key, if there is one, is taken out.
  unfoldable pub take_pending :
      WsApplicationPingPong K G → ℕ → K → WsPongResult × WsApplicationPingPong K G
  take_pending p now key =
      let (found, left) = remove_key eq p.pending_pings key in
      elim found [
        | none ↦ (not_pong, p)
        | some sent_at ↦ (
          pong_received (some (now - sent_at)),
          record p {
            pending_pings = left;
            oldest_pending =
                if is_oldest p sent_at then minimum (values left) else p.oldest_pending;
          },
        )
      ]

module _ {K G : Type 0} (eq : K → K → Bool) (parse_pong : Bytes → Option K) where
  unfoldable pub process_application :
      WsApplicationPingPong K G → ℕ → Bytes → WsPongResult × WsApplicationPingPong K G
  unfolding take_pending
  process_application p now payload = elim (parse_pong payload) [
    | none ↦ (not_pong, p)
    | some key ↦ take_pending eq p now key
  ]

  unfoldable pub handle_inbound :
      WsApplicationPingPong K G → ℕ → WsFrame → WsPongResult × WsApplicationPingPong K G
  unfolding process_application
  handle_inbound p now (text payload) = process_application p now payload
  handle_inbound p now (binary payload) = process_application p now payload
  handle_inbound p now _ = (not_pong, p)

module _ {K G : Type 0} (eq : K → K → Bool) (create_message : G → Bytes × K × G) where
  -- The entry of the new ping replaces an entry of its key; `started` is the clock of the cleanup,
  -- `now` that of the insertion.
  unfoldable pub create_ping :
      WsApplicationPingPong K G → ℕ → ℕ → Option WsFrame × WsApplicationPingPong K G
  unfolding cleanup_stale touch_oldest_on_insert
  create_ping p started now =
      let cleaned = cleanup_stale p started in
      let (payload, key, messages) = create_message cleaned.messages in
      let inserted = record cleaned {
        pending_pings = (key, now) ∷ (remove_key eq cleaned.pending_pings key).1;
        messages = messages;
      } in
      if leb cleaned.max_pending (length cleaned.pending_pings)
      then (none, cleaned)
      else (some (into_ws_frame payload), touch_oldest_on_insert inserted now)

module _ {K G : Type 0} (eq : K → K → Bool) (create_message : G → Bytes × K × G)
    (parse_pong : Bytes → Option K) where
  pub application : PingPong (WsApplicationPingPong K G)
  application = record {
    create_ping = create_ping eq create_message;
    handle_inbound = handle_inbound eq parse_pong;
    is_stale = is_stale;
    reset = reset;
    interval = λ p. p.interval;
    timeout = λ p. p.timeout;
  }
