-- ===== src/Ping/Actions.antt =====
-- src/core/ping.rs: what a connection does with a `WsApplicationPingPong`, as a sequence.
use shared_ws.Prelude.{ℕ, ◌≡◌, Bool, Option, none, List, [], ◌∷◌}
use shared_ws.Frame.{Bytes, WsFrame}
use shared_ws.Ping.Application.{
  WsApplicationPingPong, remove_key, reset, cleanup_stale, create_ping, handle_inbound,
}

-- A ping has the two instants that `create_ping` reads.
pub data Action : Type 0 where
  pings : ℕ → ℕ → Action
  handles : ℕ → WsFrame → Action
  resets : Action

module _ {K G : Type 0} (eq : K → K → Bool) (create_message : G → Bytes × K × G) where
  -- The key of the next ping is not pending.
  abbrev pub FreshKey : WsApplicationPingPong K G → Type 0
  FreshKey p = (remove_key eq p.pending_pings (create_message p.messages).1).0 ≡ none

  -- If the action is a ping, its key is not pending once the overdue entries are gone.
  abbrev pub IsFresh : WsApplicationPingPong K G → Action → Type 0
  IsFresh p (pings started _) = FreshKey (cleanup_stale p started)
  IsFresh p (handles _ _) = Unit
  IsFresh p resets = Unit

module _ {K G : Type 0} (eq : K → K → Bool) (create_message : G → Bytes × K × G)
    (parse_pong : Bytes → Option K) where
  abbrev pub act : WsApplicationPingPong K G → Action → WsApplicationPingPong K G
  act p (pings started now) = (create_ping eq create_message p started now).1
  act p (handles now frame) = (handle_inbound eq parse_pong p now frame).1
  act p resets = reset p

  abbrev pub act_all : WsApplicationPingPong K G → List Action → WsApplicationPingPong K G
  act_all p [] = p
  act_all p (a ∷ rest) = act_all (act p a) rest

  abbrev pub AllFresh : WsApplicationPingPong K G → List Action → Type 0
  AllFresh p [] = Unit
  AllFresh p (a ∷ rest) = IsFresh eq create_message p a × AllFresh (act p a) rest
