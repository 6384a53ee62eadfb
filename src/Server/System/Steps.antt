-- ===== src/Server/System/Steps.antt =====
-- Runs of the steps of a server with its tasks, and the steps that it takes with no help.
use Prim.Native.String.{String}
use shared_ws.Prelude.{ℕ, ◌≡◌, false, Option, none}
use shared_ws.Types.Basic.{WebSocketError}
use shared_ws.Server.Config.{WsServerConfig, WsServerRetryPolicy}
use shared_ws.Server.Lifecycle.{Event, requests_shutdown, accepts, connection_ends}
use shared_ws.Server.Connection.{EndpointFactory}
use shared_ws.Server.System.{System, Step, goes, upgrades, polls, leaves, Reach, later}

-- An event that the handle and the clients have no part in.
abbrev pub IsOwn : Event → Type 0
IsOwn requests_shutdown = ⊥
IsOwn (accepts _) = ⊥
IsOwn (connection_ends _) = ⊥
IsOwn _ = Unit

module _ {St A W C : Type 0} (config : WsServerConfig A W) (retry : WsServerRetryPolicy)
    (fault : Option ℕ) (h : EndpointFactory St A C) (display : WebSocketError → String) where
  -- Any number of steps.
  pub data Steps : System St A C → System St A C → Type 0 where
    stays : {s : System St A C} → Steps s s
    next : {s t u : System St A C} → Step config retry fault h display s t → Steps t u → Steps s u

  -- The steps that no client and no caller of the handle has a part in: the answer to a bind and the
  -- other awaits of the lifecycle, an upgrade that times out, the return of a task, and the poll of
  -- a connection for which nothing is ready, no frame and no end of the stream, no command and no
  -- tick, unless it is the shutdown.
  abbrev pub IsUnaided : {s t : System St A C} → Step config retry fault h display s t → Type 0
  IsUnaided (goes e _) = IsOwn e
  IsUnaided (upgrades _ _ _ handshake _ _) = handshake ≡ none
  IsUnaided (polls _ _ _ _ p _ _ _ _) =
      (p.incoming ≡ none) × (p.commands ≡ none) × (p.tick_due ≡ false)
  IsUnaided (leaves _ _ _ _ _) = Unit
  IsUnaided _ = ⊥

  abbrev pub AllUnaided : {s t : System St A C} → Steps s t → Type 0
  AllUnaided stays = Unit
  AllUnaided (next m ms) = IsUnaided m × AllUnaided ms

  abbrev pub then_steps : {s t u : System St A C} → Steps s t → Steps t u → Steps s u
  then_steps stays q = q
  then_steps (next m p) q = next m (then_steps p q)

  pub then_steps-AllUnaided :
      {s t u : System St A C} (m : Steps s t) (ms : Steps t u)
      → AllUnaided m
      → AllUnaided ms
      → AllUnaided (then_steps m ms)
  then_steps-AllUnaided stays ms a b = b
  then_steps-AllUnaided (next m p) ms a b = (a.0, then_steps-AllUnaided p ms a.1 b)

  -- What its steps come to is reached.
  pub Reach-Steps :
      (s t : System St A C)
      → Steps s t
      → Reach config retry fault h display s
      → Reach config retry fault h display t
  Reach-Steps s t stays r = r
  Reach-Steps s t (next {t = u} m ms) r = Reach-Steps u t ms (later r m)
