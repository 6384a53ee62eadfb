-- ===== src/Server/System/Drain.antt =====
-- How a server whose connections are open comes to its end.
use Prim.Native.String.{String}
use shared_ws.Prelude.{ℕ, ◌≡◌, true, false, Option, none, List, []}
use shared_ws.Types.Basic.{WebSocketError}
use shared_ws.Server.Config.{WsServerConfig, WsServerRetryPolicy}
use shared_ws.Server.Lifecycle.{draining, Server}
use shared_ws.Server.Endings.{IsRunning}
use shared_ws.Server.Connection.{EndpointFactory, Poll}
use shared_ws.Server.System.Steps.{Steps, AllUnaided}
use shared_ws.Server.System.{Task, System}

-- A server that drains, on the way to `Stopped`.
abbrev Drains : {A : Type 0} → Server A → Type 0
Drains s = (s.phase ≡ draining) × (s.shared.shutdown ≡ true) × IsRunning s.shared

abbrev told_to_stop : {C : Type 0} → Poll C
told_to_stop = record { shutdown = true; incoming = none; commands = none; tick_due = false }

module _ {St A W C : Type 0} (config : WsServerConfig A W) (retry : WsServerRetryPolicy)
    (fault : Option ℕ) (h : EndpointFactory St A C) (display : WebSocketError → String) where
  -- The first task returns.
  abbrev Returns : System St A C → List (Task St A C) → Type 0
  Returns s rest =
      (s' : System St A C) × ((m : Steps config retry fault h display s s') × AllUnaided config
          retry fault h display m)
      × (s'.tasks ≡ rest)
      × (s'.sent ≡ s.sent)
      × Drains s'.server

  -- A system that drains, with no task left.
  abbrev pub Empties : System St A C → Type 0
  Empties s =
      (d : System St A C) × ((m : Steps config retry fault h display s d) × AllUnaided config retry
          fault h display m)
      × (d.tasks ≡ [])
      × (d.sent ≡ s.sent)
      × Drains d.server
