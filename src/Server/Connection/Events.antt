-- ===== src/Server/Connection/Events.antt =====
-- The events that the polls of a connection bring its handler.
use shared_ws.Prelude.{Bool, ◌≡◌, true, false, Option, none, some, List, [], ◌∷◌, ◌++◌, arith}
use shared_ws.Types.Basic.{Result, ok, err, WebSocketError}
use shared_ws.Frame.{WsFrame, text, binary}
use shared_ws.Server.Connection.{
  WsServerEndpointEvent, frame, command, tick, Received, received, Poll, Branch, reads, receives,
  ticks, first_ready,
}

-- What one poll brings the handler: nothing, or one event. A shutdown comes before a frame, a frame
-- before a command, and a command before a tick. Control frames are not for the handler.
abbrev pub frame_events : {A C : Type 0} → WsFrame → List (WsServerEndpointEvent A C)
frame_events (text bytes) = frame (text bytes) ∷ []
frame_events (binary bytes) = frame (binary bytes) ∷ []
frame_events _ = []

abbrev pub incoming_events :
    {A C : Type 0} → Option (Result WebSocketError WsFrame) → List (WsServerEndpointEvent A C)
incoming_events none = []
incoming_events (some (err _)) = []
incoming_events (some (ok f)) = frame_events f

abbrev pub received_events : {A C : Type 0} → Received C → List (WsServerEndpointEvent A C)
received_events (received x) = command x ∷ []
received_events _ = []

abbrev poll_events :
    {A C : Type 0}
    → Bool
    → Option (Option (Result WebSocketError WsFrame))
    → Option (Received C)
    → Bool
    → List (WsServerEndpointEvent A C)
poll_events true _ _ _ = []
poll_events false (some r) _ _ = incoming_events r
poll_events false none (some x) _ = received_events x
poll_events false none none true = tick ∷ []
poll_events false none none false = []

abbrev pub events_of : {A C : Type 0} → Poll C → List (WsServerEndpointEvent A C)
events_of p = poll_events p.shutdown p.incoming p.commands p.tick_due

abbrev pub branch_events : {A C : Type 0} → Branch C → List (WsServerEndpointEvent A C)
branch_events (reads r) = incoming_events r
branch_events (receives r) = received_events r
branch_events ticks = tick ∷ []
branch_events _ = []

pub branch_events-first_ready :
    {A C : Type 0} (p : Poll C) → branch_events {A = A} (first_ready p) ≡ events_of p
unfolding first_ready
branch_events-first_ready p = ground arith

abbrev pub told_by : {A C : Type 0} → List (Poll C) → List (WsServerEndpointEvent A C)
told_by [] = []
told_by (p ∷ ps) = events_of p ++ told_by ps
