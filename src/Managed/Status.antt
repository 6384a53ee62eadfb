-- ===== src/Managed/Status.antt =====
-- The status byte against the phase of the managed loop.
use Prim.Native.String.{String}
use shared_ws.Prelude.{List, [], ◌∷◌, ◌≡◌, refl, arith}
use shared_ws.Types.Basic.{
  ok, err, WebSocketError, WsConnectionStatus, WsDisconnectCause, connected, disconnected,
}
use shared_ws.Types.Endpoint.{Endpoint}
use shared_ws.Types.Strategy.{ReconnectStrategy}
use shared_ws.Managed.Io.{ws_status_to_u8, ws_status_from_u8, Sink}
use shared_ws.Managed.Cases.{open_session_cases}
use shared_ws.Managed.Session.{Flow, stays, breaks, returns, round}
use shared_ws.Managed.Loop.{
  Phase, connecting, session, waiting, stopped, Loop, Event, connects, selects, wakes,
  enter_connecting, leave_session, session_of, disconnect, opened, open_session, after_round,
  step_at, step, run, start,
}

abbrev pub status_of : Phase → WsConnectionStatus
status_of connecting = WsConnectionStatus.connecting
status_of (session _ _) = connected
status_of (waiting _) = disconnected
status_of stopped = disconnected

-- The status byte is the one for the phase.
abbrev pub Agrees : {St U R : Type 0} → Loop St U R → Type 0
Agrees l = l.status ≡ ws_status_to_u8 (status_of l.phase)

module _ {St M U J R : Type 0} (h : Endpoint St M U J) (strategy : ReconnectStrategy R) where
  disconnect-Agrees :
      (l : Loop St U R) (cause : WsDisconnectCause) → Agrees (disconnect h strategy l cause)
  unfolding disconnect enter_connecting
  disconnect-Agrees l cause = ground arith

  module _ (display : WebSocketError → String) where
    open_session-Agrees :
        (l : Loop St U R) (sink : Sink) → Agrees (open_session h strategy display l sink)
    open_session-Agrees l sink =
        open_session_cases h strategy display Agrees l sink
          (λ cause handler.
            disconnect-Agrees (record (opened h strategy display l) { handler = handler }) cause)
          (λ b w handler. refl)

    after_round-Agrees :
        (l : Loop St U R) (f : Flow St U)
        → l.status ≡ ws_status_to_u8 connected
        → Agrees (after_round h strategy display l f)
    unfolding after_round
    after_round-Agrees l (stays s) e = e
    after_round-Agrees l (breaks cause s) e = disconnect-Agrees (leave_session l s) cause
    after_round-Agrees l (returns s) e = refl

    step_at-Agrees :
        (p : Phase) (l : Loop St U R) (e : Event U)
        → l.phase ≡ p
        → Agrees l
        → Agrees (step_at h strategy display p l e)
    unfolding step_at enter_connecting
    step_at-Agrees connecting l (connects (ok sink)) p a = open_session-Agrees l sink
    step_at-Agrees connecting l (connects (err e)) p a =
        disconnect-Agrees l (WsDisconnectCause.internal_error "connect" (display e))
    step_at-Agrees (session b w) l (selects i) p a =
        after_round-Agrees l (round h display (session_of l b w) i) (rw p at a)
    step_at-Agrees (waiting d) l (wakes w) p a = ground arith
    step_at-Agrees _ l e p a = a

    run-Agrees :
        (l : Loop St U R) (es : List (Event U)) → Agrees l → Agrees (run h strategy display l es)
    unfolding run step
    run-Agrees l [] a = a
    run-Agrees l (e ∷ es) a =
        run-Agrees (step_at h strategy display l.phase l e) es (step_at-Agrees l.phase l e refl a)

    start-Agrees : (handler : St) (r : R) → Agrees (start h strategy display handler r)
    unfolding start enter_connecting
    start-Agrees handler r = refl

from_u8-to_u8 : (status : WsConnectionStatus) → ws_status_from_u8 (ws_status_to_u8 status) ≡ status
unfolding ws_status_from_u8 ws_status_to_u8
from_u8-to_u8 WsConnectionStatus.connecting = refl
from_u8-to_u8 connected = refl
from_u8-to_u8 disconnected = refl

-- After any events the status that the handle reports is the one of the loop's phase: connecting
-- while it connects, connected exactly while a session is open, and disconnected while it waits
-- and once it has stopped.
pub run-status_of :
    {St M U J R : Type 0} (h : Endpoint St M U J) (strategy : ReconnectStrategy R)
    (display : WebSocketError → String) (handler : St) (r : R) (es : List (Event U))
    → let l = run h strategy display (start h strategy display handler r) es in
      ws_status_from_u8 l.status ≡ status_of l.phase
run-status_of h strategy display handler r es =
    let first = start h strategy display handler r in
    rw (run-Agrees h strategy display first es (start-Agrees h strategy display handler r))
      (from_u8-to_u8 (status_of (run h strategy display first es).phase))
