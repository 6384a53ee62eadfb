-- ===== src/Managed/Cases.antt =====
-- Case rules for the steps of the managed loop: what a property of the next state rests on.
use Prim.Native.String.{String}
use shared_ws.Prelude.{Bool, []}
use shared_ws.Types.Basic.{ok, err, WebSocketError, WsDisconnectCause}
use shared_ws.Types.Endpoint.{Endpoint}
use shared_ws.Types.Strategy.{ReconnectStrategy}
use shared_ws.Managed.Io.{Io, Conn, Sink, Writer}
use shared_ws.Managed.Loop.{
  session, Loop, disconnect, or_disconnect, send_auth, replay_if_public, mode_is_public, opened,
  after_auth, open_session,
}

module _ {St M U J R : Type 0} (h : Endpoint St M U J) (strategy : ReconnectStrategy R) where
  pub or_disconnect_cases :
      (P : Loop St U R → Type 0) (display : WebSocketError → String) (context : String) (r : Io St)
      (l : Loop St U R) (rest : Conn St → Loop St U R)
      → ((cause : WsDisconnectCause) (handler : St)
          → P (disconnect h strategy (record l { handler = handler }) cause))
      → ((c : Conn St) → P (rest c))
      → P (or_disconnect h strategy display context r l rest)
  or_disconnect_cases P display context (ok u, c) l rest d k = k c
  or_disconnect_cases P display context (err e, c) l rest d k = d _ _

  module _ (display : WebSocketError → String) where
    -- A new connection ends in a disconnect of the opened loop or in its session.
    pub open_session_cases :
        (P : Loop St U R → Type 0) (l : Loop St U R) (sink : Sink)
        → ((cause : WsDisconnectCause) (handler : St)
            → P (
                disconnect h strategy
                  (record (opened h strategy display l) { handler = handler })
                  cause))
        → ((authenticated : Bool) (writer : Writer) (handler : St)
            → P (record (opened h strategy display l) {
              phase = session authenticated writer;
              handler = handler;
            }))
        → P (open_session h strategy display l sink)
    unfolding open_session
    open_session_cases P l sink d k =
        or_disconnect_cases P display "auth_send"
          (send_auth h (h.generate_auth start.handler) start) l' (after_auth h strategy display l')
          d
          λ c.
            or_disconnect_cases P display "subscription_replay"
              (replay_if_public h (h.session_mode c.handler) c) l'
              (λ c'. record l' {
                phase = session (mode_is_public (h.session_mode c.handler)) c'.writer;
                handler = c'.handler;
              })
              d (λ c'. k (mode_is_public (h.session_mode c.handler)) c'.writer c'.handler)
      where
        l' : Loop St U R
        l' = opened h strategy display l

        start : Conn St
        start = record { handler = l'.handler; writer = record { sink = sink; written = [] } }
