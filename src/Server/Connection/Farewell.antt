-- ===== src/Server/Connection/Farewell.antt =====
-- How a connection that is open ends.
use Prim.Native.String.{String}
use shared_ws.Prelude.{
  ◌≡◌, refl, sym, ◌∙◌, Bool, true, false, Option, none, some, List, [], ◌∷◌, ◌++◌, append-nil,
  arith,
}
use shared_ws.Types.Basic.{Result, ok, err, WebSocketError}
use shared_ws.Frame.{WsFrame, close}
use shared_ws.Managed.Io.{Sink}
use shared_ws.Server.Connection.{
  WsServerConnectionContext, connected, closed, EndpointFactory, Received, fell_behind,
  channel_closed, Poll, Connection, Life, open_at, ended, WsServerCloseCause, lagged, handler_error,
  server_shutdown, client_closed, transport_error, close_frame, ascii, send_close, ws_send, tell,
  on_frame, on_incoming, on_received, select, new_connection, finish_connection, settle, Going,
  run_connection_loop, greet, run_connection, first_ready, take_branch,
}

-- What ends a connection by itself when a poll finds it, whatever its handler says: a shutdown, else
-- what the stream brings, and only when it brings nothing what the command channel does.
abbrev poll_cause :
    {C : Type 0}
    → (WebSocketError → String)
    → Bool
    → Option (Option (Result WebSocketError WsFrame))
    → Option (Received C)
    → Option WsServerCloseCause
poll_cause display true _ _ = some server_shutdown
poll_cause display false (some none) _ = some client_closed
poll_cause display false (some (some (err e))) _ = some (transport_error (display e))
poll_cause display false (some (some (ok (close _)))) _ = some client_closed
poll_cause display false (some (some (ok _))) _ = none
poll_cause display false none (some (fell_behind missed)) = some (lagged missed)
poll_cause display false none (some channel_closed) = some server_shutdown
poll_cause display false none _ = none

abbrev pub stop_cause :
    {C : Type 0} → (WebSocketError → String) → Poll C → Option WsServerCloseCause
stop_cause display p = poll_cause display p.shutdown p.incoming p.commands

-- The last frame that the peer is sent: one close frame, or nothing.
abbrev pub farewell : WsServerCloseCause → List WsFrame
farewell (lagged _) =
    close (
      some (record {
        code = 1008;
        reason = ascii "client lagged; reconnect for an authoritative snapshot";
      }))
    ∷ []
farewell (handler_error _) =
    close (some (record { code = 1011; reason = ascii "endpoint handler error" })) ∷ []
farewell server_shutdown =
    close (some (record { code = 1001; reason = ascii "server shutting down" })) ∷ []
farewell _ = []

-- `c'` is what is left of `c` when it ended by `cause`.
abbrev pub EndsFrom :
    {St A C : Type 0} → Connection St A C → WsServerCloseCause → Connection St A C → Type 0
EndsFrom c cause c' =
    (c'.told ≡ c.told ++ closed cause ∷ [])
    × (c'.writer.written ≡ c.writer.written ++ farewell cause)
    × (c'.socket_closed ≡ true)

module _ {St A C : Type 0} (h : EndpointFactory St A C) (display : WebSocketError → String) where
  finish_connection-EndsFrom :
      (c : Connection St A C) (cause : WsServerCloseCause)
      → EndsFrom c cause (finish_connection h display c cause)
  unfolding finish_connection send_close ws_send close_frame
  finish_connection-EndsFrom c (lagged n) = (refl, refl, refl)
  finish_connection-EndsFrom c (handler_error e) = (refl, refl, refl)
  finish_connection-EndsFrom c server_shutdown = (refl, refl, refl)
  finish_connection-EndsFrom c cause = (refl, sym (append-nil c.writer.written), refl)

  settle-go_on :
      (g : Going St A C) (next later : Connection St A C → Life St A C) (c : Connection St A C)
      (life : Life St A C)
      → ((c' : Connection St A C) → next c' ≡ open_at c → later c' ≡ life)
      → settle h display g next ≡ open_at c
      → settle h display g later ≡ life
  unfolding settle
  settle-go_on (none, c') next later c life k e = k c' e
  settle-go_on (some cause, c') next later c life k e = ground arith

  -- A loop that waits goes on from where it is.
  run_connection_loop-append :
      (c c' : Connection St A C) (seen ps : List (Poll C))
      → run_connection_loop h display c seen ≡ open_at c'
      → run_connection_loop h display c (seen ++ ps) ≡ run_connection_loop h display c' ps
  unfolding run_connection_loop
  run_connection_loop-append c c' [] ps e = ground arith
  run_connection_loop-append c c' (p ∷ seen) ps e =
      settle-go_on (select h display c p) (λ d. run_connection_loop h display d seen)
        (λ d. run_connection_loop h display d (seen ++ ps)) c' (run_connection_loop h display c' ps)
        (λ d k. run_connection_loop-append d c' seen ps k) e

  select-stop :
      (c : Connection St A C) (p : Poll C) (cause : WsServerCloseCause)
      → stop_cause display p ≡ some cause
      → select h display c p ≡ (some cause, c)
  unfolding select first_ready take_branch on_incoming on_frame on_received
  select-stop c p cause e = ground arith

  pub run_connection-append :
      (ctx : WsServerConnectionContext A) (handshake : Option Sink) (c : Connection St A C)
      (seen ps : List (Poll C))
      → run_connection h display ctx handshake seen ≡ open_at c
      → run_connection h display ctx handshake (seen ++ ps) ≡ run_connection_loop h display c ps
  unfolding run_connection greet
  run_connection-append ctx none c seen ps e = ground arith
  run_connection-append ctx (some sink) c seen ps e =
      settle-go_on (tell h display (new_connection (h.create_endpoint ctx) sink) (connected ctx))
        (λ d. run_connection_loop h display d seen)
        (λ d. run_connection_loop h display d (seen ++ ps)) c (run_connection_loop h display c ps)
        (λ d k. run_connection_loop-append d c seen ps k) e

  -- An open connection ends by its next poll, whatever else is ready or would be later, when the
  -- poll finds a shutdown; or, without one, the end of the stream, its failure or a close frame; or,
  -- when the stream brings nothing, a command channel that is closed or in which the client fell
  -- behind. The handler is told this cause and nothing after it, the peer is sent the close frame
  -- of the cause (1001 for a shutdown or a closed channel, 1008 for a lagging client, else none) and
  -- nothing after it, and the socket is closed.
  pub run_connection_stops :
      (ctx : WsServerConnectionContext A) (handshake : Option Sink) (seen : List (Poll C))
      (c : Connection St A C) (p : Poll C) (rest : List (Poll C)) (cause : WsServerCloseCause)
      → run_connection h display ctx handshake seen ≡ open_at c
      → stop_cause display p ≡ some cause
      → (c' : Connection St A C) × (run_connection h display ctx handshake (seen ++ p ∷ rest)
          ≡ ended cause c')
        × EndsFrom c cause c'
  unfolding run_connection_loop settle
  run_connection_stops ctx handshake seen c p rest cause e stops = (
    finish_connection h display c cause,
    run_connection-append ctx handshake c seen (p ∷ rest) e
        ∙ (rw (select-stop c p cause stops) refl),
    finish_connection-EndsFrom c cause,
  )
