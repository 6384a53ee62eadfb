-- ===== src/Server/Connection/Trace.antt =====
-- What an endpoint's handler is told.
use Prim.Native.String.{String}
use shared_ws.Prelude.{
  ◌≡◌, ◌∙◌, refl, sym, ap, true, false, Option, none, some, List, [], ◌∷◌, ◌++◌, append-nil,
  append_assoc, arith,
}
use shared_ws.Types.Basic.{Result, ok, err, WebSocketError}
use shared_ws.Frame.{WsCloseFrame, WsFrame, text, binary, ping, pong, close}
use shared_ws.Managed.Io.{Sink}
use shared_ws.Server.Connection.Events.{
  frame_events, incoming_events, received_events, branch_events, events_of, told_by,
  branch_events-first_ready,
}
use shared_ws.Server.Batch.{drain}
use shared_ws.Server.Connection.{
  WsServerConnectionContext, WsServerEndpointEvent, connected, frame, command, tick, closed,
  WsServerEndpointAction, no_action, send, send_batch, close_with, EndpointFactory, Received,
  received, fell_behind, channel_closed, Poll, Connection, Life, not_upgraded, open_at, ended,
  WsServerCloseCause, close_frame, send_close, new_connection, ws_send, send_frames, apply_action,
  after_event, tell, on_frame, on_incoming, on_received, select, finish_connection, settle, Going,
  run_connection_loop, greet, run_connection, Branch, sees_shutdown, reads, receives, ticks, waits,
  first_ready, take_branch,
}

-- A life in which the handler was told `first` before the polls.
abbrev Tells :
    {St A C : Type 0} → List (WsServerEndpointEvent A C) → List (Poll C) → Life St A C → Type 0
Tells first ps not_upgraded = ⊥
Tells first ps (open_at c) = (c.told ≡ first ++ told_by ps) × (c.socket_closed ≡ false)
Tells {C = C} first ps (ended cause c) =
    (seen : List (Poll C)) × (rest : List (Poll C)) × (ps ≡ seen ++ rest)
    × (c.told ≡ first ++ told_by seen ++ closed cause ∷ [])
    × (c.socket_closed ≡ true)

-- What becomes of a handshake: without a socket there is no connection, and so no handler.
abbrev pub IsTraced :
    {St A C : Type 0}
    → WsServerConnectionContext A
    → Option Sink
    → List (Poll C)
    → Life St A C
    → Type 0
IsTraced ctx none ps life = life ≡ not_upgraded
IsTraced ctx (some _) ps life = Tells (connected ctx ∷ []) ps life

module _ {St A C : Type 0} where
  Tells-cons :
      (first : List (WsServerEndpointEvent A C)) (p : Poll C) (ps : List (Poll C))
      (life : Life St A C)
      → Tells (first ++ events_of p) ps life
      → Tells first (p ∷ ps) life
  Tells-cons first p ps not_upgraded t = absurd t
  Tells-cons first p ps (open_at c) t = (t.0 ∙ append_assoc first (events_of p) (told_by ps), t.1)
  Tells-cons first p ps (ended cause c) (seen, rest, e, t, o) = (
    p ∷ seen,
    rest,
    ap (◌∷◌ p) e,
    t ∙ ap (λ l. l ++ closed cause ∷ []) (append_assoc first _ (told_by seen)),
    o,
  )

-- `c'` is `c` after the handler was told `events`, its socket still open if it was.
abbrev pub Told :
    {St A C : Type 0}
    → Connection St A C
    → List (WsServerEndpointEvent A C)
    → Connection St A C
    → Type 0
Told c events c' = (c'.told ≡ c.told ++ events) × (c'.socket_closed ≡ c.socket_closed)

module _ {St A C : Type 0} (display : WebSocketError → String) where
  send_frames-told :
      (c : Connection St A C) (fs : List WsFrame)
      → ((send_frames display c fs).1.told ≡ c.told)
        × ((send_frames display c fs).1.socket_closed ≡ c.socket_closed)
  unfolding send_frames ws_send
  send_frames-told c [] = (refl, refl)
  send_frames-told c (f ∷ fs) = ground (arith, send_frames-told (ws_send c f).1 fs)

  apply_action-told :
      (c : Connection St A C) (a : WsServerEndpointAction)
      → ((apply_action display c a).1.told ≡ c.told)
        × ((apply_action display c a).1.socket_closed ≡ c.socket_closed)
  unfolding apply_action ws_send
  apply_action-told c no_action = (refl, refl)
  apply_action-told c (send f) = (refl, refl)
  apply_action-told c (send_batch batch) = send_frames-told c (drain batch).0
  apply_action-told c (close_with f) = (refl, refl)

module _ {St A C : Type 0} (h : EndpointFactory St A C) (display : WebSocketError → String) where
  after_event-told :
      (c : Connection St A C) (r : Result String WsServerEndpointAction)
      → ((after_event h display c r).1.told ≡ c.told)
        × ((after_event h display c r).1.socket_closed ≡ c.socket_closed)
  unfolding after_event
  after_event-told c (ok action) = apply_action-told display c action
  after_event-told c (err e) = (refl, refl)

  pub tell-Told :
      (c : Connection St A C) (event : WsServerEndpointEvent A C)
      → Told c (event ∷ []) (tell h display c event).1
  unfolding tell
  tell-Told c event =
      let r = h.on_event c.handler event in
      after_event-told (record c { handler = r.1; told = c.told ++ event ∷ [] }) r.0

  untold : (c : Connection St A C) → Told c [] c
  untold c = (sym (append-nil c.told), refl)

  on_frame-Told :
      (c : Connection St A C) (f : WsFrame) → Told c (frame_events f) (on_frame h display c f).1
  unfolding on_frame ws_send
  on_frame-Told c (text bytes) = tell-Told c (frame (text bytes))
  on_frame-Told c (binary bytes) = tell-Told c (frame (binary bytes))
  on_frame-Told c (ping bytes) = untold c
  on_frame-Told c (pong bytes) = untold c
  on_frame-Told c (close f) = untold c

  on_incoming-Told :
      (c : Connection St A C) (r : Option (Result WebSocketError WsFrame))
      → Told c (incoming_events r) (on_incoming h display c r).1
  unfolding on_incoming
  on_incoming-Told c none = untold c
  on_incoming-Told c (some (err e)) = untold c
  on_incoming-Told c (some (ok f)) = on_frame-Told c f

  on_received-Told :
      (c : Connection St A C) (r : Received C)
      → Told c (received_events r) (on_received h display c r).1
  unfolding on_received
  on_received-Told c (received x) = tell-Told c (command x)
  on_received-Told c (fell_behind missed) = untold c
  on_received-Told c channel_closed = untold c

  pub take_branch-Told :
      (c : Connection St A C) (b : Branch C)
      → Told c (branch_events b) (take_branch h display c b).1
  unfolding take_branch
  take_branch-Told c sees_shutdown = untold c
  take_branch-Told c (reads r) = on_incoming-Told c r
  take_branch-Told c (receives r) = on_received-Told c r
  take_branch-Told c ticks = tell-Told c tick
  take_branch-Told c waits = untold c

  send_close-told :
      (c : Connection St A C) (f : Option WsCloseFrame) → (send_close c f).told ≡ c.told
  unfolding send_close ws_send
  send_close-told c none = refl
  send_close-told c (some f) = refl

  pub finish_connection-told :
      (c : Connection St A C) (cause : WsServerCloseCause)
      → ((finish_connection h display c cause).told ≡ c.told ++ closed cause ∷ [])
        × ((finish_connection h display c cause).socket_closed ≡ true)
  unfolding finish_connection
  finish_connection-told c cause =
      let r = h.on_event c.handler (closed cause) in
      (
        send_close-told (record c { handler = r.1; told = c.told ++ closed cause ∷ [] })
            (close_frame cause),
        refl,
      )

  settle-Tells :
      (first : List (WsServerEndpointEvent A C)) (ps : List (Poll C)) (g : Going St A C)
      (next : Connection St A C → Life St A C)
      → g.1.told ≡ first
      → Tells first ps (next g.1)
      → Tells first ps (settle h display g next)
  unfolding settle
  settle-Tells first ps (none, c) next t k = k
  settle-Tells first ps (some cause, c) next t k =
      let f = finish_connection-told c cause in ([], ps, refl, rw (append-nil first, ← t) f.0, f.1)

  -- An event loop tells what its polls bring, and then how the connection ended.
  run_connection_loop-Tells :
      (c : Connection St A C) (ps : List (Poll C))
      → c.socket_closed ≡ false
      → Tells c.told ps (run_connection_loop h display c ps)
  unfolding run_connection_loop select
  run_connection_loop-Tells c [] o = (sym (append-nil c.told), o)
  run_connection_loop-Tells c (p ∷ ps) o =
      let brings = take_branch-Told c (first_ready p) in
      let g = take_branch h display c (first_ready p) in
      let t : Told c (events_of p) g.1 =
        (brings.0 ∙ ap (◌++◌ c.told) (branch_events-first_ready p), brings.1) in
      Tells-cons c.told p ps _ (
        settle-Tells _ ps g (λ c'. run_connection_loop h display c' ps) t.0
          (rw (← t.0) (run_connection_loop-Tells g.1 ps (t.1 ∙ o))))

  -- A handshake that fails or times out comes to no connection, so that no handler is made or told
  -- anything; after one that gives a socket, the handler is told `Connected`, then what the polls
  -- bring, in order and nothing else, until the poll that ends the connection, and then the cause of
  -- the end, once, when the socket is closed.
  pub run_connection-IsTraced :
      (ctx : WsServerConnectionContext A) (handshake : Option Sink) (ps : List (Poll C))
      → IsTraced ctx handshake ps (run_connection h display ctx handshake ps)
  unfolding run_connection greet
  run_connection-IsTraced ctx none ps = refl
  run_connection-IsTraced ctx (some sink) ps =
      let c = new_connection (h.create_endpoint ctx) sink in
      let t = tell-Told c (connected ctx) in
      let g = tell h display c (connected ctx) in
      settle-Tells (connected ctx ∷ []) ps g (λ c'. run_connection_loop h display c' ps) t.0
        (rw (← t.0) (run_connection_loop-Tells g.1 ps t.1))
