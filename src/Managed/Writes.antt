-- ===== src/Managed/Writes.antt =====
-- The frames that a connection writes on a socket that takes every frame.
use Prim.Native.String.{String}
use shared_ws.Prelude.{
  Option, none, some, ◌≡◌, refl, List, [], ◌∷◌, ◌++◌, append-nil, append_assoc, arith,
}
use shared_ws.Frame.{WsFrame, Bytes, into_ws_frame}
use shared_ws.Types.Basic.{ok, WebSocketError, WsSessionMode, connected, is_public, auth_gated}
use shared_ws.Types.Endpoint.{Endpoint}
use shared_ws.Types.Strategy.{ReconnectStrategy}
use shared_ws.Managed.Io.{
  Sink, send_payload, send_subscriptions, replay_subscriptions, ws_status_to_u8,
}
use shared_ws.Managed.Loop.{
  Loop, session, opened, open_session, mode_is_public, send_auth, replay_if_public,
}

-- The socket takes every frame.
abbrev pub TakesAll : Sink → Type 0
TakesAll sink = (history : List WsFrame) (frame : WsFrame) → sink history frame ≡ none

module _ {St M U J : Type 0} (h : Endpoint St M U J) where
  open h use {
    initial_subscriptions, serialize_subscription, on_outbound_frame, generate_auth, session_mode,
  }

  -- The frames for a list of subscriptions in order, and the handler's state after them.
  abbrev pub subscription_frames : St → List U → List WsFrame × St
  subscription_frames st [] = ([], st)
  subscription_frames st (u ∷ us) =
      let (payload, st') = serialize_subscription st u in
      let frame = into_ws_frame payload in
      let (frames, st'') = subscription_frames (on_outbound_frame st' frame) us in
      (frame ∷ frames, st'')

  abbrev pub auth_frames : Option Bytes → List WsFrame
  auth_frames none = []
  auth_frames (some payload) = into_ws_frame payload ∷ []

  abbrev pub after_auth_frame : St → Option Bytes → St
  after_auth_frame st none = st
  after_auth_frame st (some payload) = on_outbound_frame st (into_ws_frame payload)

  -- What a connection writes before its first `select!`: the auth payload, then, for a public
  -- session only, the subscriptions.
  abbrev pub replay_frames : St → WsSessionMode → List WsFrame × St
  replay_frames st is_public =
      let (us, st') = initial_subscriptions st in subscription_frames st' us
  replay_frames st auth_gated = ([], st)

  send_subscriptions-frames :
      (sink : Sink) (written : List WsFrame) (st : St) (us : List U)
      → TakesAll sink
      → let (frames, st') = subscription_frames st us in
        send_subscriptions h
          (record { handler = st; writer = record { sink = sink; written = written } })
          us
        ≡ (
          ok tt,
          record { handler = st'; writer = record { sink = sink; written = written ++ frames } },
        )
  unfolding send_subscriptions send_payload
  send_subscriptions-frames sink written st [] t = ground (arith, append-nil written)
  send_subscriptions-frames sink written st (u ∷ us) t =
      let (payload, st') = serialize_subscription st u in
      let frame = into_ws_frame payload in
      let st'' = on_outbound_frame st' frame in
      ground (
        arith,
        t written frame,
        append_assoc written (frame ∷ []) (subscription_frames st'' us).0,
        send_subscriptions-frames sink (written ++ frame ∷ []) st'' us t,
      )

  send_auth-frames :
      (sink : Sink) (st : St) (auth : Option Bytes)
      → TakesAll sink
      → send_auth h auth (record { handler = st; writer = record { sink = sink; written = [] } })
        ≡ (
          ok tt,
          record {
            handler = after_auth_frame st auth;
            writer = record { sink = sink; written = auth_frames auth };
          },
        )
  unfolding send_payload
  send_auth-frames sink st none t = refl
  send_auth-frames sink st (some payload) t = ground (arith, t [] (into_ws_frame payload))

  replay-frames :
      (sink : Sink) (written : List WsFrame) (st : St) (mode : WsSessionMode)
      → TakesAll sink
      → replay_if_public h mode
          (record { handler = st; writer = record { sink = sink; written = written } })
        ≡ (
          ok tt,
          record {
            handler = (replay_frames st mode).1;
            writer = record { sink = sink; written = written ++ (replay_frames st mode).0 };
          },
        )
  unfolding replay_subscriptions
  replay-frames sink written st is_public t =
      send_subscriptions-frames sink written (initial_subscriptions st).1
        (initial_subscriptions st).0 t
  replay-frames sink written st auth_gated t = ground (arith, append-nil written)

  -- What `open_session` writes, and the handler's state after it.
  abbrev pub greeting : St → List WsFrame × St
  greeting st =
      let st' = after_auth_frame st (generate_auth st) in
      let (frames, st'') = replay_frames st' (session_mode st') in
      (auth_frames (generate_auth st) ++ frames, st'')

  module _ {R : Type 0} (strategy : ReconnectStrategy R) (display : WebSocketError → String) where
    -- On a socket that takes every frame a connection opens its session with exactly these frames
    -- written, in this order: the auth payload, if there is one, and the subscriptions, if the
    -- session is public. The session starts authenticated exactly if it is public, the backoff is
    -- reset, and queued commands stay queued.
    pub open_session_writes :
        (l : Loop St U R) (sink : Sink)
        → TakesAll sink
        → let st = (opened h strategy display l).handler in
          open_session h strategy display l sink ≡ record l {
            phase =
                session
                  (mode_is_public (session_mode (after_auth_frame st (generate_auth st))))
                  (record { sink = sink; written = (greeting st).0 });
            handler = (greeting st).1;
            reconnect = strategy.reset l.reconnect;
            status = ws_status_to_u8 connected;
          }
    unfolding open_session
    open_session_writes l sink t =
        let st = (opened h strategy display l).handler in
        let auth = generate_auth st in
        let st' = after_auth_frame st auth in
        ground (
          arith,
          send_auth-frames sink st auth t,
          replay-frames sink (auth_frames auth) st' (session_mode st') t,
        )
