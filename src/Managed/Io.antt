-- ===== src/Managed/Io.antt =====
-- src/ws/managed.rs: commands, the status byte, and the helpers that write to the socket.
use Prim.Native.String.{String}
use shared_ws.Prelude.{
  ℕ, Bool, true, false, Option, none, some, List, [], ◌∷◌, ◌++◌, ◌==◌, if◌then◌else◌,
}
use shared_ws.Frame.{Bytes, WsFrame, into_ws_frame}
use shared_ws.Types.Basic.{
  Result, ok, err, WebSocketError, WsConnectionStatus, connecting, connected, disconnected,
  WsSubscriptionAction,
}
use shared_ws.Types.Endpoint.{Endpoint}

pub data ManagedWsCommand (U : Type 0) : Type 0 where
  send : Bytes → ManagedWsCommand U
  update_subscriptions : WsSubscriptionAction U → ManagedWsCommand U
  force_reconnect : String → ManagedWsCommand U
  shutdown : ManagedWsCommand U

unfoldable pub command_requires_auth : {U : Type 0} → ManagedWsCommand U → Bool
command_requires_auth (send _) = true
command_requires_auth (update_subscriptions _) = true
command_requires_auth (force_reconnect _) = false
command_requires_auth shutdown = false

unfoldable pub ws_status_to_u8 : WsConnectionStatus → ℕ
ws_status_to_u8 connecting = 0
ws_status_to_u8 connected = 1
ws_status_to_u8 disconnected = 2

unfoldable pub ws_status_from_u8 : ℕ → WsConnectionStatus
ws_status_from_u8 raw =
    if raw == 0 then connecting else if raw == 1 then connected else disconnected

-- The transport's `Sink`: what `send` answers to a frame, after the frames that it was handed
-- before. `none` is `Ok(())`.
abbrev pub Sink : Type 0
Sink = List WsFrame → WsFrame → Option WebSocketError

-- A connection's writer, with the frames that it was handed, oldest first.
pub record Writer : Type 0 where
  pub sink : Sink
  pub written : List WsFrame

-- The handler and the writer, which the helpers borrow mutably.
pub record Conn (St : Type 0) : Type 0 where
  pub handler : St
  pub writer : Writer

-- A result is beside the connection that the call leaves.
abbrev pub Io : Type 0 → Type 0
Io St = Result WebSocketError (Unit {0}) × Conn St

abbrev pub outcome : Option WebSocketError → Result WebSocketError (Unit {0})
outcome none = ok tt
outcome (some e) = err e

unfoldable pub write_frame : {St : Type 0} → Conn St → WsFrame → Io St
write_frame c frame = (
  outcome (c.writer.sink c.writer.written frame),
  record c { writer = record (c.writer) { written = c.writer.written ++ frame ∷ [] } },
)

module _ {St M U J : Type 0} (h : Endpoint St M U J) where
  open h use {
    initial_subscriptions, update_subscriptions as subscriptions_for, serialize_subscription,
    on_outbound_frame,
  }

  unfoldable pub send_payload : Conn St → Bytes → Io St
  unfolding write_frame
  send_payload c payload =
      let frame = into_ws_frame payload in
      write_frame (record c { handler = on_outbound_frame c.handler frame }) frame

  -- The loop of `replay_subscriptions` and `send_subscription_updates`: it stops at the first
  -- failure.
  unfoldable pub send_subscriptions : Conn St → List U → Io St
  send_subscriptions c [] = (ok tt, c)
  send_subscriptions c (subscription ∷ rest) =
      let (payload, handler) = serialize_subscription c.handler subscription in
      let (r, c') = send_payload (record c { handler = handler }) payload in
      elim r [ ok _ ↦ send_subscriptions c' rest | err e ↦ (err e, c') ]

  unfoldable pub replay_subscriptions : Conn St → Io St
  replay_subscriptions c =
      let (subscriptions, handler) = initial_subscriptions c.handler in
      send_subscriptions (record c { handler = handler }) subscriptions

  unfoldable pub send_subscription_updates : Conn St → WsSubscriptionAction U → Io St
  send_subscription_updates c action =
      let (r, handler) = subscriptions_for c.handler action in
      let c' = record c { handler = handler } in
      elim r [
        | ok subscriptions ↦ send_subscriptions c' subscriptions
        | err e ↦ (err (WebSocketError.endpoint_specific e), c')
      ]

  unfoldable pub apply_command : Conn St → ManagedWsCommand U → Io St
  apply_command c (send payload) = send_payload c payload
  apply_command c (update_subscriptions action) = send_subscription_updates c action
  apply_command c (force_reconnect _) = (ok tt, c)
  apply_command c shutdown = (ok tt, c)

  -- Each command is popped before it is applied; the queue that is left is returned too.
  unfoldable pub apply_pending_auth_commands :
      Conn St
      → List (ManagedWsCommand U)
      → Result WebSocketError (Unit {0}) × Conn St × List (ManagedWsCommand U)
  apply_pending_auth_commands c [] = (ok tt, c, [])
  apply_pending_auth_commands c (command ∷ rest) =
      let (r, c') = apply_command c command in
      elim r [ ok _ ↦ apply_pending_auth_commands c' rest | err e ↦ (err e, c', rest) ]
