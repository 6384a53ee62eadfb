-- ===== src/Testing/Mock.antt =====
-- src/testing.rs: the mock transports. The channels are a parameter; both ends of a channel, which
-- different values own in the source, are kept together here, and a method gets the socket that its
-- `self` stands for.
pub mod Order
pub mod Arrivals
mod Tests
use Prim.Native.String.{String}
use shared_ws.Prelude.{
  ℕ, ◌+◌, ◌%◌, Bool, true, false, Option, none, some, List, [], ◌∷◌, ◌++◌, length, get_elem?, set,
}
use shared_ws.Types.Basic.{Result, ok, err, WebSocketError}
use shared_ws.Frame.{Bytes, WsFrame, into_ws_frame}
use shared_ws.Testing.Channel.{Polled, pending, finished, got, Channels}

pub data MockServerError : Type 0 where
  socket_dropped channel_closed : MockServerError

-- The two channels of a `MockTransport` and its `MockServer`, or of one connection of the
-- reconnectable ones: whether the transport has the reader's end still, and whether the server has
-- its sender.
pub record MockSocket (Q : Type 0) : Type 0 where
  pub outbound : Q
  pub inbound : Q
  pub inbound_rx : Bool
  pub inbound_tx : Bool

module _ {Q : Type 0} (ops : Channels Q WsFrame) where
  unfoldable pub channel_pair : MockSocket Q
  channel_pair = record {
    outbound = ops.unbounded_channel;
    inbound = ops.unbounded_channel;
    inbound_rx = true;
    inbound_tx = true;
  }

  abbrev take_reader : Bool → MockSocket Q → Result WebSocketError (Unit {0}) × MockSocket Q
  take_reader true m = (ok tt, record m { inbound_rx = false })
  take_reader false m = (
    err (WebSocketError.invalid_state "mock transport only supports a single active connection"),
    m,
  )

  -- The reader and the writer are of this socket.
  unfoldable pub connect : MockSocket Q → Result WebSocketError (Unit {0}) × MockSocket Q
  connect m = take_reader m.inbound_rx m

  unfoldable pub recv_outbound : MockSocket Q → Polled WsFrame × MockSocket Q
  recv_outbound m = let (r, q) = ops.poll_recv m.outbound in (r, record m { outbound = q })

  -- What there is by the timeout, if it is a value.
  abbrev in_time : {F : Type 0} → Polled F → Option F
  in_time (got x) = some x
  in_time _ = none

  unfoldable pub recv_outbound_timeout : MockSocket Q → Option WsFrame × MockSocket Q
  unfolding recv_outbound
  recv_outbound_timeout m = let (r, m') = recv_outbound m in (in_time r, m')

  abbrev sent_at : Bool → Option Q → MockSocket Q → Result MockServerError (Unit {0}) × MockSocket Q
  sent_at false sent m = (err socket_dropped, m)
  sent_at true none m = (err channel_closed, m)
  sent_at true (some q) m = (ok tt, record m { inbound = q })

  unfoldable pub send_inbound :
      MockSocket Q → WsFrame → Result MockServerError (Unit {0}) × MockSocket Q
  send_inbound m f = sent_at m.inbound_tx (ops.send m.inbound f) m

  unfoldable pub send_text : MockSocket Q → Bytes → Result MockServerError (Unit {0}) × MockSocket Q
  unfolding send_inbound into_ws_frame
  send_text m bytes = send_inbound m (into_ws_frame bytes)

  -- Its sender is dropped if it is there.
  abbrev dropped_at : Bool → MockSocket Q → MockSocket Q
  dropped_at false m = m
  dropped_at true m = record m { inbound = ops.drop_senders m.inbound; inbound_tx = false }

  unfoldable pub drop_socket : MockSocket Q → MockSocket Q
  drop_socket m = dropped_at m.inbound_tx m

  abbrev pub item_of : Polled WsFrame → Polled (Result WebSocketError WsFrame)
  item_of pending = pending
  item_of finished = finished
  item_of (got f) = got (ok f)

  -- `MockReader::poll_next`, and the drop of the reader.
  unfoldable pub poll_next : MockSocket Q → Polled (Result WebSocketError WsFrame) × MockSocket Q
  poll_next m = let (r, q) = ops.poll_recv m.inbound in (item_of r, record m { inbound = q })

  abbrev written_at : Option Q → MockSocket Q → Result WebSocketError (Unit {0}) × MockSocket Q
  written_at none m = (
    err (WebSocketError.transport_error "mock_transport_write" "mock outbound channel closed"),
    m,
  )
  written_at (some q) m = (ok tt, record m { outbound = q })

  -- `MockWriter::start_send`
  unfoldable pub start_send :
      MockSocket Q → WsFrame → Result WebSocketError (Unit {0}) × MockSocket Q
  start_send m f = written_at (ops.send m.outbound f) m

-- The reconnectable transport and its server. `sockets` are those of all the connections that were
-- made, oldest first, and `arrivals` is the channel over which the server gets them, as their ids
-- and places in that list.
pub record Reconnectable (Q P : Type 0) : Type 0 where
  pub conn_seq : ℕ
  pub sockets : List (MockSocket Q)
  pub arrivals : P

module _ {Q P : Type 0} (ops : Channels Q WsFrame) (conns : Channels P (ℕ × ℕ)) where
  unfoldable pub reconnectable_pair : Reconnectable Q P
  reconnectable_pair = record { conn_seq = 0; sockets = []; arrivals = conns.unbounded_channel }

  -- The channels of a connection that does not arrive are dropped.
  abbrev connected_at : Option P → Reconnectable Q P → Result WebSocketError ℕ × Reconnectable Q P
  connected_at none r =
      (err (WebSocketError.invalid_state "reconnectable mock server receiver dropped"), r)
  connected_at (some p) r = (
    ok (length r.sockets),
    record r {
      sockets = r.sockets ++ record (channel_pair ops) { inbound_rx = false } ∷ [];
      arrivals = p;
    },
  )

  -- `fetch_add` wraps; the place of the socket stands for its reader and its writer.
  unfoldable pub reconnect : Reconnectable Q P → Result WebSocketError ℕ × Reconnectable Q P
  unfolding channel_pair
  reconnect r =
      let conn_id = (r.conn_seq + 1) % 18446744073709551616 in
      connected_at (conns.send r.arrivals (conn_id, length r.sockets))
        (record r { conn_seq = conn_id })

  unfoldable pub accept_connection : Reconnectable Q P → Polled (ℕ × ℕ) × Reconnectable Q P
  accept_connection r = let (a, p) = conns.poll_recv r.arrivals in (a, record r { arrivals = p })
