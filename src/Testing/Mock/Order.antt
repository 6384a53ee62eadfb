-- ===== src/Testing/Mock/Order.antt =====
-- What the two sides of a mock socket get of each other.
use shared_ws.Prelude.{
  ◌≡◌, refl, sym, ap, Bool, true, false, List, [], ◌∷◌, ◌++◌, arith, if◌then◌else◌,
}
use shared_ws.Types.Basic.{Result, ok, err, WebSocketError}
use shared_ws.Frame.{WsFrame}
use shared_ws.Testing.Channel.{Polled, pending, finished, got, Channels, IsFifo}
use shared_ws.Testing.Channel.Held.{logged_got, next_or, Holds, send-Holds, recv-Holds}
use shared_ws.Testing.Mock.{
  socket_dropped, MockSocket, channel_pair, recv_outbound, send_inbound, drop_socket, item_of,
  poll_next, start_send,
}

-- What the sides of a socket do.
pub data Move : Type 0 where
  writes pushes : WsFrame → Move
  receives reads drops : Move

-- A socket with the frames that were written, received, pushed and read without an error.
pub record Traffic (Q : Type 0) : Type 0 where
  pub socket : MockSocket Q
  pub written : List WsFrame
  pub received : List WsFrame
  pub pushed : List WsFrame
  pub read : List WsFrame

abbrev logged : {E : Type 0} → Result E (Unit {0}) → WsFrame → List WsFrame → List WsFrame
logged (ok _) f log = log ++ f ∷ []
logged (err _) f log = log

abbrev logged_item : Polled (Result WebSocketError WsFrame) → List WsFrame → List WsFrame
logged_item (got (ok f)) log = log ++ f ∷ []
logged_item _ log = log

module _ {Q : Type 0} (ops : Channels Q WsFrame) where
  abbrev pub act : Traffic Q → Move → Traffic Q
  act t (writes f) =
      let (r, m) = start_send ops t.socket f in
      record t { socket = m; written = logged r f t.written }
  act t (pushes f) =
      let (r, m) = send_inbound ops t.socket f in
      record t { socket = m; pushed = logged r f t.pushed }
  act t receives =
      let (r, m) = recv_outbound ops t.socket in
      record t { socket = m; received = logged_got r t.received }
  act t reads =
      let (r, m) = poll_next ops t.socket in record t { socket = m; read = logged_item r t.read }
  act t drops = record t { socket = drop_socket ops t.socket }

  abbrev pub act_all : Traffic Q → List Move → Traffic Q
  act_all t [] = t
  act_all t (move ∷ moves) = act_all (act t move) moves

  abbrev pub silence : Traffic Q
  silence = record {
    socket = channel_pair ops;
    written = [];
    received = [];
    pushed = [];
    read = [];
  }

  -- Each side gets the frames of the other, in order and each once, and what is left of them comes
  -- next. A reader that has them all waits, or ends once the socket was dropped, after which no
  -- frame can be pushed.
  abbrev pub IsInOrder : Traffic Q → Type 0
  IsInOrder t =
      ((left : List WsFrame) × (t.written ≡ t.received ++ left)
        × ((recv_outbound ops t.socket).0 ≡ next_or pending left))
      × ((left : List WsFrame) × (t.pushed ≡ t.read ++ left)
          × ((poll_next ops t.socket).0
              ≡ item_of ops (next_or (if t.socket.inbound_tx then pending else finished) left)))
      × ((f : WsFrame)
          → (send_inbound ops t.socket f).0
            ≡ (if t.socket.inbound_tx then ok tt else err socket_dropped))

  module _ (fifo : IsFifo ops) where
    -- A socket whose channels hold what is left.
    abbrev IsKept : Traffic Q → Type 0
    IsKept t =
        Holds ops fifo true t.written t.received t.socket.outbound
        × Holds ops fifo t.socket.inbound_tx t.pushed t.read t.socket.inbound

    item-logged :
        (r : Polled WsFrame) (log : List WsFrame)
        → logged_item (item_of ops r) log ≡ logged_got r log
    item-logged r log = ground arith

    pushed-IsKept :
        (b : Bool) (t : Traffic Q) (f : WsFrame)
        → t.socket.inbound_tx ≡ b
        → IsKept t
        → IsKept (act t (pushes f))
          × ((send_inbound ops t.socket f).0 ≡ (if b then ok tt else err socket_dropped))
    unfolding send_inbound
    pushed-IsKept true t f n (o, i) =
        let (q', e, i') =
          send-Holds ops fifo t.socket.inbound_tx t.pushed t.read t.socket.inbound f i in
        ground (arith, n, e, i', o)
    pushed-IsKept false t f n (o, i) = ground (arith, n, i, o)

    dropped-IsKept :
        (b : Bool) (t : Traffic Q) → t.socket.inbound_tx ≡ b → IsKept t → IsKept (act t drops)
    unfolding drop_socket
    dropped-IsKept true t n (o, i) = ground (arith, n, i, o, fifo.drop_senders_lem t.socket.inbound)
    dropped-IsKept false t n (o, i) = ground (arith, n, i, o)

    act-IsKept : (t : Traffic Q) (move : Move) → IsKept t → IsKept (act t move)
    unfolding start_send recv_outbound poll_next
    act-IsKept t (writes f) (o, i) =
        let (q', e, o') = send-Holds ops fifo true t.written t.received t.socket.outbound f o in
        rw e (o', i)
    act-IsKept t (pushes f) k = (pushed-IsKept t.socket.inbound_tx t f refl k).0
    act-IsKept t receives (o, i) =
        ((recv-Holds ops fifo true t.written t.received t.socket.outbound _ refl o).1, i)
    act-IsKept t reads (o, i) = (
      o,
      rw (item-logged (ops.poll_recv t.socket.inbound).0 t.read)
          (recv-Holds ops fifo t.socket.inbound_tx t.pushed t.read t.socket.inbound _ refl i).1,
    )
    act-IsKept t drops k = dropped-IsKept t.socket.inbound_tx t refl k

    act_all-IsKept : (t : Traffic Q) (moves : List Move) → IsKept t → IsKept (act_all t moves)
    act_all-IsKept t [] k = k
    act_all-IsKept t (move ∷ moves) k = act_all-IsKept (act t move) moves (act-IsKept t move k)

    silence-IsKept : IsKept silence
    unfolding channel_pair
    silence-IsKept = (
      (sym fifo.new_lem.0, fifo.new_lem.2, fifo.new_lem.1),
      (sym fifo.new_lem.0, fifo.new_lem.2, fifo.new_lem.1),
    )

    -- Over first-in-first-out channels, and whatever its two sides do, each side of a mock socket gets
    -- the frames of the other, in order and each once, and what is left of them comes next. When
    -- none is left the server's side waits, and the reader waits or, once the socket was dropped,
    -- ends; and a frame is refused from then on, and by then only.
    pub act_all-IsInOrder : (moves : List Move) → IsInOrder (act_all silence moves)
    unfolding recv_outbound poll_next
    act_all-IsInOrder moves =
        let t = act_all silence moves in
        let k = act_all-IsKept silence moves silence-IsKept in
        (
          (
            fifo.queued t.socket.outbound,
            k.0.0,
            (recv-Holds ops fifo true t.written t.received t.socket.outbound _ refl k.0).0,
          ),
          (
            fifo.queued t.socket.inbound,
            k.1.0,
            ap (item_of ops)
                (recv-Holds ops fifo t.socket.inbound_tx t.pushed t.read t.socket.inbound _ refl
                  k.1).0,
          ),
          λ f. (pushed-IsKept t.socket.inbound_tx t f refl k).1,
        )
