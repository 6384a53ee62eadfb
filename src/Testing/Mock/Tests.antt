-- ===== src/Testing/Mock/Tests.antt =====
-- The mock transports over a channel that is a list.
use shared_ws.Prelude.{
  ℕ, ◌≡◌, ◌∙◌, ap, refl, Bool, true, false, none, some, List, [], ◌∷◌, ◌++◌, length, if◌then◌else◌,
}
use shared_ws.Frame.{WsFrame}
use shared_ws.Testing.Channel.{Polled, pending, finished, got, Channels, IsFifo}
use shared_ws.Testing.Channel.Held.{next_or}
use shared_ws.Testing.Mock.{
  channel_pair, start_send, send_inbound, recv_outbound, poll_next, drop_socket, reconnect,
  Reconnectable, reconnectable_pair, accept_connection,
}
use shared_ws.Testing.Mock.Order.{
  Move, writes, pushes, receives, reads, drops, act_all, silence, IsInOrder, act_all-IsInOrder,
}
use shared_ws.Testing.Mock.Arrivals.{
  Call, reconnects, accepts, call_all, numbered, call_all-accept_connection,
}

record ListChannel (F : Type 0) : Type 0 where
  queue : List F
  sender : Bool
  receiver : Bool

abbrev polled : {F : Type 0} → ListChannel F → List F → Polled F × ListChannel F
polled q [] = (if q.sender then pending else finished, q)
polled q (x ∷ xs) = (got x, record q { queue = xs })

abbrev list_channel : (F : Type 0) → Channels (ListChannel F) F
list_channel F = record {
  unbounded_channel = record { queue = []; sender = true; receiver = true };
  send = λ q x. if q.receiver then some (record q { queue = q.queue ++ x ∷ [] }) else none;
  poll_recv = λ q. polled q q.queue;
  drop_senders = λ q. record q { sender = false };
  drop_receiver = λ q. record q { receiver = false };
}

list_channel-IsFifo : (F : Type 0) → IsFifo (list_channel F)
list_channel-IsFifo F = record {
  queued = λ q. q.queue;
  has_sender = λ q. q.sender;
  has_receiver = λ q. q.receiver;
  new_lem = (refl, refl, refl);
  send-kept = λ q x r. (record q { queue = q.queue ++ x ∷ [] }, rw r refl, refl, refl, r);
  send-refused = λ q x r. rw r refl;
  recv-next = λ q x xs e. (record q { queue = xs }, ap (polled q) e, refl, refl, refl);
  recv-waits = λ q e s. ap (polled q) e ∙ ap (λ b. (if b then pending else finished, q)) s;
  recv-ends = λ q e s. ap (polled q) e ∙ ap (λ b. (if b then pending else finished, q)) s;
  drop_senders_lem = λ q. (refl, refl, refl);
  drop_receiver_lem = λ q. (refl, refl);
}

abbrev frames : Channels (ListChannel WsFrame) WsFrame
frames = list_channel WsFrame

abbrev connections : Channels (ListChannel (ℕ × ℕ)) (ℕ × ℕ)
connections = list_channel (ℕ × ℕ)

abbrev moves : List Move
moves =
    writes (WsFrame.ping [])
    ∷ pushes (WsFrame.pong [])
    ∷ writes (WsFrame.text (65 ∷ []))
    ∷ receives
    ∷ drops
    ∷ pushes (WsFrame.ping [])
    ∷ reads
    ∷ []

act_all-IsInOrder_example : IsInOrder frames (act_all frames (silence frames) moves)
act_all-IsInOrder_example = act_all-IsInOrder frames (list_channel-IsFifo WsFrame) moves

-- The frame that was pushed after the drop is not read.
one_is_read : (act_all frames (silence frames) moves).read ≡ WsFrame.pong [] ∷ []
unfolding channel_pair start_send send_inbound recv_outbound poll_next drop_socket
one_is_read = refl

abbrev calls : List Call
calls = reconnects ∷ reconnects ∷ accepts ∷ reconnects ∷ []

abbrev called : Reconnectable (ListChannel WsFrame) (ListChannel (ℕ × ℕ)) × List (ℕ × ℕ)
called = call_all frames connections (reconnectable_pair frames connections, []) calls

call_all-accept_connection_example :
    (left : List (ℕ × ℕ)) × (numbered (length called.0.sockets) ≡ called.1 ++ left)
    × ((accept_connection frames connections called.0).0 ≡ next_or pending left)
call_all-accept_connection_example =
    call_all-accept_connection frames connections (list_channel-IsFifo (ℕ × ℕ)) calls

first_is_accepted : called.1 ≡ (1, 0) ∷ []
unfolding reconnectable_pair reconnect accept_connection
first_is_accepted = refl
