-- ===== src/Testing/Mock/Arrivals.antt =====
-- How the connections of a reconnectable mock transport reach its server.
use shared_ws.Prelude.{
  length-append_one, ℕ, zero, suc, ◌+◌, ◌%◌, ◌≡◌, refl, sym, subst, true, false, List, [], ◌∷◌,
  ◌++◌, arith, length,
}
use shared_ws.Frame.{WsFrame}
use shared_ws.Testing.Channel.{pending, Channels, IsFifo}
use shared_ws.Testing.Channel.Held.{logged_got, next_or, Holds, send-Holds, recv-Holds}
use shared_ws.Testing.Mock.{
  channel_pair, Reconnectable, reconnectable_pair, reconnect, accept_connection,
}

pub data Call : Type 0 where
  reconnects accepts : Call

-- The ids and the places of so many connections: 1, 2, and so on, as 64 bits hold them.
abbrev pub numbered : ℕ → List (ℕ × ℕ)
numbered zero = []
numbered (suc n) = numbered n ++ (suc n % 18446744073709551616, n) ∷ []

next_id :
    (seq n : ℕ)
    → seq ≡ n % 18446744073709551616
    → (seq + 1) % 18446744073709551616 ≡ suc n % 18446744073709551616
next_id seq n e = omega (arith, e)

module _ {Q P : Type 0} (ops : Channels Q WsFrame) (conns : Channels P (ℕ × ℕ)) where
  -- The transport and its server, with the connections that the server accepted.
  abbrev pub call : Reconnectable Q P × List (ℕ × ℕ) → Call → Reconnectable Q P × List (ℕ × ℕ)
  call (r, accepted) reconnects = ((reconnect ops conns r).1, accepted)
  call (r, accepted) accepts =
      let (a, r') = accept_connection ops conns r in (r', logged_got a accepted)

  abbrev pub call_all :
      Reconnectable Q P × List (ℕ × ℕ) → List Call → Reconnectable Q P × List (ℕ × ℕ)
  call_all s [] = s
  call_all s (c ∷ cs) = call_all (call s c) cs

  module _ (fifo : IsFifo conns) where
    abbrev IsCounted : Reconnectable Q P × List (ℕ × ℕ) → Type 0
    IsCounted s =
        (s.0.conn_seq ≡ length s.0.sockets % 18446744073709551616)
        × Holds conns fifo true (numbered (length s.0.sockets)) s.1 s.0.arrivals

    call-IsCounted :
        (s : Reconnectable Q P × List (ℕ × ℕ)) (c : Call) → IsCounted s → IsCounted (call s c)
    unfolding reconnect accept_connection
    call-IsCounted (r, accepted) reconnects (n, k) =
        let count = length r.sockets in
        let x : ℕ × ℕ = ((r.conn_seq + 1) % 18446744073709551616, count) in
        let (p, e, h) = send-Holds conns fifo true (numbered count) accepted r.arrivals x k in
        rw (e, length-append_one r.sockets (record (channel_pair ops) { inbound_rx = false }))
          (
            next_id r.conn_seq count n,
            subst (λ id. Holds conns fifo true (numbered count ++ (id, count) ∷ []) accepted p)
                (next_id r.conn_seq count n) h,
          )
    call-IsCounted (r, accepted) accepts (n, k) =
        (n, (recv-Holds conns fifo true _ accepted r.arrivals _ refl k).1)

    call_all-IsCounted :
        (s : Reconnectable Q P × List (ℕ × ℕ)) (cs : List Call)
        → IsCounted s
        → IsCounted (call_all s cs)
    call_all-IsCounted s [] k = k
    call_all-IsCounted s (c ∷ cs) k = call_all-IsCounted (call s c) cs (call-IsCounted s c k)

    -- Over a first-in-first-out channel, and however connects and accepts follow each other, the
    -- server is handed the connections in the order in which they were made, each once and with the
    -- ids 1, 2, and so on, wrapped to 64 bits; an accept gives the next of those that wait, and waits
    -- when there is none.
    pub call_all-accept_connection :
        (cs : List Call)
        → (left : List (ℕ × ℕ)) × (numbered
              (length (call_all (reconnectable_pair ops conns, []) cs).0.sockets)
            ≡ (call_all (reconnectable_pair ops conns, []) cs).1 ++ left)
          × ((accept_connection ops conns (call_all (reconnectable_pair ops conns, []) cs).0).0
              ≡ next_or pending left)
    unfolding reconnectable_pair accept_connection
    call_all-accept_connection cs =
        let s = call_all (reconnectable_pair ops conns, []) cs in
        let k =
          call_all-IsCounted (reconnectable_pair ops conns, []) cs
            (refl, (sym fifo.new_lem.0, fifo.new_lem.2, fifo.new_lem.1)) in
        (
          fifo.queued s.0.arrivals,
          k.1.0,
          (recv-Holds conns fifo true _ s.1 s.0.arrivals _ refl k.1).0,
        )
