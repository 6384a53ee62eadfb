-- ===== src/Server/Connection/Sends.antt =====
-- What a batch of frames writes.
use Prim.Native.String.{String}
use shared_ws.Prelude.{
  ◌≡◌, refl, sym, ap, subst, ◌∙◌, ◌⊎◌, inl, inr, none, some, List, [], ◌∷◌, ◌++◌, append-nil,
  append_assoc, take, Option-cases,
}
use shared_ws.Types.Basic.{WebSocketError}
use shared_ws.Frame.{WsFrame}
use shared_ws.Managed.Io.{Sink}
use shared_ws.Server.Batch.{push, drain, taken, push_all, empty_batch, from_iter}
use shared_ws.Server.Connection.{
  Connection, Going, transport_error, send_batch, ws_send, send_frames, apply_action,
}

-- The socket, once it has been given `written`, takes each of `frames` in turn.
abbrev pub Accepts : Sink → List WsFrame → List WsFrame → Type 0
Accepts sink written [] = Unit
Accepts sink written (f ∷ frames) =
    (sink written f ≡ none) × Accepts sink (written ++ f ∷ []) frames

-- All of `frames` are taken and the connection goes on, or the ones up to the first that the socket
-- refuses are written, which ends the connection.
abbrev pub WritesInOrder :
    {St A C : Type 0}
    → (WebSocketError → String)
    → Connection St A C
    → List WsFrame
    → Going St A C
    → Type 0
WritesInOrder display c frames g =
    (Accepts c.writer.sink c.writer.written frames
      × (g.0 ≡ none)
      × (g.1.writer.written ≡ c.writer.written ++ frames))
    ⊎ ((sent : List WsFrame) × (refused : WsFrame) × (rest : List WsFrame) × (e : WebSocketError)
        × (frames ≡ sent ++ refused ∷ rest)
        × Accepts c.writer.sink c.writer.written sent
        × (c.writer.sink (c.writer.written ++ sent) refused ≡ some e)
        × (g.0 ≡ some (transport_error (display e)))
        × (g.1.writer.written ≡ c.writer.written ++ sent ++ refused ∷ []))

-- A batch holds the first four frames.
drain-from_iter : (fs : List WsFrame) → (drain (from_iter fs)).0 ≡ take 4 fs
unfolding drain from_iter push_all push taken empty_batch
drain-from_iter [] = refl
drain-from_iter (a ∷ []) = refl
drain-from_iter (a ∷ b ∷ []) = refl
drain-from_iter (a ∷ b ∷ c ∷ []) = refl
drain-from_iter (a ∷ b ∷ c ∷ d ∷ []) = refl
drain-from_iter (a ∷ b ∷ c ∷ d ∷ e ∷ fs) = refl

module _ {St A C : Type 0} (display : WebSocketError → String) where
  WritesInOrder-cons :
      (c : Connection St A C) (f : WsFrame) (fs : List WsFrame) (g : Going St A C)
      → c.writer.sink c.writer.written f ≡ none
      → WritesInOrder display (ws_send c f).1 fs g
      → WritesInOrder display c (f ∷ fs) g
  unfolding ws_send
  WritesInOrder-cons c f fs g n (inl (a, o, w)) =
      inl ((n, a), o, w ∙ append_assoc c.writer.written (f ∷ []) fs)
  WritesInOrder-cons c f fs g n (inr (sent, refused, rest, e, i, a, s, o, w)) =
      let assoc = append_assoc c.writer.written (f ∷ []) sent in
      inr (f ∷ sent, refused, rest, e, ap (◌∷◌ f) i, (n, a), rw (← assoc) s, o, rw (← assoc) w)

  send_frames-cons :
      (c : Connection St A C) (f : WsFrame) (fs : List WsFrame)
      → c.writer.sink c.writer.written f ≡ none
      → send_frames display c (f ∷ fs) ≡ send_frames display (ws_send c f).1 fs
  unfolding send_frames ws_send
  send_frames-cons c f fs n = rw (n, send_frames) refl

  send_frames-WritesInOrder :
      (c : Connection St A C) (fs : List WsFrame)
      → WritesInOrder display c fs (send_frames display c fs)
  unfolding send_frames ws_send
  send_frames-WritesInOrder c [] = inl (tt, refl, sym (append-nil c.writer.written))
  send_frames-WritesInOrder c (f ∷ fs) = elim (Option-cases (c.writer.sink c.writer.written f)) [
    | inl n ↦ subst (WritesInOrder display c (f ∷ fs)) (sym (send_frames-cons c f fs n)) (
        WritesInOrder-cons c f fs (send_frames display (ws_send c f).1 fs) n
          (send_frames-WritesInOrder (ws_send c f).1 fs))
    | inr (e, s) ↦ inr (
      [],
      f,
      fs,
      e,
      refl,
      tt,
      rw (append-nil c.writer.written) s,
      rw (s, send_frames) refl,
      rw (s, send_frames, append-nil c.writer.written) refl,
    )
  ]

  -- A handler that answers with a batch collected from some frames has the first four of them
  -- written, in order, and no other frame, and the connection goes on, when the socket takes each;
  -- else the frames are written up to the first that the socket refuses, none after it, and the
  -- connection ends with the socket's error.
  pub send_batch-WritesInOrder :
      (c : Connection St A C) (fs : List WsFrame)
      → WritesInOrder display c (take 4 fs) (apply_action display c (send_batch (from_iter fs)))
  unfolding apply_action
  send_batch-WritesInOrder c fs = rw (drain-from_iter fs) (send_frames-WritesInOrder c (take 4 fs))
