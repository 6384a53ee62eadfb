-- ===== src/Testing/Channel/Held.antt =====
-- A channel between what went in and what came out.
use shared_ws.Prelude.{
  ◌≡◌, ◌∙◌, refl, sym, Bool, true, false, some, List, [], ◌∷◌, ◌++◌, append_assoc, if◌then◌else◌,
}
use shared_ws.Testing.Channel.{Polled, pending, finished, got, Channels, IsFifo}

abbrev pub logged_got : {F : Type 0} → Polled F → List F → List F
logged_got (got f) log = log ++ f ∷ []
logged_got _ log = log

-- The next value, or what there is for none.
abbrev pub next_or : {F : Type 0} → Polled F → List F → Polled F
next_or none_yet [] = none_yet
next_or none_yet (x ∷ xs) = got x

module _ {Q F : Type 0} (ops : Channels Q F) (fifo : IsFifo ops) where
  -- A channel that holds what is left of what went in, and may have its sender.
  abbrev pub Holds : Bool → List F → List F → Q → Type 0
  Holds b sent had q =
      (sent ≡ had ++ fifo.queued q) × (fifo.has_receiver q ≡ true) × (fifo.has_sender q ≡ b)

  pub send-Holds :
      (b : Bool) (sent had : List F) (q : Q) (f : F)
      → Holds b sent had q
      → (q' : Q) × (ops.send q f ≡ some q') × Holds b (sent ++ f ∷ []) had q'
  send-Holds b sent had q f (e, r, s) =
      let (q', o, k, s', r') = fifo.send-kept q f r in
      (q', o, (rw (e, k) (append_assoc had (fifo.queued q) (f ∷ [])), r', s' ∙ s))

  pub recv-Holds :
      (b : Bool) (sent had : List F) (q : Q) (queue : List F)
      → fifo.queued q ≡ queue
      → Holds b sent had q
      → ((ops.poll_recv q).0 ≡ next_or (if b then pending else finished) queue)
        × Holds b sent (logged_got (ops.poll_recv q).0 had) (ops.poll_recv q).1
  recv-Holds true sent had q [] n (e, r, s) = rw (fifo.recv-waits q n s) (refl, (e, r, s))
  recv-Holds false sent had q [] n (e, r, s) = rw (fifo.recv-ends q n s) (refl, (e, r, s))
  recv-Holds b sent had q (x ∷ xs) n (e, r, s) =
      let (q', o, k, s', r') = fifo.recv-next q x xs n in
      rw o (refl, (e ∙ rw (n, k) (sym (append_assoc had (x ∷ []) xs)), r' ∙ r, s' ∙ s))
