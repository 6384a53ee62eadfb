-- ===== src/Testing/Channel.antt =====
-- `tokio::sync::mpsc::unbounded_channel`, as src/testing.rs uses it: its operations, and what its
-- documentation says of them.
pub mod Held
use shared_ws.Prelude.{◌≡◌, Bool, true, false, Option, none, some, List, [], ◌∷◌, ◌++◌}

-- What a poll of the receiver answers: not yet, that no sender is left, or the next value.
pub data Polled (F : Type 0) : Type 0 where
  pending finished : Polled F
  got : F → Polled F

-- A channel with both its ends. A send fails when the receiver is gone.
pub record Channels (Q F : Type 0) : Type 0 where
  pub unbounded_channel : Q
  pub send : Q → F → Option Q
  pub poll_recv : Q → Polled F × Q
  pub drop_senders : Q → Q
  pub drop_receiver : Q → Q

-- Values come out in the order in which they went in, each once, also those that were sent before
-- the senders were dropped.
pub record IsFifo {Q F : Type 0} (ops : Channels Q F) : Type 0 where
  pub queued : Q → List F
  pub has_sender : Q → Bool
  pub has_receiver : Q → Bool
  pub new_lem :
      (queued ops.unbounded_channel ≡ [])
      × (has_sender ops.unbounded_channel ≡ true)
      × (has_receiver ops.unbounded_channel ≡ true)
  pub send-kept :
      (q : Q) (x : F)
      → has_receiver q ≡ true
      → (q' : Q) × (ops.send q x ≡ some q')
        × (queued q' ≡ queued q ++ x ∷ [])
        × (has_sender q' ≡ has_sender q)
        × (has_receiver q' ≡ true)
  pub send-refused : (q : Q) (x : F) → has_receiver q ≡ false → ops.send q x ≡ none
  pub recv-next :
      (q : Q) (x : F) (xs : List F)
      → queued q ≡ x ∷ xs
      → (q' : Q) × (ops.poll_recv q ≡ (got x, q'))
        × (queued q' ≡ xs)
        × (has_sender q' ≡ has_sender q)
        × (has_receiver q' ≡ has_receiver q)
  pub recv-waits : (q : Q) → queued q ≡ [] → has_sender q ≡ true → ops.poll_recv q ≡ (pending, q)
  pub recv-ends : (q : Q) → queued q ≡ [] → has_sender q ≡ false → ops.poll_recv q ≡ (finished, q)
  pub drop_senders_lem :
      (q : Q)
      → (queued (ops.drop_senders q) ≡ queued q)
        × (has_sender (ops.drop_senders q) ≡ false)
        × (has_receiver (ops.drop_senders q) ≡ has_receiver q)
  pub drop_receiver_lem :
      (q : Q)
      → (has_receiver (ops.drop_receiver q) ≡ false)
        × (has_sender (ops.drop_receiver q) ≡ has_sender q)
