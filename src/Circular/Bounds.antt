-- ===== src/Circular/Bounds.antt =====
-- The size of a circular buffer never passes its capacity.
use shared_ws.Prelude.{◌≤◌, ◌≡◌, [], ◌∷◌, arith, length, length-append}
use shared_ws.Circular.{CircularBuffer, push}
use shared_ws.Circular.Deque.{behead}

module _ {ℓ} {A : Type ℓ} where
  abbrev pub IsBounded : CircularBuffer A → Type 0
  IsBounded b = length b.buffer ≤ b.capacity

  pub push-IsBounded : (b : CircularBuffer A) (x : A) → IsBounded b → IsBounded (push b x)
  unfolding push
  push-IsBounded b x h =
      ground (arith, length-append b.buffer (x ∷ []), length-append (behead b.buffer) (x ∷ []))

  pub capacity-push : (b : CircularBuffer A) (x : A) → (push b x).capacity ≡ b.capacity
  unfolding push
  capacity-push b x = ground arith
