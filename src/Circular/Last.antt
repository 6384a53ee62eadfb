-- ===== src/Circular/Last.antt =====
-- `last` of circular_buffer.rs, whatever the two slices are in which the ring is stored.
use shared_ws.Prelude.{
  ℕ, zero, suc, ◌-◌, ◌≤◌, ◌<◌, ◌≡◌, refl, some, List, [], ◌∷◌, ◌++◌, arith, length, drop,
  append-nil,
}
use shared_ws.Circular.{CircularBuffer, last}
use shared_ws.Circular.History.{latest}

module _ {A : Type 0} where
  drop-append_ge :
      (n : ℕ) (xs ys : List A) → length xs ≤ n → drop n (xs ++ ys) ≡ drop (n - length xs) ys
  drop-append_ge n [] ys h = ground arith
  drop-append_ge zero (x ∷ xs) ys h = absurd (omega arith)
  drop-append_ge (suc n) (x ∷ xs) ys h = ground (arith, drop-append_ge n xs ys)

  eq-nil_of_length : (xs : List A) → length xs ≡ 0 → xs ≡ []
  eq-nil_of_length [] h = refl
  eq-nil_of_length (x ∷ xs) h = absurd (omega arith)

  -- What `last(n)` returns is the latest `n` entries in order, and `n` is from 1 to the size.
  pub last_sound :
      (as_slices : List A → List A × List A) (b : CircularBuffer A) (n : ℕ) {s : List A}
      → (as_slices b.buffer).0 ++ (as_slices b.buffer).1 ≡ b.buffer
      → last as_slices b n ≡ some s
      → (0 < n) × (n ≤ length b.buffer) × (s ≡ latest n b.buffer)
  unfolding last
  last_sound as_slices b n h e =
      let first = (as_slices b.buffer).0 in
      let second = (as_slices b.buffer).1 in
      ground (
        arith,
        eq-nil_of_length second,
        append-nil first,
        drop-append_ge (length b.buffer - n) first second,
      )
