-- ===== src/Circular/History.antt =====
-- A circular buffer against the history of what was pushed into it.
use shared_ws.Prelude.{
  ℕ, zero, suc, ◌-◌, ◌≤◌, ◌≡◌, refl, List, [], ◌∷◌, ◌++◌, arith, length, drop, length-append,
  length-drop, append_assoc, append-nil,
}
use shared_ws.Circular.{CircularBuffer, new, push}
use shared_ws.Circular.Deque.{behead}

module _ {A : Type 0} where
  -- `buffer.push(x)` for each item in turn.
  abbrev pub push_all : CircularBuffer A → List A → CircularBuffer A
  push_all b [] = b
  push_all b (x ∷ xs) = push_all (push b x) xs

  -- The last `n` entries of a list.
  abbrev pub latest : ℕ → List A → List A
  latest n xs = drop (length xs - n) xs

  drop-append_le : (n : ℕ) (xs ys : List A) → n ≤ length xs → drop n (xs ++ ys) ≡ drop n xs ++ ys
  drop-append_le zero xs ys h = refl
  drop-append_le (suc n) [] ys h = absurd (omega arith)
  drop-append_le (suc n) (x ∷ xs) ys h = drop-append_le n xs ys (omega arith)

  behead-drop : (n : ℕ) (xs : List A) → behead (drop n xs) ≡ drop (suc n) xs
  behead-drop zero [] = refl
  behead-drop zero (x ∷ xs) = refl
  behead-drop (suc n) [] = refl
  behead-drop (suc n) (x ∷ xs) = behead-drop n xs

  drop-nil : (n : ℕ) → drop {A = A} n [] ≡ []
  drop-nil zero = refl
  drop-nil (suc n) = refl

  drop-length : (xs : List A) → drop (length xs) xs ≡ []
  drop-length [] = refl
  drop-length (x ∷ xs) = drop-length xs

  -- One push on the latest `cap` entries gives the latest `cap` entries.
  push-latest :
      (cap : ℕ) (history : List A) (x : A)
      → push (record { buffer = latest cap history; capacity = cap }) x
        ≡ record { buffer = latest cap (history ++ x ∷ []); capacity = cap }
  unfolding push
  push-latest zero history x = ground (arith, drop-length history, drop-length (history ++ x ∷ []))
  push-latest (suc c) history x = ground (
    arith,
    length-append history (x ∷ []),
    length-drop (length history - suc c) history,
    behead-drop (length history - suc c) history,
    drop-append_le (suc (length history - suc c)) history (x ∷ []),
    drop-append_le (length history - suc c) history (x ∷ []),
  )

  push_all-latest :
      (cap : ℕ) (history xs : List A)
      → push_all (record { buffer = latest cap history; capacity = cap }) xs
        ≡ record { buffer = latest cap (history ++ xs); capacity = cap }
  push_all-latest cap history [] = rw (append-nil history)
  push_all-latest cap history (x ∷ xs) = rw (
    push-latest cap history x,
    push_all-latest cap (history ++ x ∷ []) xs,
    append_assoc history (x ∷ []) xs,
  )

  -- Whatever is pushed into a new buffer, it holds exactly the latest `capacity` items, oldest
  -- first.
  pub push_all-new :
      (cap : ℕ) (xs : List A)
      → push_all (new cap) xs ≡ record { buffer = latest cap xs; capacity = cap }
  unfolding new
  push_all-new cap xs = rw (← drop-nil (0 - cap)) (push_all-latest cap [] xs)
