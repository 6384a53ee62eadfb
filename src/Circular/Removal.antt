-- ===== src/Circular/Removal.antt =====
-- `pop_back` and `remove` of circular_buffer.rs: an entry is taken out by exchanging it with the
-- last one.
use mathlib.Core.List.{Perm, perm_middle}
use mathlib.Core.List.Perm
use mathlib.Core.Path.{subst₂}
use shared_ws.Prelude.{
  ℕ, zero, suc, ◌-◌, ◌<◌, ◌≤◌, ◌≡◌, ◌⊎◌, refl, ap, sym, Bool, true, false, Option, none, some, List,
  [], ◌∷◌, ◌++◌, arith, length, length-append, get_elem?, get_elem?-append, set-append,
  append_assoc, append-nil, last?, drop_last, Bool-cases, inl, inr,
}
use shared_ws.Circular.{CircularBuffer, pop_back, remove}
use shared_ws.Circular.Deque.{swap, position}
use shared_ws.Circular.Retain.{swap-append}

module _ {A : Type 0} where
  -- A position inside a list splits it there.
  split_at :
      (xs : List A) (i : ℕ) {x : A}
      → get_elem? xs i ≡ some x
      → (pre post : List A) × (xs ≡ pre ++ x ∷ post) × (length pre ≡ i)
  split_at [] i h = cc
  split_at (y ∷ xs) zero {x} h = ([], xs, ground arith, refl)
  split_at (y ∷ xs) (suc i) h =
      let (pre, post, e, n) = split_at xs i h in (y ∷ pre, post, ap (◌∷◌ y) e, ap suc n)

  last?-append : (xs : List A) (y : A) → last? (xs ++ y ∷ []) ≡ some y
  last?-append [] y = refl
  last?-append (x ∷ []) y = refl
  last?-append (x ∷ z ∷ xs) y = last?-append (z ∷ xs) y

  drop_last-append : (xs : List A) (y : A) → drop_last (xs ++ y ∷ []) ≡ xs
  drop_last-append [] y = refl
  drop_last-append (x ∷ []) y = refl
  drop_last-append (x ∷ z ∷ xs) y = ap (◌∷◌ x) (drop_last-append (z ∷ xs) y)

  snoc_cases : (xs : List A) → (xs ≡ []) ⊎ ((ys : List A) × (y : A) × (xs ≡ ys ++ y ∷ []))
  snoc_cases [] = inl refl
  snoc_cases (x ∷ xs) = elim (snoc_cases xs) [
    | inl e ↦ inr ([], x, ap (◌∷◌ x) e)
    | inr (ys, y, e) ↦ inr (x ∷ ys, y, ap (◌∷◌ x) e)
  ]

  -- The exchange of the entry at `i` with the last one, followed by a pop, on the contents.
  abbrev Removes : List A → ℕ → A → List A → Type 0
  Removes xs i x rest =
      (last? (swap xs i (length xs - 1)) ≡ some x)
      × (drop_last (swap xs i (length xs - 1)) ≡ rest)
      × Perm (x ∷ rest) xs

  swap_self :
      (pre : List A) (x : A)
      → swap (pre ++ x ∷ []) (length pre) (length (pre ++ x ∷ []) - 1) ≡ pre ++ x ∷ []
  swap_self pre x =
      ground (arith, length-append pre (x ∷ []), get_elem?-append pre x [], set-append pre x x [])

  last-Removes : (pre : List A) (x : A) → Removes (pre ++ x ∷ []) (length pre) x pre
  last-Removes pre x = (
    rw (swap_self pre x) (last?-append pre x),
    rw (swap_self pre x) (drop_last-append pre x),
    Perm.symm (rw (append-nil pre) at (perm_middle {a = x} pre [])),
  )

  swap_ends :
      (pre : List A) (x : A) (mid : List A) (y : A)
      → swap (pre ++ (x ∷ (mid ++ y ∷ []))) (length pre) (length (pre ++ (x ∷ (mid ++ y ∷ []))) - 1)
        ≡ (pre ++ y ∷ mid) ++ x ∷ []
  swap_ends pre x mid y = ground (
    arith,
    length-append pre (x ∷ (mid ++ y ∷ [])),
    length-append mid (y ∷ []),
    swap-append pre x mid y [],
    append_assoc pre (y ∷ mid) (x ∷ []),
  )

  inner-Removes :
      (pre : List A) (x : A) (mid : List A) (y : A)
      → Removes (pre ++ (x ∷ (mid ++ y ∷ []))) (length pre) x (pre ++ y ∷ mid)
  inner-Removes pre x mid y = (
    rw (swap_ends pre x mid y) (last?-append (pre ++ y ∷ mid) x),
    rw (swap_ends pre x mid y) (drop_last-append (pre ++ y ∷ mid) x),
    Perm.trans (Perm.cons x moved) (Perm.symm (perm_middle pre (mid ++ y ∷ []))),
  )
    where
      moved : Perm (pre ++ y ∷ mid) (pre ++ (mid ++ y ∷ []))
      moved =
          Perm.append (Perm.refl pre)
            (Perm.symm (rw (append-nil mid) at (perm_middle {a = y} mid [])))

  split-Removes :
      (pre : List A) (x : A) (post : List A)
      → (rest : List A) × Removes (pre ++ x ∷ post) (length pre) x rest
  split-Removes pre x post = elim (snoc_cases post) [
    | inl e ↦ (pre, rw e (last-Removes pre x))
    | inr (mid, y, e) ↦ (pre ++ y ∷ mid, rw e (inner-Removes pre x mid y))
  ]

  found-Removes :
      (xs : List A) (i : ℕ) {x : A}
      → get_elem? xs i ≡ some x
      → (rest : List A) × Removes xs i x rest
  found-Removes xs i {x} h =
      let (pre, post, e, n) = split_at xs i h in
      subst₂ (λ ys j. (rest : List A) × Removes ys j x rest) (sym e) n (split-Removes pre x post)

  lt_of_get_elem : (xs : List A) (i : ℕ) {x : A} → get_elem? xs i ≡ some x → i < length xs
  lt_of_get_elem [] i h = cc
  lt_of_get_elem (y ∷ xs) zero h = omega arith
  lt_of_get_elem (y ∷ xs) (suc i) h = omega (arith, lt_of_get_elem xs i h)

  -- What a call that takes out one entry `x` leaves: the others, each as often as before.
  abbrev pub TakesOut : CircularBuffer A → A → Option A × CircularBuffer A → Type 0
  TakesOut b x r =
      (rest : List A) × (r ≡ (some x, record b { buffer = rest })) × Perm (x ∷ rest) b.buffer

  -- `pop_back` at an index in range returns the entry there and takes out just that one.
  pub pop_back-TakesOut :
      (b : CircularBuffer A) (i : ℕ) {x : A}
      → get_elem? b.buffer i ≡ some x
      → TakesOut b x (pop_back b i)
  unfolding pop_back
  pop_back-TakesOut b i h =
      let (rest, e) = found-Removes b.buffer i h in
      (rest, ground (arith, lt_of_get_elem b.buffer i h, e.0, e.1), e.2)

  -- `pop_back` past the end returns nothing and changes nothing.
  pub pop_back_past_end :
      (b : CircularBuffer A) (i : ℕ) → length b.buffer ≤ i → pop_back b i ≡ (none, b)
  unfolding pop_back
  pop_back_past_end b i h = ground arith

  abbrev pub Misses : (A → Bool) → List A → Type 0
  Misses p [] = Unit
  Misses p (x ∷ xs) = (p x ≡ false) × Misses p xs

  position_cases :
      (p : A → Bool) (xs : List A)
      → ((position p xs ≡ none) × Misses p xs)
        ⊎ ((i : ℕ) × (x : A) × (position p xs ≡ some i) × (get_elem? xs i ≡ some x) × (p x ≡ true))
  position_cases p [] = inl (refl, tt)
  position_cases p (x ∷ xs) = elim (Bool-cases (p x)) [
    | inl h ↦ inr (0, x, ground arith, refl, h)
    | inr h ↦ elim (position_cases p xs) [
      | inl (e, m) ↦ inl (ground arith, (h, m))
      | inr (i, y, e, g, t) ↦ inr (suc i, y, ground arith, g, t)
    ]
  ]

  -- `remove` takes out one entry equal to the item and returns it, or finds no entry equal to it
  -- and changes nothing.
  pub remove-TakesOut :
      (eq : A → A → Bool) (b : CircularBuffer A) (item : A)
      → (Misses (λ x. eq x item) b.buffer × (remove eq b item ≡ (none, b)))
        ⊎ ((x : A) × (eq x item ≡ true) × TakesOut b x (remove eq b item))
  unfolding remove
  remove-TakesOut eq b item = elim (position_cases (λ x. eq x item) b.buffer) [
    | inl (e, m) ↦ inl (m, rw (e, remove))
    | inr (i, x, e, g, t) ↦ inr (x, t, rw (e, remove) (pop_back-TakesOut b i g))
  ]
