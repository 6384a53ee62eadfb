-- ===== src/Circular/Deque.antt =====
-- The methods of `VecDeque` that circular_buffer.rs calls, on the contents as a list, oldest entry
-- first.
use shared_ws.Prelude.{
  ℕ, suc, Bool, true, false, Option, none, some, List, [], ◌∷◌, ◌++◌, get_elem?, set,
}

module _ {ℓ} {A : Type ℓ} where
  abbrev pub front : List A → Option A
  front [] = none
  front (x ∷ xs) = some x

  -- What `pop_front` leaves.
  abbrev pub behead : List A → List A
  behead [] = []
  behead (x ∷ xs) = xs

  abbrev pub push_back : List A → A → List A
  push_back xs x = xs ++ x ∷ []

  -- Indices out of range, at which `swap` panics, leave the list as it is.
  abbrev pub swap : List A → ℕ → ℕ → List A
  swap xs i j = elim (get_elem? xs i) [
    | none ↦ xs
    | some x ↦ elim (get_elem? xs j) [ none ↦ xs | some y ↦ set (set xs i y) j x ]
  ]

  -- `iter().position(p)`
  abbrev pub position : (A → Bool) → List A → Option ℕ
  position p [] = none
  position p (x ∷ xs) =
      let rest = position p xs in
      elim (p x) [ true ↦ some 0 | false ↦ elim rest [ none ↦ none | some i ↦ some (suc i) ] ]
