-- ===== src/Circular/Retain.antt =====
-- `retain` of circular_buffer.rs, a loop of swaps, against the plain filter.
use shared_ws.Prelude.{
  ℕ, suc, ◌+◌, ◌-◌, ◌≡◌, ap, Bool, true, false, List, [], ◌∷◌, ◌++◌, arith, length, length-append,
  get_elem?-append, set-append, take-append, append_assoc, append-nil, keep, Bool-cases,
  if◌then◌else◌, ltb, lt→ltb, inl, inr, take,
}
use shared_ws.Circular.{CircularBuffer, retain_round, retain_loop, retain}
use shared_ws.Circular.Deque.{swap}

module _ {ℓ} {A : Type ℓ} where
  -- An exchange of two places, written by what stands round them.
  pub swap-append :
      (pre : List A) (x : A) (mid : List A) (y : A) (post : List A)
      → swap (pre ++ (x ∷ (mid ++ y ∷ post))) (length pre) (length pre + suc (length mid))
        ≡ pre ++ (y ∷ (mid ++ x ∷ post))
  swap-append pre x mid y post = ground (
    arith,
    length-append pre (x ∷ mid),
    length-append pre (y ∷ mid),
    append_assoc pre (x ∷ mid) (y ∷ post),
    append_assoc pre (y ∷ mid) (y ∷ post),
    append_assoc pre (y ∷ mid) (x ∷ post),
    get_elem?-append pre x (mid ++ y ∷ post),
    get_elem?-append (pre ++ x ∷ mid) y post,
    set-append pre x y (mid ++ y ∷ post),
    set-append (pre ++ y ∷ mid) y x post,
  )

  -- One round at the boundary of what was kept, what was dropped and what is still to come: a
  -- dropped entry joins the dropped ones, a kept one changes places with the first of them.
  round_drop :
      (f : A → Bool) (kept junk : List A) (x : A) (rest : List A)
      → f x ≡ false
      → retain_round f (length kept + length junk) (kept ++ (junk ++ x ∷ rest)) (length junk)
        ≡ (kept ++ ((junk ++ x ∷ []) ++ rest), suc (length junk))
  unfolding retain_round
  round_drop f kept junk x rest h = ground (
    arith,
    length-append kept junk,
    append_assoc kept junk (x ∷ rest),
    append_assoc junk (x ∷ []) rest,
    get_elem?-append (kept ++ junk) x rest,
  )

  round_keep :
      (f : A → Bool) (kept : List A) (j : A) (junk : List A) (x : A) (rest : List A)
      → f x ≡ true
      → retain_round f
          (length kept + suc (length junk))
          (kept ++ (j ∷ (junk ++ x ∷ rest)))
          (suc (length junk))
        ≡ ((kept ++ x ∷ []) ++ ((junk ++ j ∷ []) ++ rest), suc (length junk))
  unfolding retain_round
  round_keep f kept j junk x rest h = ground (
    arith,
    length-append kept (j ∷ junk),
    append_assoc kept (j ∷ junk) (x ∷ rest),
    append_assoc junk (j ∷ []) rest,
    append_assoc kept (x ∷ []) ((junk ++ j ∷ []) ++ rest),
    get_elem?-append (kept ++ j ∷ junk) x rest,
    swap-append kept j junk x rest,
  )

  round_keep_first :
      (f : A → Bool) (kept : List A) (x : A) (rest : List A)
      → f x ≡ true
      → retain_round f (length kept) (kept ++ x ∷ rest) 0 ≡ ((kept ++ x ∷ []) ++ rest, 0)
  unfolding retain_round
  round_keep_first f kept x rest h =
      ground (arith, append_assoc kept (x ∷ []) rest, get_elem?-append kept x rest)

  -- What the loop has done from such a boundary on.
  abbrev Finishes : (A → Bool) → List A → List A → List A → Type ℓ
  Finishes f kept junk rest =
      (junk' : List A) × (retain_loop f (length rest) (length kept + length junk)
          (kept ++ (junk ++ rest)) (length junk)
        ≡ ((kept ++ keep f rest) ++ junk', length junk'))
      × (length (kept ++ keep f rest) + length junk' ≡ length kept + length junk + length rest)

  loop_Finishes : (f : A → Bool) (kept junk rest : List A) → Finishes f kept junk rest
  unfolding retain_loop
  loop_Finishes f kept junk [] =
      (junk, ground (arith, append-nil junk, append-nil kept), ground (arith, append-nil kept))
  loop_Finishes f kept [] (x ∷ rest) = elim (Bool-cases (f x)) [
    | inl h ↦
        let (j, e, n) = loop_Finishes f (kept ++ x ∷ []) [] rest in
        (
          j,
          ground (
            arith,
            round_keep_first f kept x rest h,
            length-append kept (x ∷ []),
            append_assoc kept (x ∷ []) (keep f rest),
            append-nil kept,
          ),
          ground (
            arith,
            length-append kept (x ∷ []),
            append_assoc kept (x ∷ []) (keep f rest),
            append-nil kept,
          ),
        )
    | inr h ↦
        let (j, e, n) = loop_Finishes f kept (x ∷ []) rest in
        (j, ground (arith, round_drop f kept [] x rest h), ground arith)
  ]
  loop_Finishes f kept (j ∷ junk) (x ∷ rest) = elim (Bool-cases (f x)) [
    | inl h ↦
        let (j', e, n) = loop_Finishes f (kept ++ x ∷ []) (junk ++ j ∷ []) rest in
        (
          j',
          ground (
            arith,
            round_keep f kept j junk x rest h,
            length-append junk (j ∷ []),
            length-append kept (x ∷ []),
            append_assoc kept (x ∷ []) (keep f rest),
            append-nil kept,
          ),
          ground (
            arith,
            length-append junk (j ∷ []),
            length-append kept (x ∷ []),
            append_assoc kept (x ∷ []) (keep f rest),
            append-nil kept,
          ),
        )
    | inr h ↦
        let (j', e, n) = loop_Finishes f kept ((j ∷ junk) ++ x ∷ []) rest in
        (
          j',
          ground (arith, round_drop f kept (j ∷ junk) x rest h, length-append junk (x ∷ [])),
          ground (arith, length-append junk (x ∷ [])),
        )
  ]

  cut_dropped :
      (n : ℕ) (xs dropped : List A)
      → length xs + length dropped ≡ n
      → (if ltb 0 (length dropped)
          then take (n - length dropped) (xs ++ dropped)
          else xs ++ dropped)
        ≡ xs
  cut_dropped n xs [] h = append-nil xs
  cut_dropped n xs (d ∷ ds) h =
      let e : n - suc (length ds) ≡ length xs = omega arith in
      rw (e, lt→ltb 0 (suc (length ds)) (omega arith)) (take-append xs (d ∷ ds))

  -- `retain` leaves exactly the entries that pass the test, in their order.
  pub retain-keep :
      (b : CircularBuffer A) (f : A → Bool) → retain b f ≡ record b { buffer = keep f b.buffer }
  unfolding retain
  retain-keep b f =
      let (j, e, n) = loop_Finishes f [] [] b.buffer in
      rw e (
        ap (λ (l : List A). record b { buffer = l })
          (cut_dropped (length b.buffer) (keep f b.buffer) j (omega arith)))
