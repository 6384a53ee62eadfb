-- ===== src/Frame/Utf8/Prefix.antt =====
-- Where a well-formed byte sequence can be cut.
use shared_ws.Prelude.{
  ℕ, zero, suc, ◌≤◌, ◌≡◌, Bool, true, false, some, List, [], ◌∷◌, ◌||◌, leb, ltb, take, get_elem?,
  arith, Option-cases, Bool-cases, inl, inr,
}
use shared_ws.Frame.Utf8.{Expect, boundary, follow, scan, is_utf8}

-- A byte that does not continue a character.
abbrev pub is_start : ℕ → Bool
is_start b = ltb b 0x80 || leb 0xc0 b

abbrev IsPossible : Expect → Type 0
IsPossible e = (e.need ≤ 3) × (0x80 ≤ e.low) × (e.high ≤ 0xbf)

follow-IsPossible :
    (e : Expect) (b : ℕ) {e' : Expect}
    → IsPossible e
    → follow e.need e.low e.high b ≡ some e'
    → IsPossible e'
unfolding follow
follow-IsPossible e b h f = ground arith

-- A byte that starts a character is met only where none is expected to continue.
start_at_boundary :
    (e : Expect) (b : ℕ) (bs : List ℕ)
    → IsPossible e
    → is_start b ≡ true
    → scan e (b ∷ bs) ≡ true
    → e.need ≡ 0
unfolding scan
start_at_boundary e b bs h s v = ground arith

scan-take :
    (e : Expect) (bs : List ℕ) (k b : ℕ)
    → IsPossible e
    → scan e bs ≡ true
    → get_elem? bs k ≡ some b
    → is_start b ≡ true
    → scan e (take k bs) ≡ true
unfolding scan
scan-take e [] k b h v g s = cc
scan-take e (x ∷ bs) zero b h v g s =
    let n = start_at_boundary e x bs h (ground arith) v in ground arith
scan-take e (x ∷ bs) (suc k) b h v g s = elim (Option-cases (follow e.need e.low e.high x)) [
  | inl f ↦ ground arith
  | inr (e', f) ↦ ground (arith, scan-take e' bs k b (follow-IsPossible e x h f) (ground arith) g s)
]

-- A well-formed sequence that is cut before a byte that starts a character is well-formed.
pub is_utf8-take :
    (bs : List ℕ) (k b : ℕ)
    → is_utf8 bs ≡ true
    → get_elem? bs k ≡ some b
    → is_start b ≡ true
    → is_utf8 (take k bs) ≡ true
unfolding is_utf8
is_utf8-take bs k b v g s = scan-take boundary bs k b (omega arith, omega arith, omega arith) v g s

continued_need :
    (e : Expect) (x : ℕ) {e' : Expect}
    → follow e.need e.low e.high x ≡ some e'
    → is_start x ≡ false
    → suc e'.need ≡ e.need
unfolding follow
continued_need e x f n = ground arith

-- A byte that starts no character is one of those that are expected.
continues :
    (e : Expect) (x : ℕ) (bs : List ℕ)
    → IsPossible e
    → scan e (x ∷ bs) ≡ true
    → is_start x ≡ false
    → (e' : Expect) × IsPossible e' × (scan e' bs ≡ true) × (suc e'.need ≡ e.need)
unfolding scan
continues e x bs h v n = elim (Option-cases (follow e.need e.low e.high x)) [
  | inl f ↦ ground arith
  | inr (e', f) ↦ (e', follow-IsPossible e x h f, ground arith, continued_need e x f n)
]

four_from :
    (e : Expect) (a b c d : ℕ) (bs : List ℕ)
    → IsPossible e
    → scan e (a ∷ b ∷ c ∷ d ∷ bs) ≡ true
    → (is_start a || is_start b || is_start c || is_start d) ≡ true
four_from e a b c d bs h v = elim (Bool-cases (is_start a)) [
  | inl s ↦ ground arith
  | inr na ↦ elim (Bool-cases (is_start b)) [
    | inl s ↦ ground arith
    | inr nb ↦ elim (Bool-cases (is_start c)) [
      | inl s ↦ ground arith
      | inr nc ↦ elim (Bool-cases (is_start d)) [
        | inl s ↦ ground arith
        | inr nd ↦
            let (e1, h1, v1, n1) = continues e a (b ∷ c ∷ d ∷ bs) h v na in
            let (e2, h2, v2, n2) = continues e1 b (c ∷ d ∷ bs) h1 v1 nb in
            let (e3, h3, v3, n3) = continues e2 c (d ∷ bs) h2 v2 nc in
            let (e4, h4, v4, n4) = continues e3 d bs h3 v3 nd in absurd (omega (arith, h.0))
      ]
    ]
  ]
]

scan-four :
    (e : Expect) (bs : List ℕ) (k : ℕ) {a b c d : ℕ}
    → IsPossible e
    → scan e bs ≡ true
    → get_elem? bs k ≡ some a
    → get_elem? bs (suc k) ≡ some b
    → get_elem? bs (suc (suc k)) ≡ some c
    → get_elem? bs (suc (suc (suc k))) ≡ some d
    → (is_start a || is_start b || is_start c || is_start d) ≡ true
unfolding scan
scan-four e [] k h v ga gb gc gd = cc
scan-four e (x ∷ []) zero h v ga gb gc gd = cc
scan-four e (x ∷ y ∷ []) zero h v ga gb gc gd = cc
scan-four e (x ∷ y ∷ z ∷ []) zero h v ga gb gc gd = cc
scan-four e (x ∷ y ∷ z ∷ w ∷ bs) zero h v ga gb gc gd = ground (arith, four_from e x y z w bs h v)
scan-four e (x ∷ bs) (suc k) h v ga gb gc gd = elim (Option-cases (follow e.need e.low e.high x)) [
  | inl f ↦ ground arith
  | inr (e', f) ↦ scan-four e' bs k (follow-IsPossible e x h f) (ground arith) ga gb gc gd
]

-- Of any four bytes in a row of a well-formed sequence one starts a character.
pub is_utf8-four :
    (bs : List ℕ) (k : ℕ) {a b c d : ℕ}
    → is_utf8 bs ≡ true
    → get_elem? bs k ≡ some a
    → get_elem? bs (suc k) ≡ some b
    → get_elem? bs (suc (suc k)) ≡ some c
    → get_elem? bs (suc (suc (suc k))) ≡ some d
    → (is_start a || is_start b || is_start c || is_start d) ≡ true
unfolding is_utf8
is_utf8-four bs k v ga gb gc gd =
    scan-four boundary bs k (omega arith, omega arith, omega arith) v ga gb gc gd
