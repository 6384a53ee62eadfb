-- ===== src/Health/Truncate.antt =====
-- What `truncate_string` keeps of a text.
use shared_ws.Prelude.{
  ℕ, zero, suc, ◌≤◌, ◌<◌, ◌≡◌, refl, sym, ap, true, some, List, [], ◌∷◌, leb, take, take-length,
  get_elem?, length, arith, Bool-cases, inl, inr, min, ◌⊎◌,
}
use shared_ws.Frame.{Bytes}
use shared_ws.Frame.Utf8.{is_utf8}
use shared_ws.Frame.Utf8.Prefix.{is_start, is_utf8-take, is_utf8-four}
use shared_ws.Health.{is_char_boundary, boundary_before, truncate_string}

boundary_before-le : (s : Bytes) (n : ℕ) → boundary_before s n ≤ n
unfolding boundary_before
boundary_before-le s zero = omega arith
boundary_before-le s (suc n) = ground (arith, boundary_before-le s n)

boundary_before-is_char_boundary :
    (s : Bytes) (n : ℕ) → is_char_boundary s (boundary_before s n) ≡ true
unfolding boundary_before
boundary_before-is_char_boundary s zero = refl
boundary_before-is_char_boundary s (suc n) = ground (arith, boundary_before-is_char_boundary s n)

-- No boundary up to the bound is passed over.
le-boundary_before :
    (s : Bytes) (k n : ℕ) → is_char_boundary s k ≡ true → k ≤ n → k ≤ boundary_before s n
unfolding boundary_before
le-boundary_before s k zero b h = omega arith
le-boundary_before s k (suc n) b h = ground (arith, le-boundary_before s k n b)

get_elem?-lt :
    {A : Type 0} (xs : List A) (k : ℕ) → k < length xs → (x : A) × (get_elem? xs k ≡ some x)
get_elem?-lt [] k h = absurd (omega arith)
get_elem?-lt (x ∷ xs) zero h = (x, refl)
get_elem?-lt (x ∷ xs) (suc k) h = get_elem?-lt xs k (omega arith)

length-take : {A : Type 0} (k : ℕ) (xs : List A) → length (take k xs) ≡ min k (length xs)
length-take zero xs = omega arith
length-take (suc k) [] = omega arith
length-take (suc k) (x ∷ xs) = omega (arith, length-take k xs)

empty_is_utf8 : is_utf8 [] ≡ true
unfolding is_utf8
empty_is_utf8 = refl

is_utf8-boundary :
    (s : Bytes) (k : ℕ)
    → is_utf8 s ≡ true
    → is_char_boundary s k ≡ true
    → k < length s
    → is_utf8 (take k s) ≡ true
is_utf8-boundary s zero v b h = empty_is_utf8
is_utf8-boundary s (suc k) v b h =
    let (x, g) = get_elem?-lt s (suc k) h in is_utf8-take s (suc k) x v g (ground arith)

start-is_char_boundary :
    (s : Bytes) (k : ℕ) {b : ℕ}
    → get_elem? s k ≡ some b
    → is_start b ≡ true
    → is_char_boundary s k ≡ true
start-is_char_boundary s k g h = ground arith

-- The first three steps down meet a boundary.
boundary_near :
    (s : Bytes) (n : ℕ)
    → is_utf8 s ≡ true
    → suc (suc (suc n)) < length s
    → n ≤ boundary_before s (suc (suc (suc n)))
boundary_near s n v h =
    let (a, ga) = get_elem?-lt s n (omega arith) in
    let (b, gb) = get_elem?-lt s (suc n) (omega arith) in
    let (c, gc) = get_elem?-lt s (suc (suc n)) (omega arith) in
    let (d, gd) = get_elem?-lt s (suc (suc (suc n))) h in
    let four = is_utf8-four s n v ga gb gc gd in
    let near : (k : ℕ) (x : ℕ)
        → get_elem? s k ≡ some x
        → is_start x ≡ true
        → n ≤ k
        → k ≤ suc (suc (suc n))
        → n ≤ boundary_before s (suc (suc (suc n))) =
      λ k x g st lo hi.
        omega (
          arith,
          le-boundary_before s k (suc (suc (suc n))) (start-is_char_boundary s k g st) hi,
        ) in
    elim (Bool-cases (is_start a)) [
      | inl st ↦ near n a ga st (omega arith) (omega arith)
      | inr na ↦ elim (Bool-cases (is_start b)) [
        | inl st ↦ near (suc n) b gb st (omega arith) (omega arith)
        | inr nb ↦ elim (Bool-cases (is_start c)) [
          | inl st ↦ near (suc (suc n)) c gc st (omega arith) (omega arith)
          | inr nc ↦ near (suc (suc (suc n))) d gd (ground arith) (omega arith) (omega arith)
        ]
      ]
    ]

-- Short texts are kept, long ones cut.
truncate-short : (s : Bytes) → length s ≤ 1024 → truncate_string s ≡ s
unfolding truncate_string
truncate-short s h = ground arith

truncate-long : (s : Bytes) → 1024 < length s → truncate_string s ≡ take (boundary_before s 1024) s
unfolding truncate_string
truncate-long s h = ground arith

-- Of a text that is UTF-8 a prefix is kept that is UTF-8 too, of at most 1024 bytes: the whole text,
-- or, if it is longer than that, at least 1021 bytes of it.
pub truncate_string_lem :
    (s : Bytes)
    → is_utf8 s ≡ true
    → (is_utf8 (truncate_string s) ≡ true)
      × (truncate_string s ≡ take (length (truncate_string s)) s)
      × (length (truncate_string s) ≤ 1024)
      × ((truncate_string s ≡ s) ⊎ ((1024 < length s) × (1021 ≤ length (truncate_string s))))
truncate_string_lem s v = elim (Bool-cases (leb (length s) 1024)) [
  | inl short ↦
      rw (truncate-short s (ground arith)) (v, sym (take-length s), ground arith, inl refl)
  | inr long ↦
      let h : 1024 < length s = ground arith in
      let k = boundary_before s 1024 in
      let le = boundary_before-le s 1024 in
      let size : length (take k s) ≡ k = omega (arith, length-take k s) in
      rw (truncate-long s h) (
        is_utf8-boundary s k v (boundary_before-is_char_boundary s 1024) (omega arith),
        ap (λ n. take n s) (sym size),
        omega arith,
        inr (h, omega (arith, boundary_near s 1021 v h)),
      )
]
