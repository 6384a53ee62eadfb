-- ===== src/Testing/Search.antt =====
-- What the search for bytes finds.
use shared_ws.Prelude.{
  ℕ, zero, suc, ◌≡◌, ◌∙◌, refl, sym, ap, ◌⊎◌, inl, inr, ◌↔◌, Bool, true, false, ◌||◌, [], ◌∷◌, ◌++◌,
  leb, length, take, take-append, length-append, arith, Bool-cases, drop,
}
use shared_ws.Frame.{Bytes}
use shared_ws.Text.{same_text}
use shared_ws.Testing.{windows, any_is, memmem}

same_text-eq : (a b : Bytes) → same_text a b ≡ true → a ≡ b
same_text-eq [] [] h = refl
same_text-eq [] (y ∷ b) h = ground arith
same_text-eq (x ∷ a) [] h = ground arith
same_text-eq (x ∷ a) (y ∷ b) h = ground (arith, same_text-eq a b)

same_text_refl : (a : Bytes) → same_text a a ≡ true
same_text_refl [] = refl
same_text_refl (x ∷ a) = ground (arith, same_text_refl a)

-- `needle` stands somewhere in the bytes.
abbrev pub Contains : Bytes → Bytes → Type 0
Contains haystack needle =
    (before : Bytes) × (after : Bytes) × (haystack ≡ before ++ needle ++ after)

take-drop : (n : ℕ) (xs : Bytes) → take n xs ++ drop n xs ≡ xs
take-drop zero xs = refl
take-drop (suc n) [] = refl
take-drop (suc n) (x ∷ xs) = ap (◌∷◌ x) (take-drop n xs)

or_true : (a b : Bool) → a || b ≡ true → (a ≡ true) ⊎ (b ≡ true)
or_true true b h = inl refl
or_true false b h = inr h

any_is-Contains :
    (needle haystack : Bytes)
    → any_is needle (windows (length needle) haystack) ≡ true
    → Contains haystack needle
unfolding windows
any_is-Contains needle [] h = ground arith
any_is-Contains needle (b ∷ bytes) h =
    elim (Bool-cases (leb (length needle) (length (b ∷ bytes)))) [
      | inr e ↦ ground (arith, e)
      | inl e ↦
          elim (or_true (same_text (take (length needle) (b ∷ bytes)) needle)
            (any_is needle (windows (length needle) bytes)) (ground (arith, e))) [
              | inl s ↦
                  let here = same_text-eq (take (length needle) (b ∷ bytes)) needle s in
                  (
                    [],
                    drop (length needle) (b ∷ bytes),
                    sym (take-drop (length needle) (b ∷ bytes))
                        ∙ ap (λ z. z ++ drop (length needle) (b ∷ bytes)) here,
                  )
              | inr l ↦
                  let (before, after, e') = any_is-Contains needle bytes l in
                  (b ∷ before, after, ap (◌∷◌ b) e')
            ]
    ]

any_is-prefix :
    (x : ℕ) (needle after : Bytes)
    → any_is (x ∷ needle) (windows (length (x ∷ needle)) (x ∷ needle ++ after)) ≡ true
unfolding windows
any_is-prefix x needle after =
    ground (arith, length-append needle after, take-append needle after, same_text_refl needle)

any_is-append :
    (x : ℕ) (needle before after : Bytes)
    → any_is (x ∷ needle) (windows (length (x ∷ needle)) (before ++ x ∷ needle ++ after)) ≡ true
unfolding windows
any_is-append x needle [] after = any_is-prefix x needle after
any_is-append x needle (c ∷ before) after = ground (
  arith,
  length-append (before ++ x ∷ needle) after,
  length-append before (x ∷ needle),
  any_is-append x needle before after,
)

-- The windows find exactly what stands in the bytes.
pub memmem-Contains :
    (haystack needle : Bytes) → (memmem haystack needle ≡ true) ↔ Contains haystack needle
unfolding memmem
memmem-Contains haystack [] = (λ _. ([], haystack, refl), λ _. refl)
memmem-Contains haystack (x ∷ needle) = (
  λ h. any_is-Contains (x ∷ needle) haystack (ground arith),
  λ (before, after, e). rw e (
      ground (
        arith,
        length-append (before ++ x ∷ needle) after,
        length-append before (x ∷ needle),
        any_is-append x needle before after,
      )),
)
