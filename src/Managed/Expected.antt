-- ===== src/Managed/Expected.antt =====
-- src/ws/managed.rs: which errors are an expected end of a connection. Texts are code points.
use shared_ws.Prelude.{
  ℕ, ◌+◌, ◌≡◌, refl, ap₂, Bool, true, false, ◌&&◌, ◌||◌, List, [], ◌∷◌, leb, ◌==◌, arith,
  if◌then◌else◌,
}
use shared_ws.Text.{codes}

unfoldable pub to_lower : ℕ → ℕ
to_lower c = if leb 65 c && leb c 90 then c + 32 else c

unfoldable pub to_ascii_lowercase : List ℕ → List ℕ
to_ascii_lowercase [] = []
to_ascii_lowercase (c ∷ text) = to_lower c ∷ to_ascii_lowercase text

abbrev pub starts_with : List ℕ → List ℕ → Bool
starts_with [] text = true
starts_with (_ ∷ _) [] = false
starts_with (c ∷ prefix) (d ∷ text) = c == d && starts_with prefix text

-- `str::contains`, for a needle that is not empty
abbrev pub contains : List ℕ → List ℕ → Bool
contains needle [] = false
contains needle (c ∷ text) = starts_with needle (c ∷ text) || contains needle text

unfoldable pub is_expected_ws_disconnect : List ℕ → Bool
is_expected_ws_disconnect error =
    let normalized = to_ascii_lowercase error in
    contains (codes "close_notify") normalized
    || contains (codes "unexpected-eof") normalized
    || contains (codes "connection reset by peer") normalized
    || contains (codes "connection reset without closing handshake") normalized
    || contains (codes "connection closed") normalized
    || contains (codes "closed connection") normalized
    || contains (codes "broken pipe") normalized
    || contains (codes "trying to work with closed connection") normalized
    || contains (codes "already closed") normalized

to_lower_idem : (c : ℕ) → to_lower (to_lower c) ≡ to_lower c
unfolding to_lower
to_lower_idem c = ground arith

to_ascii_lowercase_idem :
    (text : List ℕ) → to_ascii_lowercase (to_ascii_lowercase text) ≡ to_ascii_lowercase text
unfolding to_ascii_lowercase
to_ascii_lowercase_idem [] = refl
to_ascii_lowercase_idem (c ∷ text) =
    ap₂ (λ d ds. d ∷ ds) (to_lower_idem c) (to_ascii_lowercase_idem text)

-- The case of ASCII letters does not matter.
is_expected_ws_disconnect-to_ascii_lowercase :
    (error : List ℕ)
    → is_expected_ws_disconnect (to_ascii_lowercase error) ≡ is_expected_ws_disconnect error
unfolding is_expected_ws_disconnect
is_expected_ws_disconnect-to_ascii_lowercase error = rw (to_ascii_lowercase_idem error) refl
