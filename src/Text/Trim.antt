-- ===== src/Text/Trim.antt =====
-- What `trim` leaves.
use shared_ws.Prelude.{ℕ, ◌≡◌, refl, List, [], ◌∷◌, arith}
use shared_ws.Text.{is_nil, trim_start, trim_end, trim, is_blank}

is_nil-trim_end : (cs : List ℕ) → is_nil (trim_end cs) ≡ is_blank cs
unfolding trim_end
is_nil-trim_end [] = refl
is_nil-trim_end (c ∷ cs) = ground (arith, is_nil-trim_end cs)

is_blank-trim_start : (cs : List ℕ) → is_blank (trim_start cs) ≡ is_blank cs
unfolding trim_start
is_blank-trim_start [] = refl
is_blank-trim_start (c ∷ cs) = ground (arith, is_blank-trim_start cs)

-- A text is empty once it is trimmed if it is blank.
pub is_nil-trim : (cs : List ℕ) → is_nil (trim cs) ≡ is_blank cs
unfolding trim
is_nil-trim cs = ground (arith, is_nil-trim_end (trim_start cs), is_blank-trim_start cs)
