-- ===== src/Frame/Utf8.antt =====
-- `std::str::from_utf8`, as far as whether it succeeds: the well-formed byte sequences of UTF-8.
pub mod Prefix
use shared_ws.Prelude.{
  ℕ, zero, suc, Bool, false, Option, none, some, List, [], ◌∷◌, ◌&&◌, leb, ltb, ◌==◌, if◌then◌else◌,
}

-- What must follow: `need` continuation bytes, the next of them from `low` to `high`.
pub record Expect : Type 0 where
  pub need : ℕ
  pub low : ℕ
  pub high : ℕ

abbrev pub boundary : Expect
boundary = record { need = 0; low = 0x80; high = 0xbf }

abbrev between : ℕ → ℕ → ℕ → Bool
between low high b = leb low b && leb b high

-- The first byte of a character.
pub lead : ℕ → Option Expect
lead b =
    if ltb b 0x80
    then some boundary
    else if between 0xc2 0xdf b
    then some (record boundary { need = 1 })
    else if b == 0xe0
    then some (record boundary { need = 2; low = 0xa0 })
    else if b == 0xed
    then some (record boundary { need = 2; high = 0x9f })
    else if between 0xe1 0xef b
    then some (record boundary { need = 2 })
    else if b == 0xf0
    then some (record boundary { need = 3; low = 0x90 })
    else if b == 0xf4
    then some (record boundary { need = 3; high = 0x8f })
    else if between 0xf1 0xf3 b
    then some (record boundary { need = 3 })
    else none

pub follow : ℕ → ℕ → ℕ → ℕ → Option Expect
unfolding lead
follow zero low high b = lead b
follow (suc need) low high b =
    if between low high b then some (record boundary { need = need }) else none

pub scan : Expect → List ℕ → Bool
unfolding follow
scan e [] = e.need == 0
scan e (b ∷ bs) = elim (follow e.need e.low e.high b) [ none ↦ false | some e' ↦ scan e' bs ]

unfoldable pub is_utf8 : List ℕ → Bool
unfolding scan
is_utf8 bytes = scan boundary bytes
