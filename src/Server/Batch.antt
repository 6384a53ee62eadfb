-- ===== src/Server/Batch.antt =====
-- src/ws/server/types.rs: `WsServerFrameBatch`, an array of four optional frames and a length.
use shared_ws.Prelude.{
  ℕ, zero, suc, ◌+◌, Bool, Option, none, some, List, [], ◌∷◌, leb, ◌==◌, set, if◌then◌else◌,
}
use shared_ws.Types.Basic.{Result, ok, err}
use shared_ws.Frame.{WsFrame}

abbrev capacity : ℕ
capacity = 4

pub record WsServerFrameBatch : Type 0 where
  pub frames : List (Option WsFrame)
  pub len : ℕ

unfoldable pub empty_batch : WsServerFrameBatch
empty_batch = record { frames = none ∷ none ∷ none ∷ none ∷ []; len = 0 }

-- A full batch gives the frame back.
unfoldable pub push : WsServerFrameBatch → WsFrame → Result WsFrame WsServerFrameBatch
push b frame =
    if leb capacity b.len
    then err frame
    else ok (record b { frames = set b.frames b.len (some frame); len = b.len + 1 })

unfoldable pub is_empty : WsServerFrameBatch → Bool
is_empty b = b.len == 0

-- `self.frames[..len].iter_mut().filter_map(Option::take)`, run to its end: the frames, and the
-- array that they are taken from.
unfoldable pub taken : ℕ → List (Option WsFrame) → List WsFrame × List (Option WsFrame)
taken zero slots = ([], slots)
taken (suc n) [] = ([], [])
taken (suc n) (slot ∷ slots) =
    let (frames, left) = taken n slots in
    (elim slot [ none ↦ frames | some frame ↦ frame ∷ frames ], none ∷ left)

unfoldable pub drain : WsServerFrameBatch → List WsFrame × WsServerFrameBatch
drain b = let (frames, left) = taken b.len b.frames in (frames, record { frames = left; len = 0 })

-- The loop of `from_iter`, which stops at the first frame that does not fit.
unfoldable pub push_all : WsServerFrameBatch → List WsFrame → WsServerFrameBatch
push_all b [] = b
push_all b (frame ∷ rest) = elim (push b frame) [ ok b' ↦ push_all b' rest | err _ ↦ b ]

unfoldable pub from_iter : List WsFrame → WsServerFrameBatch
from_iter frames = push_all empty_batch frames
