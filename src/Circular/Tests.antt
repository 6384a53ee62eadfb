-- ===== src/Circular/Tests.antt =====
-- The circular buffer on small inputs.
use shared_ws.Prelude.{some, ◌==◌, ℕ, ◌≡◌, refl, List, [], ◌∷◌, ltb}
use shared_ws.Circular.{remove, CircularBuffer, new, retain, last, pop_back}
use shared_ws.Circular.History.{push_all, push_all-new}
use shared_ws.Circular.Retain.{retain-keep}
use shared_ws.Circular.Removal.{TakesOut, pop_back-TakesOut}

abbrev five : CircularBuffer ℕ
five = record { buffer = 3 ∷ 8 ∷ 5 ∷ 9 ∷ 1 ∷ []; capacity = 5 }

push_all-new_example :
    push_all {A = ℕ} (new 3) (1 ∷ 2 ∷ 3 ∷ 4 ∷ 5 ∷ [])
    ≡ record { buffer = 3 ∷ 4 ∷ 5 ∷ []; capacity = 3 }
push_all-new_example = push_all-new 3 (1 ∷ 2 ∷ 3 ∷ 4 ∷ 5 ∷ [])

retain-keep_example : retain five (ltb 4) ≡ record five { buffer = 8 ∷ 5 ∷ 9 ∷ [] }
retain-keep_example = retain-keep five (ltb 4)

pop_back-TakesOut_example : TakesOut five 8 (pop_back five 1)
pop_back-TakesOut_example = pop_back-TakesOut five 1 refl

-- The ring wraps after its second entry.
abbrev wrapped : List ℕ → List ℕ × List ℕ
wrapped (a ∷ b ∷ rest) = (a ∷ b ∷ [], rest)
wrapped short = (short, [])

last_two : last wrapped five 2 ≡ some (9 ∷ 1 ∷ [])
unfolding last
last_two = refl

removes_the_eight : remove ◌==◌ five 8 ≡ (some 8, record five { buffer = 3 ∷ 1 ∷ 5 ∷ 9 ∷ [] })
unfolding remove
removes_the_eight = refl
