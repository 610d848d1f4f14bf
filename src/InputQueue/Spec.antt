-- ===== src/InputQueue/Spec.antt =====
-- What the input queue promises: two round robins, of which the low one has every tenth turn.
use coverage_guided_fuzzer.Prelude.{ℕ, ◌+◌, ◌%◌, Bool, true, false, [], ◌∷◌, ◌++◌, ltb}
use coverage_guided_fuzzer.Memory.{Ptr, null}
use coverage_guided_fuzzer.InputQueue.Chain.{Cells}

pub record Rings : Type 0 where
  pub high : Cells
  pub low : Cells
  pub turn : ℕ

-- The answer for the two rings, if it is the high ring's turn or the low ring's.
unfoldable pub serve : Bool → Cells → Cells → Ptr × Cells × Cells
serve high_turn [] [] = (null, [], [])
serve high_turn [] ((b, j) ∷ ls) = (j, [], ls ++ (b, j) ∷ [])
serve high_turn ((a, i) ∷ hs) [] = (i, hs ++ (a, i) ∷ [], [])
serve true ((a, i) ∷ hs) ((b, j) ∷ ls) = (i, hs ++ (a, i) ∷ [], (b, j) ∷ ls)
serve false ((a, i) ∷ hs) ((b, j) ∷ ls) = (j, (a, i) ∷ hs, ls ++ (b, j) ∷ [])

-- A turn is used up only if there is an input to give.
unfoldable pub next_turn : ℕ → Cells → Cells → ℕ
next_turn turn [] [] = turn
next_turn turn hs ls = (turn + 1) % 10

unfoldable pub spec_dequeue : Rings → Ptr × Rings
unfolding serve next_turn
spec_dequeue s =
    let (i, hs, ls) = serve (ltb s.turn 9) s.high s.low in
    (i, record { high = hs; low = ls; turn = next_turn s.turn s.high s.low })
