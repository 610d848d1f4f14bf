-- ===== src/Tests/Mutations.antt =====
-- `mutate` on short strings, and on one that is too long.
use coverage_guided_fuzzer.Prelude.{
  ℕ, zero, suc, ◌≤◌, ◌≡◌, refl, none, some, arith, replicate, length, length-replicate,
}
use coverage_guided_fuzzer.Prelude.Text.{codes, IsText, c_string}
use coverage_guided_fuzzer.Input.{Input, plenty}
use coverage_guided_fuzzer.Mutator.{mutate, mutate_string, switch, apply, load_buffer}
use coverage_guided_fuzzer.Mutator.Buffer.{read_bytes, write_bytes}
use coverage_guided_fuzzer.Mutator.Positions.{position}
use coverage_guided_fuzzer.Mutator.PositionLaws.{sequence, position-sequence}
use coverage_guided_fuzzer.Mutator.Strategies.{strat2, copies}
use coverage_guided_fuzzer.Mutator.Total.{IsInput, stepped, mutate-total}
use coverage_guided_fuzzer.Mutator.Overflow.{mutate-overflow}

abbrev abc : Input
abc = record { str = codes "abc"; len = 3; state = 8 }

-- State 8 duplicates the input.
duplicated : mutate_string (codes "abc") 3 8 ≡ some (codes "abcabc")
unfolding mutate_string switch apply load_buffer strat2 copies read_bytes write_bytes c_string
duplicated = refl

abc-IsInput : IsInput abc
abc-IsInput = record { text = omega arith; counted = refl; state_fits = omega arith }

mutate-total_example :
    (y : Input) × (mutate plenty (some abc) ≡ some (some y, some (stepped abc)))
    × IsInput y
    × (length y.str ≤ 1024)
    × (y.state ≡ 0)
mutate-total_example = mutate-total abc abc-IsInput (omega arith)

abbrev long_seed : Input
long_seed = record { str = replicate 1025 b'a'; len = 1025; state = 2 }

replicate-IsText : (n : ℕ) → IsText (replicate n b'a')
replicate-IsText zero = tt
replicate-IsText (suc n) = (omega arith, omega arith, replicate-IsText n)

long_seed-IsInput : IsInput long_seed
long_seed-IsInput = record {
  text = replicate-IsText 1025;
  counted = omega (arith, length-replicate {A = ℕ} 1025 b'a');
  state_fits = omega arith;
}

mutate-overflow_example : mutate plenty (some long_seed) ≡ none
mutate-overflow_example =
    mutate-overflow plenty long_seed long_seed-IsInput
      (omega (arith, length-replicate {A = ℕ} 1025 b'a'))
      (omega (arith, length-replicate {A = ℕ} 1025 b'a')) refl

position-sequence_example : position 4 2 9 ≡ sequence 4 2 9
position-sequence_example = position-sequence 4 2 9 (omega arith)
