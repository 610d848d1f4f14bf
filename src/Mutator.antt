-- ===== src/Mutator.antt =====
-- The mutation engine of fuzzer/src/mutator.c: the cycle of 37 mutations, and `mutate`.
pub mod Buffer
pub mod Positions
pub mod Strategies
pub mod BufferLaws
pub mod PositionLaws
pub mod Safety
pub mod Total
pub mod Overflow
use coverage_guided_fuzzer.Prelude.{
  ℕ, zero, suc, ◌+◌, ◌-◌, ◌/◌, ◌%◌, Option, none, some, List, [], ◌∷◌, ◌++◌, ◌==◌, if◌then◌else◌,
  get_elem?, length, take, replicate, ◌>>=◌,
}
use coverage_guided_fuzzer.Prelude.Int.{ℤ, to_int, add_one, half}
use coverage_guided_fuzzer.Prelude.Text.{codes, c_string}
use coverage_guided_fuzzer.Input.{
  Input, Grants, make_input, input_len, input_mutator_state, input_state_step,
}
use Positions.{max_inp_len}
use Strategies.{
  strat1, strat2, strat3, strat4, strat5, strat6, strat7, strat8, strat9, strat10, strat11,
}

-- A case of the switch: the strategy with its own arguments.
pub data Mutation : Type 0 where
  fill : Mutation
  duplicate : Mutation
  lengthen : ℕ → Mutation
  truncate : Mutation
  inject : List ℕ → Mutation
  inject_int : Mutation
  inject_substring : ℕ → Mutation
  inject_char : ℕ → Mutation
  flip_bits : ℕ → Mutation
  increment : Mutation
  decrement : Mutation

-- The cases 0 to 36 of the switch.
abbrev pub cycle : List Mutation
cycle =
    inject_substring 1
    ∷ inject (codes "0")
    ∷ lengthen 4
    ∷ inject (codes "1")
    ∷ inject_char b'/'
    ∷ lengthen 7
    ∷ flip_bits 1
    ∷ decrement
    ∷ duplicate
    ∷ lengthen 1
    ∷ inject (codes "-128")
    ∷ lengthen 8
    ∷ inject (codes "2147483647")
    ∷ flip_bits 4
    ∷ inject (codes "-1")
    ∷ lengthen 2
    ∷ inject (codes "32767")
    ∷ fill
    ∷ inject_substring 2
    ∷ inject_char b'.'
    ∷ lengthen 3
    ∷ inject (codes "%p")
    ∷ truncate
    ∷ inject_int
    ∷ inject (codes "127")
    ∷ inject_char b';'
    ∷ lengthen 5
    ∷ inject (codes "-32768")
    ∷ increment
    ∷ inject (codes "%s")
    ∷ inject_substring 8
    ∷ flip_bits 8
    ∷ inject (codes "-2147483648")
    ∷ inject_char b','
    ∷ lengthen 6
    ∷ inject_substring 4
    ∷ flip_bits 2
    ∷ []

abbrev pub unique_muts : ℕ
unique_muts = 37

abbrev forget_length : Option (List ℕ × ℕ) → Option (List ℕ)
forget_length r = r >>= λ (buf, n). some buf

-- What a case does to the buffer, for the length N, the state S, the cycle K and p = (K + 1) / 2.
-- `mutate` reads N no more after the switch.
unfoldable pub apply : Mutation → List ℕ → ℕ → ℕ → ℤ → ℤ → Option (List ℕ)
apply fill buf n s k p = forget_length (strat1 buf n k)
apply duplicate buf n s k p = forget_length (strat2 buf n k)
apply (lengthen l) buf n s k p = forget_length (strat3 buf n s l)
apply truncate buf n s k p = forget_length (strat4 buf n s)
apply (inject a) buf n s k p = strat5 buf n s p a
apply inject_int buf n s k p = strat6 buf n s p
apply (inject_substring l) buf n s k p = strat7 buf n s p l
apply (inject_char c) buf n s k p = strat8 buf n s p c
apply (flip_bits l) buf n s k p = strat9 buf n s p l
apply increment buf n s k p = strat10 buf n s p
apply decrement buf n s k p = strat11 buf n s p

-- The array `buf` after memset and `strncpy(buf, str, MAX_INP_LEN)`.
unfoldable pub load_buffer : List ℕ → List ℕ
load_buffer s = take max_inp_len s ++ replicate (max_inp_len + 1 - length (take max_inp_len s)) 0

-- The switch: a step past the last case would leave the buffer alone.
unfoldable pub switch : ℕ → List ℕ → ℕ → ℕ → ℤ → ℤ → Option (List ℕ)
switch step buf n s k p = elim (get_elem? cycle step) [
  | none ↦ some buf
  | some m ↦ apply m buf n s k p
]

abbrev pub cycle_index : ℕ → ℤ
cycle_index s = to_int (s / unique_muts + 1)

-- `mutate` past its test for the empty input.
unfoldable pub mutate_string : List ℕ → ℕ → ℕ → Option (List ℕ)
mutate_string str n s =
    let k = cycle_index s in
    switch (s % unique_muts) (load_buffer str) n s k (half (add_one k)) >>= c_string

-- `mutate`: the new input, and the given one, whose state has moved on.
unfoldable pub mutate : Grants → Option Input → Option (Option Input × Option Input)
mutate g none = some (make_input g (some []), none)
mutate g (some x) =
    let n = input_len (some x) in
    let s = input_mutator_state (some x) in
    let x' = (input_state_step (some x)).1 in
    if n == 0
    then some (make_input g (some []), x')
    else (mutate_string x.str n s >>= λ str. some (make_input g (some str), x'))
