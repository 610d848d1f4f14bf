-- ===== src/Input.antt =====
-- Inputs, of fuzzer/src/input.c. A NULL pointer is `none`; a string is the bytes before its NUL.
use coverage_guided_fuzzer.Prelude.{
  ℕ, ◌+◌, ◌%◌, ◌^◌, Bool, ◌&&◌, Option, none, some, List, length, if◌then◌else◌,
}

pub record Input : Type 0 where
  pub str : List ℕ
  pub len : ℕ
  pub state : ℕ

-- The answers of malloc and of strdup to one call of `make_input`.
pub record Grants : Type 0 where
  pub struct_granted : Bool
  pub copy_granted : Bool

abbrev pub plenty : Grants
plenty = record { struct_granted = Bool.true; copy_granted = Bool.true }

unfoldable pub make_input : Grants → Option (List ℕ) → Option Input
make_input g none = none
make_input g (some s) =
    if g.struct_granted && g.copy_granted
    then some (record { str = s; len = length s; state = 0 })
    else none

unfoldable pub input_len : Option Input → ℕ
input_len none = 0
input_len (some x) = x.len

unfoldable pub input_str : Option Input → Option (List ℕ)
input_str none = none
input_str (some x) = some x.str

unfoldable pub input_mutator_state : Option Input → ℕ
input_mutator_state none = 0
input_mutator_state (some x) = x.state

-- The old state, and the input after the call.
unfoldable pub input_set_state : Option Input → ℕ → ℕ × Option Input
input_set_state none state = (0, none)
input_set_state (some x) state = (x.state, some (record x { state = state }))

-- MUTATOR_STATE is a uint64_t, so the step wraps.
unfoldable pub input_state_step : Option Input → ℕ × Option Input
input_state_step none = (0, none)
input_state_step (some x) = (x.state, some (record x { state = (x.state + 1) % 2 ^ 64 }))
