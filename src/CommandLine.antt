-- ===== src/CommandLine.antt =====
-- The command line, of fuzzer/src/main.c, and `is_num` of fuzzer/src/utils.c. The arguments are those
-- after argv[0], as strings.
pub mod Start
pub mod RoundTrip
use coverage_guided_fuzzer.Prelude.{
  ℕ, ◌+◌, ◌*◌, ◌-◌, Bool, true, false, ◌&&◌, ◌||◌, Option, none, some, List, [], ◌∷◌, leb, ◌==◌,
  if◌then◌else◌,
}
use coverage_guided_fuzzer.Prelude.Int.{ℤ, pos, negsuc, to_int}
use coverage_guided_fuzzer.Prelude.Text.{codes}
use coverage_guided_fuzzer.CoverageMap.{same_bytes}

-- `isdigit` of a byte.
abbrev pub is_digit : ℕ → Bool
is_digit c = leb b'0' c && leb c b'9'

abbrev pub all_digits : List ℕ → Bool
all_digits [] = true
all_digits (c ∷ cs) = is_digit c && all_digits cs

-- `is_num`
unfoldable pub is_num : Option (List ℕ) → ℤ
is_num none = pos 0
is_num (some []) = pos 0
is_num (some (c ∷ cs)) = if all_digits (c ∷ cs) then pos 1 else pos 0

abbrev pub value_from : ℕ → List ℕ → ℕ
value_from n [] = n
value_from n (c ∷ cs) = value_from (n * 10 + (c - b'0')) cs

-- `atoi` of a string of digits. Above INT_MAX, where C leaves the result open, it wraps.
unfoldable pub atoi : List ℕ → ℤ
atoi s = to_int (value_from 0 s)

pub record Options : Type 0 where
  pub num_jobs : ℤ
  pub num_inputs : ℤ
  pub timelimit : ℤ
  pub seed_fname : Option (List ℕ)

abbrev pub defaults : Options
defaults = record { num_jobs = pos 4; num_inputs = pos 32; timelimit = pos 5; seed_fname = none }

-- The options that take a value, and what an argument is.
pub data Valued : Type 0 where
  jobs inputs seed limit : Valued

pub data Word : Type 0 where
  help : Word
  valued : Valued → Word
  other : Word

unfoldable pub word : List ℕ → Word
word a =
    if same_bytes a (codes "-h")
    then help
    else if same_bytes a (codes "-j")
    then valued jobs
    else if same_bytes a (codes "-n")
    then valued inputs
    else if same_bytes a (codes "-s")
    then valued seed
    else if same_bytes a (codes "-t")
    then valued limit
    else other

abbrev is_true : ℤ → Bool
is_true (pos n) = if n == 0 then false else true
is_true (negsuc n) = true

-- The value `b` of an option; `none` is a usage error.
unfoldable pub set : Valued → List ℕ → Options → Option Options
set jobs b o = if is_true (is_num (some b)) then some (record o { num_jobs = atoi b }) else none
set inputs b o = if is_true (is_num (some b)) then some (record o { num_inputs = atoi b }) else none
set seed b o = some (record o { seed_fname = some b })
set limit b o = if is_true (is_num (some b)) then some (record o { timelimit = atoi b }) else none

pub data Parsed : Type 0 where
  help_asked : Parsed
  bad_usage : Parsed
  stopped : Options → List (List ℕ) → Parsed

-- The loop over the options.
unfoldable pub parse : Options → List (List ℕ) → Parsed
parse o [] = stopped o []
parse o (a ∷ []) = elim (word a) [
  | help ↦ help_asked
  | valued f ↦ bad_usage
  | other ↦ stopped o (a ∷ [])
]
parse o (a ∷ b ∷ rest) = elim (word a) [
  | help ↦ help_asked
  | valued f ↦ elim (set f b o) [ none ↦ bad_usage | some o' ↦ parse o' rest ]
  | other ↦ stopped o (a ∷ b ∷ rest)
]

-- found_placeholder
abbrev pub has_placeholder : List (List ℕ) → Bool
has_placeholder [] = false
has_placeholder (a ∷ as') = same_bytes a (codes "@@") || has_placeholder as'

pub data Outcome : Type 0 where
  print_help : Outcome
  usage_error : Outcome
  start : List ℕ → Options → List (List ℕ) → Outcome

-- The checks after the loop.
unfoldable pub check_start : Parsed → Outcome
check_start help_asked = print_help
check_start bad_usage = usage_error
check_start (stopped o []) = usage_error
check_start (stopped o (a ∷ target)) = elim o.seed_fname [
  | none ↦ usage_error
  | some name ↦ if has_placeholder (a ∷ target) then start name o (a ∷ target) else usage_error
]

-- `main` up to its call of run_fuzzer.
abbrev pub command_line : List (List ℕ) → Outcome
command_line args = check_start (parse defaults args)

-- The exit status of `main`: whether the seed file opens, and what run_fuzzer returns.
unfoldable pub main : List (List ℕ) → (List ℕ → Bool) → (Options → List (List ℕ) → ℤ) → ℕ
main args opens run_fuzzer = elim (command_line args) [
  | print_help ↦ 0
  | usage_error ↦ 1
  | start name o target ↦ if opens name then (if is_true (run_fuzzer o target) then 1 else 0) else 1
]
