-- ===== src/CommandLine/RoundTrip.antt =====
-- A command line written from settings is read back.
use native.Mathlib.Nat.{pow-suc}
use coverage_guided_fuzzer.Prelude.{
  ℕ, zero, suc, ◌+◌, ◌*◌, ◌-◌, ◌/◌, ◌%◌, ◌^◌, ◌<◌, ◌≡◌, refl, sym, ap, ◌∙◌, inl, inr, true, ◌&&◌,
  some, List, [], ◌∷◌, ◌++◌, ◌==◌, if◌then◌else◌, arith, Bool-cases,
}
use coverage_guided_fuzzer.Prelude.Int.{pos}
use coverage_guided_fuzzer.Prelude.Text.{codes, print_int, decimal_fuel}
use coverage_guided_fuzzer.CoverageMap.{same_bytes}
use coverage_guided_fuzzer.CommandLine.{
  is_num, all_digits, value_from, atoi, Options, defaults, Valued, jobs, inputs, seed, limit,
  valued, other, word, set, stopped, parse, has_placeholder, start, check_start, command_line,
}

all_digits-append : (xs ys : List ℕ) → all_digits (xs ++ ys) ≡ (all_digits xs && all_digits ys)
all_digits-append [] ys = refl
all_digits-append (x ∷ xs) ys = ground (arith, all_digits-append xs ys)

value_from-append :
    (n : ℕ) (xs ys : List ℕ) → value_from n (xs ++ ys) ≡ value_from (value_from n xs) ys
value_from-append n [] ys = refl
value_from-append n (x ∷ xs) ys = value_from-append (n * 10 + (x - b'0')) xs ys

decimal_digits : (fuel n : ℕ) → all_digits (decimal_fuel fuel n) ≡ true
unfolding decimal_fuel
decimal_digits zero n = refl
decimal_digits (suc fuel) n = elim (Bool-cases (n / 10 == 0)) [
  | inl e ↦ rw e (ground arith)
  | inr e ↦
      rw (e, all_digits-append (decimal_fuel fuel (n / 10)) ((b'0' + n % 10) ∷ []))
        (ground (arith, decimal_digits fuel (n / 10)))
]

-- The digits of a number that the fuel covers are worth the number.
decimal_value : (fuel n : ℕ) → n < 10 ^ fuel → value_from 0 (decimal_fuel fuel n) ≡ n
unfolding decimal_fuel
decimal_value zero n h = omega (arith, h)
decimal_value (suc fuel) n h = elim (Bool-cases (n / 10 == 0)) [
  | inl e ↦ rw e (ground (arith, e))
  | inr e ↦
      rw (e, value_from-append 0 (decimal_fuel fuel (n / 10)) ((b'0' + n % 10) ∷ []))
        (rw (decimal_value fuel (n / 10) (omega (arith, h, pow-suc 10 fuel))) (omega arith))
]

decimal_nonempty : (fuel n : ℕ) → (c : ℕ) × (cs : List ℕ) × (decimal_fuel (suc fuel) n ≡ c ∷ cs)
unfolding decimal_fuel
decimal_nonempty fuel n =
    snoc_cons (if n / 10 == 0 then [] else decimal_fuel fuel (n / 10)) (b'0' + n % 10)
  where
    snoc_cons : (xs : List ℕ) (x : ℕ) → (c : ℕ) × (cs : List ℕ) × (xs ++ x ∷ [] ≡ c ∷ cs)
    snoc_cons [] x = (x, [], refl)
    snoc_cons (a ∷ xs) x = (a, xs ++ x ∷ [], refl)

is_num-print_int : (n : ℕ) → is_num (some (print_int (pos n))) ≡ pos 1
unfolding is_num print_int
is_num-print_int n =
    let (c, cs, e) = decimal_nonempty 9 n in
    let digits : all_digits (c ∷ cs) ≡ true =
      ap (λ (xs : List ℕ). all_digits xs) (sym e) ∙ decimal_digits 10 n in
    rw (e, digits)

-- A number that an int holds is read back by `atoi`.
atoi-print_int : (n : ℕ) → n < 2 ^ 31 → atoi (print_int (pos n)) ≡ pos n
unfolding atoi print_int
atoi-print_int n h = rw (decimal_value 10 n (omega (arith, h))) (ground (arith, h, mod_small))
  where
    mod_small : n % 2 ^ 32 ≡ n
    mod_small = omega (arith, h)

abbrev pub option_word : (f : Valued) → List ℕ
option_word jobs = codes "-j"
option_word inputs = codes "-n"
option_word seed = codes "-s"
option_word limit = codes "-t"

word-option_word : (f : Valued) → word (option_word f) ≡ valued f
unfolding word same_bytes
word-option_word jobs = refl
word-option_word inputs = refl
word-option_word seed = refl
word-option_word limit = refl

parse_option :
    (o o1 : Options) (f : Valued) (b : List ℕ) (rest : List (List ℕ))
    → set f b o ≡ some o1
    → parse o (option_word f ∷ b ∷ rest) ≡ parse o1 rest
unfolding parse
parse_option o o1 f b rest e = rw (word-option_word f, e, parse)

set-jobs :
    (n : ℕ) (o : Options)
    → n < 2 ^ 31
    → set jobs (print_int (pos n)) o ≡ some (record o { num_jobs = pos n })
unfolding set
set-jobs n o h = rw (is_num-print_int n, atoi-print_int n h)

set-inputs :
    (n : ℕ) (o : Options)
    → n < 2 ^ 31
    → set inputs (print_int (pos n)) o ≡ some (record o { num_inputs = pos n })
unfolding set
set-inputs n o h = rw (is_num-print_int n, atoi-print_int n h)

set-limit :
    (n : ℕ) (o : Options)
    → n < 2 ^ 31
    → set limit (print_int (pos n)) o ≡ some (record o { timelimit = pos n })
unfolding set
set-limit n o h = rw (is_num-print_int n, atoi-print_int n h)

set-seed :
    (name : List ℕ) (o : Options) → set seed name o ≡ some (record o { seed_fname = some name })
unfolding set
set-seed name o = refl

parse_target :
    (o : Options) (a : List ℕ) (target : List (List ℕ))
    → word a ≡ other
    → parse o (a ∷ target) ≡ stopped o (a ∷ target)
unfolding parse
parse_target o a [] e = rw (e, parse)
parse_target o a (b ∷ target) e = rw (e, parse)

-- The arguments that give these settings.
abbrev pub render : ℕ → ℕ → ℕ → List ℕ → List (List ℕ) → List (List ℕ)
render j n t name target =
    option_word jobs
    ∷ print_int (pos j)
    ∷ option_word inputs
    ∷ print_int (pos n)
    ∷ option_word limit
    ∷ print_int (pos t)
    ∷ option_word seed
    ∷ name
    ∷ target

-- For three numbers that an int holds, a name of a seed file, and a target that starts with no option
-- and has the placeholder, `main` reads the arguments that are written from them as these settings, and
-- starts the fuzzer with them.
pub command_line-render :
    (j n t : ℕ) (name a : List ℕ) (target : List (List ℕ))
    → j < 2 ^ 31
    → n < 2 ^ 31
    → t < 2 ^ 31
    → word a ≡ other
    → has_placeholder (a ∷ target) ≡ true
    → command_line (render j n t name (a ∷ target))
      ≡ start name
          (record {
            num_jobs = pos j;
            num_inputs = pos n;
            timelimit = pos t;
            seed_fname = some name;
          })
          (a ∷ target)
unfolding check_start
command_line-render j n t name a target hj hn ht first held =
    ap check_start (
      parse_option defaults o1 jobs (print_int (pos j)) _ (set-jobs j defaults hj)
      ∙ parse_option o1 o2 inputs (print_int (pos n)) _ (set-inputs n o1 hn)
      ∙ parse_option o2 o3 limit (print_int (pos t)) _ (set-limit t o2 ht)
      ∙ parse_option o3 o4 seed name (a ∷ target) (set-seed name o3)
      ∙ parse_target o4 a target first)
    ∙ simp held
  where
    o1 : Options
    o1 = record defaults { num_jobs = pos j }

    o2 : Options
    o2 = record o1 { num_inputs = pos n }

    o3 : Options
    o3 = record o2 { timelimit = pos t }

    o4 : Options
    o4 = record o3 { seed_fname = some name }
