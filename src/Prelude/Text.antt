-- ===== src/Prelude/Text.antt =====
-- C strings: the bytes of a literal, the decimal digits of an `int`, and strings inside arrays.
use Prim.Native.Char.{code}
use Prim.Native.String.{String}
use coverage_guided_fuzzer.Prelude.{
  ℕ, zero, suc, ◌+◌, ◌/◌, ◌%◌, ◌≤◌, ◌<◌, ◌≡◌, refl, inl, inr, ◌==◌, if◌then◌else◌, Option, none,
  some, List, [], ◌∷◌, ◌++◌, ◌>>=◌, arith, Bool-cases, length, length-append, get_or, IsBytes,
  append-IsBytes, Returns, returns, Returns-bind,
}
use coverage_guided_fuzzer.Prelude.Int.{ℤ, pos, negsuc}

-- The bytes of an ASCII literal.
abbrev pub codes : String → List ℕ
codes String.[] = []
codes (String.◌∷◌ c s) = code c ∷ codes s

-- The decimal digits of a number below 10 ^ fuel.
unfoldable pub decimal_fuel : ℕ → ℕ → List ℕ
decimal_fuel zero n = []
decimal_fuel (suc fuel) n =
    let front = decimal_fuel fuel (n / 10) in
    (if n / 10 == 0 then [] else front) ++ (b'0' + n % 10) ∷ []

-- `%d` of an `int`: ten digits at most, and a sign.
unfoldable pub print_int : ℤ → List ℕ
unfolding decimal_fuel
print_int (pos n) = decimal_fuel 10 n
print_int (negsuc n) = b'-' ∷ decimal_fuel 10 (n + 1)

-- The string at the start of an array: the bytes before the first NUL. `none` if there is no NUL,
-- where strlen would run off the array.
unfoldable pub c_string : List ℕ → Option (List ℕ)
c_string [] = none
c_string (b ∷ bs) =
    let rest = c_string bs in if b == 0 then some [] else (rest >>= λ s. some (b ∷ s))

decimal_fuel-IsBytes : (fuel n : ℕ) → IsBytes (decimal_fuel fuel n)
unfolding decimal_fuel
decimal_fuel-IsBytes zero n = tt
decimal_fuel-IsBytes (suc fuel) n =
    append-IsBytes (if n / 10 == 0 then [] else decimal_fuel fuel (n / 10)) ((b'0' + n % 10) ∷ [])
      (elim (Bool-cases (n / 10 == 0)) [
        | inl e ↦ rw e tt
        | inr e ↦ rw e (decimal_fuel-IsBytes fuel (n / 10))
      ])
      (omega arith, tt)

length-decimal_fuel : (fuel n : ℕ) → length (decimal_fuel fuel n) ≤ fuel
unfolding decimal_fuel
length-decimal_fuel zero n = omega arith
length-decimal_fuel (suc fuel) n = elim (Bool-cases (n / 10 == 0)) [
  | inl e ↦ rw e (omega arith)
  | inr e ↦ rw e (
      omega (
        arith,
        length-append (decimal_fuel fuel (n / 10)) ((b'0' + n % 10) ∷ []),
        length-decimal_fuel fuel (n / 10),
      ))
]

pub print_int-IsBytes : (i : ℤ) → IsBytes (print_int i)
unfolding print_int
print_int-IsBytes (pos n) = decimal_fuel-IsBytes 10 n
print_int-IsBytes (negsuc n) = (omega arith, decimal_fuel-IsBytes 10 (n + 1))

-- The array of 32 bytes is long enough for it.
pub length-print_int : (i : ℤ) → length (print_int i) ≤ 11
unfolding print_int
length-print_int (pos n) = omega (arith, length-decimal_fuel 10 n)
length-print_int (negsuc n) = omega (arith, length-decimal_fuel 10 (n + 1))

-- A buffer with a NUL holds a string: it is shorter than the NUL's index, and has no NUL.
abbrev pub IsText : List ℕ → Type 0
IsText [] = Unit {0}
IsText (b ∷ bs) = (0 < b) × (b < 256) × IsText bs

pub c_string-IsText :
    (buf : List ℕ) (k : ℕ)
    → IsBytes buf
    → get_or buf k 1 ≡ 0
    → Returns (λ s. IsText s × (length s ≤ k)) (c_string buf)
unfolding c_string
c_string-IsText [] k v e = absurd (omega arith)
c_string-IsText (b ∷ bs) zero v e = rw e (returns (tt, omega arith))
c_string-IsText (b ∷ bs) (suc k) v e = elim (Bool-cases (b == 0)) [
  | inl z ↦ rw z (returns (tt, omega arith))
  | inr nz ↦ rw nz (
      Returns-bind (c_string-IsText bs k v.1 e)
        λ s (text, short). returns ((ground arith, v.0, text), omega arith))
]

-- A text followed by a NUL is read back whole.
pub c_string-append : (s rest : List ℕ) → IsText s → c_string (s ++ 0 ∷ rest) ≡ some s
unfolding c_string
c_string-append [] rest t = refl
c_string-append (b ∷ bs) rest t = ground (arith, c_string-append bs rest t.2)
