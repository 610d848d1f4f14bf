-- ===== src/Prelude/Bits/Digits.antt =====
-- The binary digits of a number one by one, and what `|` and `^` do to them.
use mathlib.Core.Path.{◌≡◌, refl, ◌∙◌}
use mathlib.Core.Logic.{◌⊎◌, inl, inr}
use Prim.Native.Nat.{ℕ, zero, suc, ◌+◌, ◌/◌, ◌%◌, ◌^◌, ◌<◌, max, bit_or, bit_xor}
use native.Mathlib.Nat.{pow-suc}
use native.Mathlib.Decide.{dec_lt}
use native.Mathlib.Omega.{arith}
use coverage_guided_fuzzer.Prelude.Bits.{xor-half, xor-parity, or-half, or-parity, eq_of_digits}

-- The digit of weight 2 ^ i.
unfoldable pub digit : ℕ → ℕ → ℕ
digit zero a = a % 2
digit (suc i) a = digit i (a / 2)

pub digit-lt : (i a : ℕ) → digit i a < 2
unfolding digit
digit-lt zero a = omega arith
digit-lt (suc i) a = digit-lt i (a / 2)

-- The or has a digit where one of the two numbers has it.
pub digit-or : (i a b : ℕ) → digit i (bit_or a b) ≡ max (digit i a) (digit i b)
unfolding digit
digit-or zero a b = or-parity a b
digit-or (suc i) a b = rw or-half (digit-or i (a / 2) (b / 2))

pub digit-xor : (i a b : ℕ) → digit i (bit_xor a b) ≡ (digit i a + digit i b) % 2
unfolding digit
digit-xor zero a b = omega (arith, xor-parity a b)
digit-xor (suc i) a b = rw xor-half (digit-xor i (a / 2) (b / 2))

pub digit-zero : (i : ℕ) → digit i 0 ≡ 0
unfolding digit
digit-zero zero = refl
digit-zero (suc i) = digit-zero i

-- Numbers below 2 ^ k with the same first k digits are equal.
pub digit_ext :
    (k a b : ℕ) → a < 2 ^ k → b < 2 ^ k → ((i : ℕ) → i < k → digit i a ≡ digit i b) → a ≡ b
unfolding digit
digit_ext zero a b p q h = omega arith
digit_ext (suc k) a b p q h =
    eq_of_digits a b
      (digit_ext k (a / 2) (b / 2) (omega (arith, pow-suc 2 k)) (omega (arith, pow-suc 2 k))
        (λ i lt. h (suc i) (omega arith)))
      (h 0 (omega arith))

-- Two words agree under `|`, or the second has a digit that the first lacks.
pub or_cases :
    (k b c : ℕ)
    → b < 2 ^ k
    → c < 2 ^ k
    → (bit_or b c ≡ b) ⊎ ((j : ℕ) × (j < k) × (digit j b ≡ 0) × (digit j c ≡ 1))
unfolding digit
or_cases zero b c p q =
    let b0 : b ≡ 0 = omega arith in let c0 : c ≡ 0 = omega arith in inl (rw (b0, c0))
or_cases (suc k) b c p q =
    go (or_cases k (b / 2) (c / 2) (omega (arith, pow-suc 2 k)) (omega (arith, pow-suc 2 k)))
      (dec_lt (b % 2) (c % 2))
  where
    go :
        (bit_or (b / 2) (c / 2) ≡ b / 2)
          ⊎ ((j : ℕ) × (j < k) × (digit j (b / 2) ≡ 0) × (digit j (c / 2) ≡ 1))
        → Dec (b % 2 < c % 2)
        → (bit_or b c ≡ b) ⊎ ((j : ℕ) × (j < suc k) × (digit j b ≡ 0) × (digit j c ≡ 1))
    go (inr (j, lt, e, e')) d = inr (suc j, omega arith, e, e')
    go (inl e) (yes lt) = inr (0, omega arith, omega arith, omega arith)
    go (inl e) (no le) =
        inl (eq_of_digits (bit_or b c) b (or-half b c ∙ e) (omega (arith, or-parity b c)))

pub two-pow-lt : (j k : ℕ) → j < k → 2 ^ j < 2 ^ k
two-pow-lt j zero h = absurd (omega arith)
two-pow-lt zero (suc zero) h = omega arith
two-pow-lt zero (suc (suc k)) h = omega (arith, pow-suc 2 (suc k), two-pow-lt zero (suc k))
two-pow-lt (suc j) (suc k) h = omega (arith, pow-suc 2 j, pow-suc 2 k, two-pow-lt j k)
