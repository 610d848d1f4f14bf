-- ===== src/Prelude/Bits.antt =====
-- Laws of the exclusive or and the inclusive or at every width, from the recursion on binary digits.
pub mod Digits
use Prim.Native.Nat.{
  ℕ, zero, suc, ◌+◌, ◌*◌, ◌/◌, ◌%◌, ◌^◌, ◌≤◌, ◌<◌, max, bit_or, bit_xor, digits, bitwise,
  bit_or-bitwise, bit_xor-bitwise, differ,
}
use mathlib.Core.Path.{◌≡◌, refl, sym, ◌∙◌}
use native.Mathlib.Decide.{ℕ_discrete}
use native.Mathlib.Nat.{le_refl, pow-suc, div-div-eq-div-mul}
use native.Mathlib.Omega.{arith}

-- Spare fuel changes nothing: neither one round of it nor any number of rounds.
module _ (on_digits : ℕ → ℕ → ℕ) where
  abbrev walk : ℕ → ℕ → ℕ → ℕ
  walk = digits (λ rest. rest) on_digits

  spare_round : (fuel a b : ℕ) → a ≤ fuel → walk (suc fuel) a b ≡ walk fuel a b
  spare_round fuel zero b h = elim fuel as (λ f. walk (suc f) 0 b ≡ walk f 0 b) [
    | zero ↦ refl
    | suc f ↦ refl
  ]
  spare_round zero (suc a) b h = absurd (omega arith)
  spare_round (suc fuel) (suc a) b h =
      omega (arith, spare_round fuel (suc a / 2) (b / 2) (omega arith))

  spare_rounds : (more fuel a b : ℕ) → a ≤ fuel → fuel ≤ more → walk more a b ≡ walk fuel a b
  spare_rounds zero fuel a b h k = let e : fuel ≡ 0 = omega arith in rw e
  spare_rounds (suc more) fuel a b h k = elim (ℕ_discrete fuel (suc more)) [
    | yes e ↦ rw e
    | no ne ↦ spare_round more a b (omega arith) ∙ spare_rounds more fuel a b h (omega arith)
  ]

  lowest_digit :
      (a b : ℕ)
      → walk (suc a) (suc a) b
        ≡ walk (suc a / 2) (suc a / 2) (b / 2) * 2 + on_digits (suc a % 2) (b % 2)
  lowest_digit a b =
      omega
        (arith, spare_rounds a (suc a / 2) (suc a / 2) (b / 2) (le_refl (suc a / 2)) (omega arith))

-- One equation for each operation, with the lowest digit apart.
bit_xor_step : (a b : ℕ) → bit_xor a b ≡ bit_xor (a / 2) (b / 2) * 2 + differ (a % 2) (b % 2)
bit_xor_step zero b = omega (arith, bit_xor-bitwise 0 b, bit_xor-bitwise 0 (b / 2))
bit_xor_step (suc a) b =
    rw (bit_xor-bitwise (suc a) b, bit_xor-bitwise (suc a / 2) (b / 2)) (lowest_digit differ a b)

bit_or_step : (a b : ℕ) → bit_or a b ≡ bit_or (a / 2) (b / 2) * 2 + max (a % 2) (b % 2)
bit_or_step zero b = omega (arith, bit_or-bitwise 0 b, bit_or-bitwise 0 (b / 2))
bit_or_step (suc a) b =
    rw (bit_or-bitwise (suc a) b, bit_or-bitwise (suc a / 2) (b / 2)) (lowest_digit max a b)

differ_digits : (x y : ℕ) → x < 2 → y < 2 → differ x y ≡ (x + y) % 2
differ_digits zero y p q = omega arith
differ_digits (suc zero) zero p q = refl
differ_digits (suc zero) (suc y) p q = omega arith
differ_digits (suc (suc x)) y p q = absurd (omega arith)

xor-half : (a b : ℕ) → bit_xor a b / 2 ≡ bit_xor (a / 2) (b / 2)
xor-half a b =
    omega (arith, bit_xor_step a b, differ_digits (a % 2) (b % 2) (omega arith) (omega arith))

xor-parity : (a b : ℕ) → bit_xor a b % 2 ≡ (a + b) % 2
xor-parity a b =
    omega (arith, bit_xor_step a b, differ_digits (a % 2) (b % 2) (omega arith) (omega arith))

or-half : (a b : ℕ) → bit_or a b / 2 ≡ bit_or (a / 2) (b / 2)
or-half a b = omega (arith, bit_or_step a b)

or-parity : (a b : ℕ) → bit_or a b % 2 ≡ max (a % 2) (b % 2)
or-parity a b = omega (arith, bit_or_step a b)

-- Numbers agree if their halves and their last digits do.
eq_of_digits : (a b : ℕ) → a / 2 ≡ b / 2 → a % 2 ≡ b % 2 → a ≡ b
eq_of_digits a b h p = omega arith

pub zero-xor : (b : ℕ) → bit_xor 0 b ≡ b
zero-xor b = bit_xor-bitwise 0 b

pub zero-or : (b : ℕ) → bit_or 0 b ≡ b
zero-or b = bit_or-bitwise 0 b

xor_comm_fuel : (n a b : ℕ) → a ≤ n → b ≤ n → bit_xor a b ≡ bit_xor b a
xor_comm_fuel zero zero zero p q = refl
xor_comm_fuel zero (suc a) b p q = absurd (omega arith)
xor_comm_fuel zero zero (suc b) p q = absurd (omega arith)
xor_comm_fuel (suc n) a b p q =
    eq_of_digits (bit_xor a b) (bit_xor b a)
      (rw (xor-half, xor-half) (xor_comm_fuel n (a / 2) (b / 2) (omega arith) (omega arith)))
      (omega (arith, xor-parity a b, xor-parity b a))

pub xor_comm : (a b : ℕ) → bit_xor a b ≡ bit_xor b a
xor_comm a b = xor_comm_fuel (a + b) a b (omega arith) (omega arith)

pub xor-zero : (a : ℕ) → bit_xor a 0 ≡ a
xor-zero a = xor_comm a 0 ∙ zero-xor a

xor_assoc_fuel :
    (n a b c : ℕ) → a ≤ n → b ≤ n → c ≤ n → bit_xor (bit_xor a b) c ≡ bit_xor a (bit_xor b c)
xor_assoc_fuel zero a b c p q r =
    let a0 : a ≡ 0 = omega arith in rw (a0, zero-xor b, zero-xor (bit_xor b c))
xor_assoc_fuel (suc n) a b c p q r =
    eq_of_digits (bit_xor (bit_xor a b) c) (bit_xor a (bit_xor b c))
      (simp xor-half
        (xor_assoc_fuel n (a / 2) (b / 2) (c / 2) (omega arith) (omega arith) (omega arith)))
      (omega (
        arith,
        xor-parity (bit_xor a b) c,
        xor-parity a b,
        xor-parity a (bit_xor b c),
        xor-parity b c,
      ))

pub xor_assoc : (a b c : ℕ) → bit_xor (bit_xor a b) c ≡ bit_xor a (bit_xor b c)
xor_assoc a b c = xor_assoc_fuel (a + b + c) a b c (omega arith) (omega arith) (omega arith)

xor_self_fuel : (n a : ℕ) → a ≤ n → bit_xor a a ≡ 0
xor_self_fuel zero a p = let a0 : a ≡ 0 = omega arith in rw a0
xor_self_fuel (suc n) a p =
    eq_of_digits (bit_xor a a) 0 (rw xor-half (xor_self_fuel n (a / 2) (omega arith)))
      (omega (arith, xor-parity a a))

pub xor_self : (a : ℕ) → bit_xor a a ≡ 0
xor_self a = xor_self_fuel a a (le_refl a)

-- The same mask twice changes nothing.
pub xor_cancel : (a b : ℕ) → bit_xor (bit_xor a b) b ≡ a
xor_cancel a b = rw (xor_assoc, xor_self, xor-zero)

div-pow-suc : (a k : ℕ) → a / 2 ^ suc k ≡ a / 2 ^ k / 2
div-pow-suc a k = rw pow-suc (sym (div-div-eq-div-mul a (2 ^ k) 2))

div-one : (a : ℕ) → a / 2 ^ 0 ≡ a
div-one a = omega arith

-- A shift to the right is applied to both sides.
pub xor-shift : (k a b : ℕ) → bit_xor a b / 2 ^ k ≡ bit_xor (a / 2 ^ k) (b / 2 ^ k)
xor-shift zero a b = rw (div-one a, div-one b, div-one (bit_xor a b))
xor-shift (suc k) a b = rw (div-pow-suc, div-pow-suc, div-pow-suc, xor-shift k a b, xor-half)

pub xor-lt : (k a b : ℕ) → a < 2 ^ k → b < 2 ^ k → bit_xor a b < 2 ^ k
xor-lt zero a b p q =
    let a0 : a ≡ 0 = omega arith in let b0 : b ≡ 0 = omega arith in rw (a0, b0) (omega arith)
xor-lt (suc k) a b p q = omega (
  arith,
  pow-suc 2 k,
  xor-half a b,
  xor-lt k (a / 2) (b / 2) (omega (arith, pow-suc 2 k)) (omega (arith, pow-suc 2 k)),
)

or_comm_fuel : (n a b : ℕ) → a ≤ n → b ≤ n → bit_or a b ≡ bit_or b a
or_comm_fuel zero zero zero p q = refl
or_comm_fuel zero (suc a) b p q = absurd (omega arith)
or_comm_fuel zero zero (suc b) p q = absurd (omega arith)
or_comm_fuel (suc n) a b p q =
    eq_of_digits (bit_or a b) (bit_or b a)
      (rw (or-half, or-half) (or_comm_fuel n (a / 2) (b / 2) (omega arith) (omega arith)))
      (omega (arith, or-parity a b, or-parity b a))

pub or_comm : (a b : ℕ) → bit_or a b ≡ bit_or b a
or_comm a b = or_comm_fuel (a + b) a b (omega arith) (omega arith)

pub or-lt : (k a b : ℕ) → a < 2 ^ k → b < 2 ^ k → bit_or a b < 2 ^ k
or-lt zero a b p q =
    let a0 : a ≡ 0 = omega arith in let b0 : b ≡ 0 = omega arith in rw (a0, b0) (omega arith)
or-lt (suc k) a b p q = omega (
  arith,
  pow-suc 2 k,
  or-half a b,
  or-lt k (a / 2) (b / 2) (omega (arith, pow-suc 2 k)) (omega (arith, pow-suc 2 k)),
)
