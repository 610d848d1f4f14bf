-- ===== src/Prelude/Options.antt =====
-- Fallible steps as `Option`: `none` is a fault of the machine, such as an access out of an array.
use mathlib.Core.Path.{◌≡◌, refl}
use mathlib.Core.Logic.{◌⊎◌, inl, inr}
use mathlib.Core.Bool.{Bool, true, false}
use mathlib.Core.Option.{Option, none, some}
use coverage_guided_fuzzer.Prelude.Tests.{if◌then◌else◌}

infixl 5 ◌>>=◌
abbrev pub ◌>>=◌ {ℓ κ} : {A : Type ℓ} {B : Type κ} → Option A → (A → Option B) → Option B
none >>= f = none
some a >>= f = f a

pub Option-cases {ℓ} : {A : Type ℓ} (o : Option A) → (o ≡ none) ⊎ ((a : A) × (o ≡ some a))
Option-cases none = inl refl
Option-cases (some a) = inr (a, refl)

-- The step succeeds, with a result of which `P` holds.
pub data Returns {ℓ κ} {A : Type ℓ} (P : A → Type κ) : Option A → Type (ℓ ⊔ κ) where
  returns : {a : A} → P a → Returns P (some a)

module _ {ℓ κ} {A : Type ℓ} {P : A → Type κ} where
  pub Returns-bind {ι λ'} :
      {B : Type ι} {Q : B → Type λ'} {m : Option A} {f : A → Option B}
      → Returns P m
      → ((a : A) → P a → Returns Q (f a))
      → Returns Q (m >>= f)
  Returns-bind (returns p) next = next _ p

  pub Returns-mono {ι} :
      {Q : A → Type ι} {m : Option A} → Returns P m → ((a : A) → P a → Q a) → Returns Q m
  Returns-mono (returns p) weaken = returns (weaken _ p)

  pub Returns-some : {m : Option A} → Returns P m → (a : A) × (m ≡ some a) × P a
  Returns-some (returns p) = (_, refl, p)

  pub Returns-if :
      (b : Bool) {m n : Option A} → Returns P m → Returns P n → Returns P (if b then m else n)
  Returns-if true r s = r
  Returns-if false r s = s

  pub Returns-then :
      {b : Bool} (m n : Option A) → b ≡ true → Returns P m → Returns P (if b then m else n)
  Returns-then m n e r = rw e r

  pub Returns-else :
      {b : Bool} (m n : Option A) → b ≡ false → Returns P n → Returns P (if b then m else n)
  Returns-else m n e r = rw e r
