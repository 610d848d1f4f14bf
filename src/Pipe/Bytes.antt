-- ===== src/Pipe/Bytes.antt =====
-- Numbers and ints in memory are read back.
use native.Mathlib.Nat.{pow-suc}
use coverage_guided_fuzzer.Prelude.{
  ℕ, zero, suc, ◌-◌, ◌/◌, ◌%◌, ◌^◌, ◌<◌, ◌≡◌, refl, sym, ap, ◌∙◌, false, List, [], ◌∷◌, ◌++◌, ltb,
  length, take, drop, arith,
}
use coverage_guided_fuzzer.Prelude.Int.{ℤ, pos, negsuc, to_int}
use coverage_guided_fuzzer.Pipe.{to_bytes, from_bytes, int_bytes}

pub from_bytes-to_bytes : (k n : ℕ) → n < 256 ^ k → from_bytes (to_bytes k n) ≡ n
from_bytes-to_bytes zero n h = omega (arith, h)
from_bytes-to_bytes (suc k) n h =
    let rest = from_bytes-to_bytes k (n / 256) (omega (arith, h, pow-suc 256 k)) in
    omega (arith, rest)

pub length-to_bytes : (k n : ℕ) → length (to_bytes k n) ≡ k
length-to_bytes zero n = refl
length-to_bytes (suc k) n = ap suc (length-to_bytes k (n / 256))

-- The values of an int.
abbrev pub IsInt : ℤ → Type 0
IsInt (pos n) = n < 2 ^ 31
IsInt (negsuc n) = n < 2 ^ 31

to_int-pos : (n : ℕ) → n < 2 ^ 31 → to_int n ≡ pos n
to_int-pos n h = let small : n % 2 ^ 32 ≡ n = omega (arith, h) in ground (arith, small, h)

to_int-negsuc : (n : ℕ) → n < 2 ^ 31 → to_int (2 ^ 32 - n - 1) ≡ negsuc n
to_int-negsuc n h =
    let small : (2 ^ 32 - n - 1) % 2 ^ 32 ≡ 2 ^ 32 - n - 1 = omega (arith, h) in
    let big : ltb (2 ^ 32 - n - 1) (2 ^ 31) ≡ false = ground (arith, h) in
    let back : 2 ^ 32 - (2 ^ 32 - n - 1) - 1 ≡ n = omega (arith, h) in rw (small, big, back)

pub to_int-int_bytes : (i : ℤ) → IsInt i → to_int (from_bytes (int_bytes i)) ≡ i
to_int-int_bytes (pos n) h = ap to_int (from_bytes-to_bytes 4 n (omega (arith, h))) ∙ to_int-pos n h
to_int-int_bytes (negsuc n) h =
    ap to_int (from_bytes-to_bytes 4 (2 ^ 32 - n - 1) (omega (arith, h))) ∙ to_int-negsuc n h

pub length-int_bytes : (i : ℤ) → length (int_bytes i) ≡ 4
length-int_bytes (pos n) = length-to_bytes 4 n
length-int_bytes (negsuc n) = length-to_bytes 4 (2 ^ 32 - n - 1)

pub take-append : (xs ys : List ℕ) → take (length xs) (xs ++ ys) ≡ xs
take-append [] ys = refl
take-append (x ∷ xs) ys = ap (λ (zs : List ℕ). x ∷ zs) (take-append xs ys)

pub drop-append : (xs ys : List ℕ) → drop (length xs) (xs ++ ys) ≡ ys
drop-append [] ys = refl
drop-append (x ∷ xs) ys = drop-append xs ys

pub take_front : (k : ℕ) (xs ys : List ℕ) → length xs ≡ k → take k (xs ++ ys) ≡ xs
take_front k xs ys e = ap (λ (i : ℕ). take i (xs ++ ys)) (sym e) ∙ take-append xs ys

pub drop_front : (k : ℕ) (xs ys : List ℕ) → length xs ≡ k → drop k (xs ++ ys) ≡ ys
drop_front k xs ys e = ap (λ (i : ℕ). drop i (xs ++ ys)) (sym e) ∙ drop-append xs ys
