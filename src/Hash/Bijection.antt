-- ===== src/Hash/Bijection.antt =====
-- Each round of `hash` can be undone, so the function is a permutation of uint64_t.
use coverage_guided_fuzzer.Prelude.{ℕ, ◌*◌, ◌/◌, ◌%◌, ◌^◌, ◌<◌, ◌≡◌, sym, ap, ◌∙◌, arith, bit_xor}
use coverage_guided_fuzzer.Prelude.Bits.{xor_assoc, xor-zero, xor_cancel, xor-shift, xor-lt}
use coverage_guided_fuzzer.Hash.{hash}

-- Undoes `y = n ^ (n >> k)` where three shifts by k use up the word.
unshift : ℕ → ℕ → ℕ
unshift k y = bit_xor (bit_xor y (y / 2 ^ k)) (y / 2 ^ k / 2 ^ k)

-- The rounds of `hash` from the last to the first, with the inverses of its two odd factors.
pub unhash : ℕ → ℕ
unhash y =
    let b = unshift 31 y in
    let a = unshift 27 (b * 0x319642b2d24d8ec3 % 2 ^ 64) in
    unshift 30 (a * 0x96de1b173f119089 % 2 ^ 64)

xor_telescope : (a b c : ℕ) → bit_xor (bit_xor (bit_xor a b) (bit_xor b c)) c ≡ a
xor_telescope a b c = rw (← xor_assoc (bit_xor a b) b c, xor_cancel a b, xor_cancel a c)

unshift_lem : (k n : ℕ) → n / 2 ^ k / 2 ^ k / 2 ^ k ≡ 0 → unshift k (bit_xor n (n / 2 ^ k)) ≡ n
unfolding unshift
unshift_lem k n z = simp (xor-shift, z, xor-zero) (xor_telescope n (n / 2 ^ k) (n / 2 ^ k / 2 ^ k))

-- A product by a factor is undone by its inverse modulo 2 ^ 64.
mul_undo₁ : (x : ℕ) → x < 2 ^ 64 → x * 0xbf58476d1ce4e5b9 % 2 ^ 64 * 0x96de1b173f119089 % 2 ^ 64 ≡ x
mul_undo₁ x h = omega arith

mul_undo₂ : (x : ℕ) → x < 2 ^ 64 → x * 0x94d049bb133111eb % 2 ^ 64 * 0x319642b2d24d8ec3 % 2 ^ 64 ≡ x
mul_undo₂ x h = omega arith

-- A hash of a uint64_t is a uint64_t.
pub hash-lt : (n : ℕ) → hash n < 2 ^ 64
unfolding hash
hash-lt n = xor-lt 64 _ _ (omega arith) (omega arith)

shifted-lt : (k n : ℕ) → n < 2 ^ 64 → bit_xor n (n / 2 ^ k) < 2 ^ 64
shifted-lt k n h = xor-lt 64 n (n / 2 ^ k) h (omega arith)

-- `unhash` undoes `hash` on every uint64_t.
pub unhash-hash : (n : ℕ) → n < 2 ^ 64 → unhash (hash n) ≡ n
unfolding hash unhash
unhash-hash n h =
    let x = bit_xor n (n / 2 ^ 30) in
    let a = x * 0xbf58476d1ce4e5b9 % 2 ^ 64 in
    let y = bit_xor a (a / 2 ^ 27) in
    let b = y * 0x94d049bb133111eb % 2 ^ 64 in
    rw (
      unshift_lem 31 b (omega arith),
      mul_undo₂ y (shifted-lt 27 a (omega arith)),
      unshift_lem 27 a (omega arith),
      mul_undo₁ x (shifted-lt 30 n h),
      unshift_lem 30 n (omega arith),
    )

-- Two uint64_t with the same hash are equal.
pub hash_injective : (m n : ℕ) → m < 2 ^ 64 → n < 2 ^ 64 → hash m ≡ hash n → m ≡ n
hash_injective m n hm hn e = sym (unhash-hash m hm) ∙ ap unhash e ∙ unhash-hash n hn
