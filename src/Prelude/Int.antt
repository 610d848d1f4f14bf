-- ===== src/Prelude/Int.antt =====
-- The C type `int`, 32 bits wide, and its conversions. `negsuc n` is -(n + 1).
use coverage_guided_fuzzer.Prelude.{ℕ, zero, suc, ◌+◌, ◌-◌, ◌/◌, ◌%◌, ◌^◌, ltb, ◌==◌, if◌then◌else◌}

pub data ℤ : Type 0 where
  pos : ℕ → ℤ
  negsuc : ℕ → ℤ

-- (int) of a uint64_t: the low 32 bits in two's complement.
abbrev pub to_int : ℕ → ℤ
to_int w = let v = w % 2 ^ 32 in if ltb v (2 ^ 31) then pos v else negsuc (2 ^ 32 - v - 1)

-- `i + 1`. At INT_MAX, where C leaves the result open, the sum wraps.
abbrev pub add_one : ℤ → ℤ
add_one (pos n) = if n == 2 ^ 31 - 1 then negsuc (2 ^ 31 - 1) else pos (n + 1)
add_one (negsuc zero) = pos 0
add_one (negsuc (suc n)) = negsuc n

-- `i / 2`, which rounds towards zero.
abbrev pub half : ℤ → ℤ
half (pos n) = pos (n / 2)
half (negsuc n) = if n == 0 then pos 0 else negsuc ((n + 1) / 2 - 1)

-- How often `for(i = 1; i <= p; i++)` and `for(i = 0; i < p; i++)` run.
abbrev pub rounds : ℤ → ℕ
rounds (pos n) = n
rounds (negsuc n) = 0

-- Conversion to size_t.
abbrev pub to_size : ℤ → ℕ
to_size (pos n) = n
to_size (negsuc n) = 2 ^ 64 - 1 - n
