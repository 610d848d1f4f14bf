-- ===== src/Hash.antt =====
-- The hash function of fuzzer/src/global.c, by which the mutation engine draws positions.
pub mod Bijection
use coverage_guided_fuzzer.Prelude.{ℕ, ◌*◌, ◌/◌, ◌%◌, ◌^◌, bit_xor}

-- `hash`. A uint64_t is a number below 2 ^ 64, and a product wraps there.
unfoldable pub hash : ℕ → ℕ
hash n =
    let a = bit_xor n (n / 2 ^ 30) * 0xbf58476d1ce4e5b9 % 2 ^ 64 in
    let b = bit_xor a (a / 2 ^ 27) * 0x94d049bb133111eb % 2 ^ 64 in bit_xor b (b / 2 ^ 31)
