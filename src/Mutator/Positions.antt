-- ===== src/Mutator/Positions.antt =====
-- `H` of fuzzer/src/mutator.c, from which every strategy draws its positions.
use coverage_guided_fuzzer.Prelude.{ℕ, zero, suc, ◌%◌, ◌==◌, if◌then◌else◌}
use coverage_guided_fuzzer.Hash.{hash}

-- MAX_INP_LEN
abbrev pub max_inp_len : ℕ
max_inp_len = 1024

-- The loop of `H`: the rounds left, and `res`.
unfoldable pub draw : ℕ → ℕ → ℕ → ℕ
draw n zero res = res
draw n (suc m) res = draw n m (hash res % n)

-- `H`; the int `m` is never negative where it is called.
unfoldable pub position : ℕ → ℕ → ℕ → ℕ
position n m x = if n == 0 then 0 else if m == 0 then x else draw n m x
