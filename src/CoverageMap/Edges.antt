-- ===== src/CoverageMap/Edges.antt =====
-- The bits of coverage data as edges, numbered as fuzzer/programs/coverage.c numbers its guards.
use coverage_guided_fuzzer.Prelude.{ℕ, ◌/◌, ◌%◌, Bool, List, ◌==◌, get_or}
use coverage_guided_fuzzer.Prelude.Bits.Digits.{digit}

-- Whether guard number `e` is marked: bit `e % 8` of byte `e / 8`.
unfoldable pub has_edge : List ℕ → ℕ → Bool
unfolding digit
has_edge cov e = digit (e % 8) (get_or cov (e / 8) 0) == 1
