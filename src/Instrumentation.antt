-- ===== src/Instrumentation.antt =====
-- The code of fuzzer/programs/coverage.c that is linked into each target: it numbers the guards of the
-- target's edges, and sets the bit of each guard that is passed in the shared memory.
pub mod Bytes
pub mod Trace
pub mod Overflow
pub mod Stale
use coverage_guided_fuzzer.Prelude.{
  ℕ, zero, suc, ◌+◌, ◌/◌, ◌%◌, ◌^◌, Bool, true, false, ◌||◌, not, Option, none, some, List, [], ◌∷◌,
  ltb, ◌==◌, if◌then◌else◌, bit_or, length, ◌>>=◌,
}
use coverage_guided_fuzzer.CoverageMap.{coverage_map_size}

-- The static `bitmap`: NULL, the shared memory, or MAP_FAILED.
pub data Pointer : Type 0 where
  unset to_shared map_failed : Pointer

-- The two statics and the shared memory behind COVERAGE_MAP_FD.
pub record Tracer : Type 0 where
  pub bitmap : Pointer
  pub n : ℕ
  pub shared : List ℕ

-- `for(x = start; x < stop; x++) *x = ++N`. N is a uint64_t and a guard a uint32_t.
unfoldable pub number : ℕ → List ℕ → List ℕ × ℕ
number n [] = ([], n)
number n (g ∷ gs) =
    let n' : ℕ = (n + 1) % 2 ^ 64 in let (gs', last) = number n' gs in (n' % 2 ^ 32 ∷ gs', last)

abbrev not_zero : ℕ → Bool
not_zero n = if n == 0 then false else true

-- `__sanitizer_cov_trace_pc_guard_init` on the guards of one module: whether COVERAGE_MAP_FD is open,
-- and whether mmap succeeds.
unfoldable pub guard_init : Bool → Bool → List ℕ → Tracer → List ℕ × Tracer
guard_init fd_open mapped [] t = ([], t)
guard_init fd_open mapped (g ∷ gs) t =
    if not_zero g
    then (g ∷ gs, t)
    else if ltb coverage_map_size (length (g ∷ gs) + 1)
    then (g ∷ gs, t)
    else if not fd_open
    then (g ∷ gs, t)
    else let (gs', last) = number t.n (g ∷ gs) in
      (gs', record t { bitmap = if mapped then to_shared else map_failed; n = last })

-- `bitmap[i] |= b` in the shared memory.
unfoldable pub or_at : List ℕ → ℕ → ℕ → Option (List ℕ)
or_at [] i b = none
or_at (c ∷ cs) zero b = some (bit_or c b ∷ cs)
or_at (c ∷ cs) (suc i) b = do cs' ← or_at cs i b; some (c ∷ cs')

-- `__sanitizer_cov_trace_pc_guard` on the value of a guard.
unfoldable pub trace_pc_guard : ℕ → Tracer → Option Tracer
trace_pc_guard guard t =
    let marked = (do
      shared ← or_at t.shared (guard / 8) (2 ^ (guard % 8))
      some (record t { shared = shared })) in
    if guard == 0
    then some t
    else elim t.bitmap [ unset ↦ none | to_shared ↦ marked | map_failed ↦ none ]
