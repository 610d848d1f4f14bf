-- ===== src/RunnerPool/Setup.antt =====
-- `runners_init` and `runners_fini` of fuzzer/src/runner.c, over the heap of runners: what a runner's
-- address holds is its active input, and nothing before it is allocated or after it is freed. The
-- answer of runner_launch is ignored by the code.
pub mod Pool
use coverage_guided_fuzzer.Prelude.{
  ℕ, zero, suc, ◌+◌, Bool, not, Option, none, some, List, [], ◌==◌, if◌then◌else◌, get_elem?,
  replicate, ◌>>=◌,
}
use coverage_guided_fuzzer.Memory.{Ptr, null, write}
use coverage_guided_fuzzer.RunnerPool.{Slots, Runners, Inputs, put}

-- The answers of calloc in `runners_init`.
pub record Callocs : Type 0 where
  pub object : Bool
  pub pool : Bool
  pub ready : Bool
  pub active : Bool
  pub done : Bool

-- An array of `n` pointers from calloc; in an array that is NULL every access faults.
unfoldable pub calloc_array : Bool → ℕ → Slots
calloc_array granted n = record { cells = if granted then replicate n null else []; count = 0 }

-- The loop of `runners_init`, on the rounds left; `made` is what `runner_init` returns in each round.
unfoldable pub start_runners : (ℕ → Ptr) → ℕ → ℕ → Runners → Inputs → Option (Runners × Inputs)
start_runners made zero i rs h = some (rs, h)
start_runners made (suc n) i rs h =
    let skipped = start_runners made n (suc i) rs h in
    let added = (do
      pool ← put rs.pool (made i)
      ready ← put rs.ready (made i)
      start_runners made n (suc i) (record rs { pool = pool; ready = ready })
          (write h (made i) (some null))) in
    if made i == null then skipped else added

-- `runners_init`
unfoldable pub runners_init : Callocs → (ℕ → Ptr) → ℕ → Inputs → Option (Option Runners × Inputs)
unfolding calloc_array
runners_init c made job_count h =
    let empty : Runners = record {
      total_jobs = job_count;
      pool = calloc_array c.pool job_count;
      ready = calloc_array c.ready job_count;
      active = calloc_array c.active job_count;
      done = calloc_array c.done job_count;
    } in
    let started = (do (rs, h') ← start_runners made job_count 0 empty h; some (some rs, h')) in
    if not c.object then some (none, h) else started

-- `runner_fini` frees the runner.
unfoldable pub free_runner : Ptr → Inputs → Option Inputs
free_runner r h =
    if r == null then some h else elim (h r) [ none ↦ none | some i ↦ some (write h r none) ]

-- The loop of `runners_fini`, on the rounds left.
unfoldable pub free_runners : ℕ → ℕ → Slots → Inputs → Option Inputs
free_runners zero i pool h = some h
free_runners (suc n) i pool h = do
  r ← get_elem? pool.cells i
  h' ← free_runner r h
  free_runners n (suc i) pool h'

-- `runners_fini`
unfoldable pub runners_fini : Option Runners → Inputs → Option Inputs
runners_fini none h = some h
runners_fini (some rs) h = free_runners rs.pool.count 0 rs.pool h
