-- ===== src/Fuzzer/Seeds.antt =====
-- run_fuzzer before its loop, of fuzzer/src/fuzzer.c: the seeds are read.
use coverage_guided_fuzzer.Prelude.{
  ℕ, false, Option, none, some, List, [], ◌∷◌, ◌==◌, if◌then◌else◌, ◌>>=◌,
}
use coverage_guided_fuzzer.Input.{make_input}
use coverage_guided_fuzzer.CoverageMap.{CoverageMap}
use coverage_guided_fuzzer.Memory.{Ptr, Memory}
use coverage_guided_fuzzer.InputQueue.{InputQueue, enqueue_high_prio_input}
use coverage_guided_fuzzer.RunnerPool.{Inputs, Runners}
use coverage_guided_fuzzer.Fuzzer.{State, Allocator, grants_at, store_input}

-- The string of a line that getline has read, its newline replaced by a NUL.
unfoldable pub line_text : List ℕ → List ℕ
line_text [] = []
line_text (b ∷ []) = if b == 10 then [] else if b == 0 then [] else b ∷ []
line_text (b ∷ c ∷ rest) = let text = line_text (c ∷ rest) in if b == 0 then [] else b ∷ text

-- The loop that reads the seeds.
unfoldable pub read_seeds :
    Allocator → List (List ℕ) → Option InputQueue → Memory → Option (Option InputQueue × Memory)
read_seeds alloc [] q m = some (q, m)
read_seeds alloc (line ∷ lines) q m =
    let p : Ptr = alloc.input_at m in
    let (inp, m1) = store_input p (make_input (grants_at p) (some (line_text line))) m in
    enqueue_high_prio_input (alloc.node_at m1) q inp m1 >>= λ (q', m'). read_seeds alloc lines q' m'

-- run_fuzzer before its loop; `some none` is the return of -1 when one of the three objects is NULL.
unfoldable pub start :
    Allocator
    → Option InputQueue
    → Option CoverageMap
    → Option Runners
    → List (List ℕ)
    → Inputs
    → Memory
    → Option (Option State)
start alloc none map rs lines h m = some none
start alloc (some q) none rs lines h m = some none
start alloc (some q) (some c) none lines h m = some none
start alloc (some q) (some c) (some rs) lines h m = do
  (queue, m') ← read_seeds alloc lines (some q) m
  some (
      some (record {
        memory = m';
        queue = queue;
        coverage_map = some c;
        runners = some rs;
        active_inputs = h;
        jobs_sent = 0;
        jobs_received = 0;
        shutdown_req = false;
        sigchld_seen = false;
        sigusr1_seen = false;
      }))
