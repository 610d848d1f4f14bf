-- ===== src/Fuzzer/Idle.antt =====
-- Rounds of the loop of run_fuzzer in which there is nothing to do.
use coverage_guided_fuzzer.Prelude.{
  ℕ, zero, suc, ◌+◌, ◌<◌, ◌≡◌, refl, Bool, true, false, some, List, [], ◌∷◌, ltb, arith, if_same,
}
use coverage_guided_fuzzer.Memory.{Ptr, null, Memory}
use coverage_guided_fuzzer.CoverageMap.{CoverageMap}
use coverage_guided_fuzzer.InputQueue.{InputQueue, queue, dequeue_input, input_queue_init}
use coverage_guided_fuzzer.RunnerPool.{
  Inputs, Runners, runners_has_done_jobs, runners_has_ready_jobs, runners_has_active_jobs,
}
use coverage_guided_fuzzer.Fuzzer.{
  State, Allocator, Answers, Report, process_results, dispatch, dispatch_one, on_sigchld,
  on_sigusr1, work, loop_round, goes_on, sleeps, fuzzer_loop, noted,
}
use coverage_guided_fuzzer.Fuzzer.Seeds.{read_seeds, start}

-- No signal comes in any of the rounds.
abbrev pub IsQuiet : List Answers → Type 0
IsQuiet [] = Unit {0}
IsQuiet (a ∷ as') = (a.signals ≡ []) × IsQuiet as'

abbrev pub no_inputs : InputQueue
no_inputs = record { high_p = queue null null 0; low_p = queue null null 0; deq_cycle_ind = 0 }

module _ (alloc : Allocator) (m : Memory) (c : CoverageMap) (rs : Runners) (h : Inputs) where
  -- The state before the first round.
  abbrev pub first : State
  first = record {
    memory = m;
    queue = some no_inputs;
    coverage_map = some c;
    runners = some rs;
    active_inputs = h;
    jobs_sent = 0;
    jobs_received = 0;
    shutdown_req = false;
    sigchld_seen = false;
    sigusr1_seen = false;
  }

  noted-first : (a : Answers) → a.signals ≡ [] → noted a.signals first ≡ first
  unfolding noted
  noted-first a e = rw e refl

  process_results-first :
      (report : Ptr → Report) (fuel : ℕ)
      → rs.done.count ≡ 0
      → 0 < fuel
      → process_results alloc report fuel first ≡ some first
  unfolding process_results runners_has_done_jobs
  process_results-first report zero e k = absurd (omega arith)
  process_results-first report (suc fuel) e k =
      let none_done : ltb 0 rs.done.count ≡ false = ground (arith, e) in rw none_done refl

  dispatch-first :
      (sent : Ptr → Bool) (total fuel : ℕ)
      → 0 < fuel
      → dispatch alloc sent total fuel first ≡ some first
  unfolding dispatch dispatch_one dequeue_input runners_has_ready_jobs
  dispatch-first sent total zero k = absurd (omega arith)
  dispatch-first sent total (suc fuel) k = if_same _

  round-first :
      (a : Answers) (total : ℕ)
      → rs.done.count ≡ 0
      → 0 < total
      → loop_round alloc a total first ≡ some first
  unfolding loop_round goes_on on_sigchld on_sigusr1 work
  round-first a total e k =
      let more : ltb 0 total ≡ true = ground (arith, k) in
      rw more (
        rw (process_results-first a.report (rs.done.count + 1) e (omega arith))
          (dispatch-first a.sent total (rs.ready.count + 1) (omega arith)))

  loop-first :
      (total : ℕ) (as' : List Answers)
      → rs.done.count ≡ 0
      → 0 < total
      → IsQuiet as'
      → fuzzer_loop alloc total as' first ≡ some first
  unfolding fuzzer_loop
  loop-first total [] e k quiet = refl
  loop-first total (a ∷ as') e k (q, quiet) =
      rw (noted-first a q, round-first a total e k) (loop-first total as' e k quiet)

  -- Started with an empty seed file and runners of which none is active or done, the fuzzer neither
  -- ends nor sleeps while no signal comes: if it is to send an input at all, its state is the same
  -- after any number of rounds without a signal, the condition of the loop holds in it, and it is
  -- none in which sigsuspend is called.
  pub no_seeds-spins :
      (total : ℕ) (as' : List Answers)
      → rs.active.count ≡ 0
      → rs.done.count ≡ 0
      → 0 < total
      → IsQuiet as'
      → (start alloc (input_queue_init true) (some c) (some rs) [] h m ≡ some (some first))
        × (fuzzer_loop alloc total as' first ≡ some first)
        × (goes_on total first ≡ true)
        × (sleeps total first ≡ false)
  unfolding start read_seeds input_queue_init goes_on sleeps runners_has_active_jobs
  no_seeds-spins total as' e1 e2 k quiet =
      let more : ltb 0 total ≡ true = ground (arith, k) in
      let none_active : ltb 0 rs.active.count ≡ false = ground (arith, e1) in
      (refl, loop-first total as' e2 k quiet, more, rw none_active (ground arith))
