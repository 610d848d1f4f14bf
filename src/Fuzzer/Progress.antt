-- ===== src/Fuzzer/Progress.antt =====
-- What a round of the loop of run_fuzzer gains, and where the loop stops.
use mathlib.Core.Path.{subst}
use coverage_guided_fuzzer.Prelude.{
  ◌∙◌, ap, ◌++◌, ℕ, ◌+◌, ◌<◌, ◌≤◌, ◌≡◌, refl, true, false, if◌then◌else◌, some, List, [], length,
  arith, Returns, returns, Returns-bind, Returns-mono, Returns-then, Returns-else, ◌>>=◌,
}
use coverage_guided_fuzzer.Prelude.Int.{pos}
use coverage_guided_fuzzer.Memory.{Ptr, Memory}
use coverage_guided_fuzzer.CoverageMap.{CoverageMap}
use coverage_guided_fuzzer.InputQueue.{InputQueue, input_queue_init}
use coverage_guided_fuzzer.InputQueue.Spec.{Rings}
use coverage_guided_fuzzer.RunnerPool.{Runners, Inputs}
use coverage_guided_fuzzer.RunnerPool.Lanes.{Lanes, lanes, IsRunners, AreHeld}
use coverage_guided_fuzzer.RunnerPool.Lanes.Sweep.{AreLow, chosen, spec_check}
use coverage_guided_fuzzer.Fuzzer.{
  State, Allocator, Answers, on_sigchld, work, goes_on, loop_round, fuzzer_loop,
}
use coverage_guided_fuzzer.Fuzzer.Seeds.{start}
use coverage_guided_fuzzer.Fuzzer.Owned.{IsOwned}
use coverage_guided_fuzzer.Fuzzer.Prepare.{IsNew}
use coverage_guided_fuzzer.Fuzzer.Results.{learned, IsMalloc}
use coverage_guided_fuzzer.Fuzzer.Signals.{on_sigusr1-Found}
use coverage_guided_fuzzer.Fuzzer.Phases.{process_phase, dispatch_phase}
use coverage_guided_fuzzer.Fuzzer.Round.{AllLow, IsRun}
use coverage_guided_fuzzer.Fuzzer.Start.{AreShort, fuzzer_loop-safe}

-- The runners whose results a round finds: those that are done, and the active ones whose pipe is set.
abbrev pub found : Answers → Lanes → List Ptr
found a l = l.done ++ chosen a.isset l.active

-- Their results are counted, and the coverage of those that are VALID is added to the map, in order.
abbrev pub Collected : Answers → Lanes → State → State → Type 0
Collected a l f f' =
    (f'.jobs_received ≡ f.jobs_received + length (found a l))
    × (f'.coverage_map ≡ learned a.report (found a l) f.coverage_map)

module _ (alloc : Allocator) (nodes : IsMalloc alloc)
    (inputs : (m : Memory) → IsNew m (alloc.input_at m)) (target_total : ℕ) where
  pub work-receives :
      (a : Answers) (n : ℕ) (f : State) (q : InputQueue) (s : Rings) (rs : Runners) (l : Lanes)
      → IsOwned f q s rs l
      → AreLow a.descriptor l.active
      → f.sigusr1_seen ≡ true
      → a.selected ≡ pos n
      → 0 < n
      → Returns (Collected a l f) (work alloc a target_total f)
  unfolding work
  work-receives a n f q s rs l v low seen is_n positive =
      Returns-bind (on_sigusr1-Found f q s rs l v a n low seen is_n positive)
        λ f1 ((rs1, v1), same, shut, map1).
          Returns-bind (process_phase alloc nodes a.report f1 q s rs1 (spec_check a.isset l) v1)
            λ f2 ((q2, s2, rs2, v2), received, sent, map2).
              Returns-mono (dispatch_phase alloc inputs a.sent target_total f2 q2 s2 rs2 _ v2)
                λ f3 (w, kept, bound, map3). (
                  omega (arith, kept, received, same),
                  map3 ∙ map2 ∙ ap (learned a.report (found a l)) map1,
                )

-- On a state in which each input is in one place, and with a malloc that answers NULL or memory that
-- is not in use, and with active runners whose descriptors are below FD_SETSIZE: a round of the loop
-- that is entered with SIGUSR1 seen and no SIGCHLD, and whose select finds results, ends without a
-- fault, whatever the runners report and whatever it can send afterwards. It counts as many jobs more
-- as received as there were runners done and active runners whose pipe is set, and its coverage map is
-- what `coverage_map_add` makes of the old one with the coverage of those of them that report VALID,
-- the runners that were done first, each group in order.
pub loop_round-receives :
    (alloc : Allocator) (target_total : ℕ) (a : Answers) (n : ℕ) (f : State) (q : InputQueue)
    (s : Rings) (rs : Runners) (l : Lanes)
    → IsMalloc alloc
    → ((m : Memory) → IsNew m (alloc.input_at m))
    → IsOwned f q s rs l
    → AreLow a.descriptor l.active
    → goes_on target_total f ≡ true
    → f.sigchld_seen ≡ false
    → f.sigusr1_seen ≡ true
    → a.selected ≡ pos n
    → 0 < n
    → Returns (Collected a l f) (loop_round alloc a target_total f)
unfolding loop_round on_sigchld goes_on
loop_round-receives alloc target_total a n f q s rs l nodes inputs v low goes quiet seen is_n
      positive =
    let running : f.shutdown_req ≡ false = ground (arith, goes) in
    let worked =
      work-receives alloc nodes inputs target_total a n f q s rs l v low seen is_n positive in
    let calm : Returns (λ f1. f ≡ f1) (on_sigchld a f) = Returns-else _ _ quiet (returns refl) in
    Returns-then _ _ goes (
      Returns-bind calm λ f1 same.
        subst
          (λ g.
            Returns (Collected a l f)
              (if g.shutdown_req then some g else work alloc a target_total g))
          same (Returns-else _ _ running worked))

-- Where a run that was not shut down stops.
pub record IsComplete (target_total : ℕ) (f : State) : Type 0 where
  pub received : f.jobs_received ≡ target_total
  pub sent : f.jobs_sent ≡ target_total
  pub idle : (rs : Runners) × (f.runners ≡ some rs) × (rs.active.count ≡ 0) × (rs.done.count ≡ 0)

complete :
    (target_total : ℕ) (f : State)
    → IsRun target_total f
    → goes_on target_total f ≡ false
    → f.shutdown_req ≡ false
    → IsComplete target_total f
unfolding goes_on
complete target_total f (q, s, rs, l, v, le, total) stops running =
    let reached : target_total ≤ f.jobs_received = ground (arith, stops, running) in
    record {
      received = omega (arith, reached, le, total);
      sent = omega (arith, reached, le, total);
      idle = (
        rs,
        v.runners_is,
        omega (arith, v.pool.active.count, reached, le, total),
        omega (arith, v.pool.done.count, reached, le, total),
      );
    }

-- With a malloc that answers NULL or memory that is not in use, runners whose descriptors are below
-- FD_SETSIZE in every round, a seed file whose lines have strings of at most 1024 bytes, and a
-- well-formed pool in memory whose runners are neither active nor done, run_fuzzer goes through any
-- number of rounds without a fault. If the condition of its loop is then false though no shutdown was
-- asked for, exactly the asked number of jobs was sent and received, and no runner is active or done.
pub fuzzer_loop-completes :
    (alloc : Allocator) (target_total : ℕ) (as' : List Answers) (lines : List (List ℕ))
    (c : CoverageMap) (rs : Runners) (pool ready : List Ptr) (h : Inputs) (m : Memory)
    → IsMalloc alloc
    → ((m : Memory) → IsNew m (alloc.input_at m))
    → AreShort lines
    → IsRunners rs (lanes pool ready [] [])
    → AreHeld h pool
    → AllLow as'
    → Returns
        (λ f. goes_on target_total f ≡ false → f.shutdown_req ≡ false → IsComplete target_total f)
        (start alloc (input_queue_init true) (some c) (some rs) lines h m >>= λ o.
          o >>= fuzzer_loop alloc target_total as')
fuzzer_loop-completes alloc target_total as' lines c rs pool ready h m nodes inputs short v held
      low =
    Returns-mono
      (fuzzer_loop-safe alloc target_total as' lines c rs pool ready h m nodes inputs short v held
        low)
      λ f run. complete target_total f run
