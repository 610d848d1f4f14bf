-- ===== src/Fuzzer/Phases.antt =====
-- The two loops of a round of run_fuzzer, with the fuel that the model of the round gives them.
use mathlib.Core.Path.{subst}
use coverage_guided_fuzzer.Prelude.{Bool, ℕ, ◌+◌, sym, [], ◌++◌, length, arith, Returns}
use coverage_guided_fuzzer.Memory.{Ptr, Memory}
use coverage_guided_fuzzer.InputQueue.{InputQueue}
use coverage_guided_fuzzer.InputQueue.Spec.{Rings}
use coverage_guided_fuzzer.RunnerPool.{Runners}
use coverage_guided_fuzzer.RunnerPool.Lanes.{Lanes}
use coverage_guided_fuzzer.Fuzzer.{State, Allocator, Report, count_of, process_results, dispatch}
use coverage_guided_fuzzer.Fuzzer.Owned.{IsOwned}
use coverage_guided_fuzzer.Fuzzer.Prepare.{IsNew}
use coverage_guided_fuzzer.Fuzzer.Results.{IsMalloc, Received, learned, process_results-Received}
use coverage_guided_fuzzer.Fuzzer.Dispatch.{All, dispatch-All}

module _ (alloc : Allocator) where
  pub process_phase :
      IsMalloc alloc
      → (report : Ptr → Report) (f : State) (q : InputQueue) (s : Rings) (rs : Runners) (l : Lanes)
      → IsOwned f q s rs l
      → Returns
          (Received
            (record l { ready = l.ready ++ l.done; done = [] })
            (f.jobs_received + length l.done)
            f.jobs_sent
            (learned report l.done f.coverage_map))
          (process_results alloc report (count_of (λ rs. rs.done.count) f.runners + 1) f)
  process_phase nodes report f q s rs l v =
      subst
        (λ o.
          Returns
            (Received (record l { ready = l.ready ++ l.done; done = [] })
              (f.jobs_received + length l.done) f.jobs_sent (learned report l.done f.coverage_map))
            (process_results alloc report (count_of (λ rs. rs.done.count) o + 1) f))
        (sym v.runners_is) (process_results-Received alloc report f q s rs l nodes v)

  pub dispatch_phase :
      ((m : Memory) → IsNew m (alloc.input_at m))
      → (sent : Ptr → Bool) (target_total : ℕ) (f : State) (q : InputQueue) (s : Rings)
        (rs : Runners) (l : Lanes)
      → IsOwned f q s rs l
      → Returns
          (All alloc sent target_total f l)
          (dispatch alloc sent target_total (count_of (λ rs. rs.ready.count) f.runners + 1) f)
  dispatch_phase inputs sent target_total f q s rs l v =
      subst
        (λ o.
          Returns (All alloc sent target_total f l)
            (dispatch alloc sent target_total (count_of (λ rs. rs.ready.count) o + 1) f))
        (sym v.runners_is)
        (dispatch-All alloc sent target_total (rs.ready.count + 1) f q s rs l inputs v
          (omega (arith, v.pool.ready.count)))
