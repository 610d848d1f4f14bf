-- ===== src/Fuzzer/Round.antt =====
-- The invariant of the loop of run_fuzzer, over rounds.
use coverage_guided_fuzzer.Fuzzer.{helpr_fuzzer_sighandler}
use coverage_guided_fuzzer.Prelude.{
  Bool, true, false, if◌then◌else◌, ℕ, ◌+◌, ◌<◌, ◌≤◌, List, [], ◌∷◌, length, arith, Returns,
  returns, Returns-bind, Returns-mono, Returns-if,
}
use coverage_guided_fuzzer.Memory.{Ptr, Memory}
use coverage_guided_fuzzer.InputQueue.{InputQueue}
use coverage_guided_fuzzer.InputQueue.Spec.{Rings}
use coverage_guided_fuzzer.RunnerPool.{Runners, fd_setsize}
use coverage_guided_fuzzer.RunnerPool.Lanes.{Lanes}
use coverage_guided_fuzzer.Fuzzer.{
  State, Allocator, Answers, count_of, process_results, dispatch, work, goes_on, loop_round, noted,
  fuzzer_loop,
}
use coverage_guided_fuzzer.Fuzzer.Owned.{IsOwned}
use coverage_guided_fuzzer.Fuzzer.Prepare.{IsNew}
use coverage_guided_fuzzer.Fuzzer.Results.{IsMalloc}
use coverage_guided_fuzzer.Fuzzer.Phases.{process_phase, dispatch_phase}
use coverage_guided_fuzzer.Fuzzer.Signals.{Reacted, on_sigusr1-Reacted, on_sigchld-Reacted}

-- Each input is in one place; the jobs received and those that run are no more than were sent, and no
-- more are sent than asked for.
abbrev pub IsRun : ℕ → State → Type 0
IsRun target_total f =
    (q : InputQueue) × (s : Rings) × (rs : Runners) × (l : Lanes) × IsOwned f q s rs l
    × (f.jobs_received + (length l.active + length l.done) ≤ f.jobs_sent)
    × (f.jobs_sent ≤ target_total)

-- In every round the descriptors of the runners fit into an fd_set.
abbrev pub AllLow : List Answers → Type 0
AllLow [] = Unit {0}
AllLow (a ∷ as') = ((r : Ptr) → a.descriptor r < fd_setsize) × AllLow as'

module _ (alloc : Allocator) (nodes : IsMalloc alloc)
    (inputs : (m : Memory) → IsNew m (alloc.input_at m)) (target_total : ℕ) where
  reacted :
      (f : State) (q : InputQueue) (s : Rings) (rs : Runners) (l : Lanes) (f' : State)
      → f.jobs_received + (length l.active + length l.done) ≤ f.jobs_sent
      → f.jobs_sent ≤ target_total
      → Reacted f (length l.active + length l.done) f'
      → IsRun target_total f'
  reacted f q s rs l f' le total ((q', s', rs', l', v, few), received, sent) =
      (q', s', rs', l', v, omega (arith, le, few, received, sent), omega (arith, sent, total))

  drained :
      (a : Answers) (f : State)
      → IsRun target_total f
      → Returns
          (IsRun target_total)
          (process_results alloc a.report (count_of (λ rs. rs.done.count) f.runners + 1) f)
  drained a f (q, s, rs, l, v, le, total) =
      Returns-mono (process_phase alloc nodes a.report f q s rs l v)
        λ f' ((q', s', rs', w), received, sent, _).
          (q', s', rs', _, w, omega (arith, le, received, sent), omega (arith, sent, total))

  sent_out :
      (a : Answers) (f : State)
      → IsRun target_total f
      → Returns
          (IsRun target_total)
          (dispatch alloc a.sent target_total (count_of (λ rs. rs.ready.count) f.runners + 1) f)
  sent_out a f (q, s, rs, l, v, le, total) =
      Returns-mono (dispatch_phase alloc inputs a.sent target_total f q s rs l v)
        λ f' ((q', s', rs', l', w, sizes), received, bound, _).
          (q', s', rs', l', w, omega (arith, le, sizes, received), bound total)

  work-IsRun :
      (a : Answers) (f : State)
      → ((r : Ptr) → a.descriptor r < fd_setsize)
      → IsRun target_total f
      → Returns (IsRun target_total) (work alloc a target_total f)
  unfolding work
  work-IsRun a f low (q, s, rs, l, v, le, total) =
      Returns-bind (on_sigusr1-Reacted f q s rs l v a (λ r k. low r)) λ f1 out.
        Returns-bind (drained a f1 (reacted f q s rs l f1 le total out))
          λ f2 run2. sent_out a f2 run2

  pub loop_round-IsRun :
      (a : Answers) (f : State)
      → ((r : Ptr) → a.descriptor r < fd_setsize)
      → IsRun target_total f
      → Returns (IsRun target_total) (loop_round alloc a target_total f)
  unfolding loop_round
  loop_round-IsRun a f low (q, s, rs, l, v, le, total) =
      Returns-if (goes_on target_total f)
        (Returns-bind (on_sigchld-Reacted f q s rs l v a) λ f1 out.
          let run : IsRun target_total f1 = reacted f q s rs l f1 le total out in
          Returns-if f1.shutdown_req (returns run) (work-IsRun a f1 low run))
        (returns (q, s, rs, l, v, le, total))

  flagged-IsRun :
      (shutdown chld usr1 : Bool) (f : State)
      → IsRun target_total f
      → IsRun target_total
          (record f { shutdown_req = shutdown; sigchld_seen = chld; sigusr1_seen = usr1 })
  flagged-IsRun shutdown chld usr1 f (q, s, rs, l, v, le, total) = (
    q,
    s,
    rs,
    l,
    record {
      queue_is = v.queue_is;
      runners_is = v.runners_is;
      sound = v.sound;
      pool = v.pool;
      testing = v.testing;
      held = v.held;
    },
    le,
    total,
  )

  either-IsRun :
      (b : Bool) (f g : State)
      → IsRun target_total f
      → IsRun target_total g
      → IsRun target_total (if b then f else g)
  either-IsRun true f g v w = v
  either-IsRun false f g v w = w

  sighandler-IsRun :
      (n : ℕ) (f : State) → IsRun target_total f → IsRun target_total (helpr_fuzzer_sighandler n f)
  unfolding helpr_fuzzer_sighandler
  sighandler-IsRun n f run =
      either-IsRun _ _ _ (flagged-IsRun true f.sigchld_seen f.sigusr1_seen f run) (
        either-IsRun _ _ _ (flagged-IsRun f.shutdown_req true f.sigusr1_seen f run)
          (either-IsRun _ _ _ (flagged-IsRun f.shutdown_req f.sigchld_seen true f run) run))

  pub noted-IsRun :
      (ns : List ℕ) (f : State) → IsRun target_total f → IsRun target_total (noted ns f)
  unfolding noted
  noted-IsRun [] f run = run
  noted-IsRun (n ∷ ns) f run =
      noted-IsRun ns (helpr_fuzzer_sighandler n f) (sighandler-IsRun n f run)

-- With a malloc that answers NULL or memory that is not in use, and runners whose descriptors fit into
-- an fd_set, the loop of run_fuzzer never faults,
-- whatever signals come and whatever the system calls, the runners and malloc answer in each round: no
-- array is left, no input is used after it was freed or freed twice, and no fuel runs out. After any
-- number of rounds each input is still in one place: queued, or with one runner that is active or
-- done, in memory, well formed and of at most 1024 bytes; the pool is well-formed; the jobs received
-- and those of active and done runners are together no more than were sent, and no more are sent than
-- asked for.
pub fuzzer_loop-IsRun :
    (alloc : Allocator) (target_total : ℕ) (as' : List Answers) (f : State)
    → IsMalloc alloc
    → ((m : Memory) → IsNew m (alloc.input_at m))
    → AllLow as'
    → IsRun target_total f
    → Returns (IsRun target_total) (fuzzer_loop alloc target_total as' f)
unfolding fuzzer_loop
fuzzer_loop-IsRun alloc target_total [] f nodes inputs low run = returns run
fuzzer_loop-IsRun alloc target_total (a ∷ as') f nodes inputs low run =
    Returns-bind
      (loop_round-IsRun alloc nodes inputs target_total a (noted a.signals f) low.0
        (noted-IsRun alloc nodes inputs target_total a.signals f run))
      λ f' run'. fuzzer_loop-IsRun alloc target_total as' f' nodes inputs low.1 run'
