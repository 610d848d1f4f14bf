-- ===== src/Fuzzer/Run.antt =====
-- The whole of `run_fuzzer`, of fuzzer/src/fuzzer.c.
use coverage_guided_fuzzer.RunnerPool.Lanes.{AreHeld}
use coverage_guided_fuzzer.RunnerPool.Lanes.{lanes}
use coverage_guided_fuzzer.RunnerPool.Lanes.{IsRunners}
use mathlib.Core.Path.{subst}
use coverage_guided_fuzzer.Prelude.{
  ℕ, ◌+◌, ◌<◌, ◌^◌, ltb, length, arith, ◌≡◌, refl, sym, ap, ◌∙◌, ◌⊎◌, Returns-some, inl, inr, Bool,
  true, false, Option, none, some, List, [], ◌++◌, if◌then◌else◌, Bool-cases, Returns, returns,
  Returns-bind, ◌>>=◌,
}
use coverage_guided_fuzzer.CoverageMap.{CoverageMap, coverage_map_init}
use coverage_guided_fuzzer.Memory.{Ptr, Memory}
use coverage_guided_fuzzer.InputQueue.{InputQueue, input_queue_init, input_queue_fini}
use coverage_guided_fuzzer.InputQueue.Spec.{Rings}
use coverage_guided_fuzzer.InputQueue.Sound.{IsSound}
use coverage_guided_fuzzer.InputQueue.Finish.{IsFreed, input_queue_fini-IsFreed}
use coverage_guided_fuzzer.RunnerPool.{Inputs, Runners}
use coverage_guided_fuzzer.RunnerPool.Setup.{Callocs, runners_init, runners_fini}
use coverage_guided_fuzzer.RunnerPool.Setup.Pool.{
  grants, made_runners, AreNew, runners_init-Started, runners_fini-Freed,
}
use coverage_guided_fuzzer.Fuzzer.{State, Allocator, Answers, goes_on, fuzzer_loop}
use coverage_guided_fuzzer.Fuzzer.Seeds.{start}
use coverage_guided_fuzzer.Fuzzer.Prepare.{IsNew}
use coverage_guided_fuzzer.Fuzzer.Results.{IsMalloc}
use coverage_guided_fuzzer.Fuzzer.Round.{AllLow, IsRun, fuzzer_loop-IsRun}
use coverage_guided_fuzzer.Fuzzer.Start.{AreShort, start-IsRun}

-- What has become of the call: it returned -1, it is in its loop, or it returned 0.
pub data Outcome : Type 0 where
  refused : Memory → Inputs → Outcome
  in_loop : State → Outcome
  returned : Memory → Inputs → Outcome

-- The end of `run_fuzzer`, once its loop has ended.
unfoldable pub finish : ℕ → State → Option Outcome
finish target_total f =
    let ended = (do
      h ← runners_fini f.runners f.active_inputs
      (_, m) ← input_queue_fini f.queue f.memory
      some (returned m h)) in
    if goes_on target_total f then some (in_loop f) else ended

-- `input_count + num_seeds`, which faults where an int overflows.
unfoldable pub total_of : ℕ → ℕ → Option ℕ
total_of input_count num_seeds =
    let total : ℕ = input_count + num_seeds in if ltb total (2 ^ 31) then some total else none

total_of-some :
    (input_count num_seeds : ℕ)
    → input_count + num_seeds < 2 ^ 31
    → total_of input_count num_seeds ≡ some (input_count + num_seeds)
unfolding total_of
total_of-some input_count num_seeds small = ground (arith, small)

-- The continuation of `run_fuzzer` once the seeds are read.
abbrev looped :
    Allocator → Option ℕ → List Answers → Memory → Inputs → Option State → Option Outcome
looped alloc total as' m0 h none = some (refused m0 h)
looped alloc total as' m0 h (some f) = do
  target_total ← total
  f' ← fuzzer_loop alloc target_total as' f
  finish target_total f'

-- What malloc and calloc answer for the three objects and the arrays, and what `runner_init` returns.
pub record Beginning : Type 0 where
  pub queue_granted : Bool
  pub map_granted : Bool
  pub callocs : Callocs
  pub made : ℕ → Ptr

-- `run_fuzzer`, over the rounds of its loop so far.
unfoldable pub run_fuzzer :
    Allocator → Beginning → ℕ → ℕ → List (List ℕ) → List Answers → Inputs → Memory → Option Outcome
run_fuzzer alloc b job_count input_count lines as' h0 m0 = do
  (runners, h) ← runners_init b.callocs b.made job_count h0
  started ←
      start alloc (input_queue_init b.queue_granted) (coverage_map_init b.map_granted) runners lines
        h m0
  looped alloc (total_of input_count (length lines)) as' m0 h started

-- The state in which the loop of `run_fuzzer` stands after these rounds.
unfoldable pub reached :
    Allocator → Beginning → ℕ → ℕ → List (List ℕ) → List Answers → Inputs → Memory → Option State
reached alloc b job_count input_count lines as' h0 m0 = do
  (runners, h) ← runners_init b.callocs b.made job_count h0
  started ←
      start alloc (input_queue_init b.queue_granted) (coverage_map_init b.map_granted) runners lines
        h m0
  f ← started
  target_total ← total_of input_count (length lines)
  fuzzer_loop alloc target_total as' f

-- One of the three objects was refused. The heap is as it was, and the runners that were made are still
-- there.
abbrev pub IsRefused : Beginning → ℕ → Memory → Memory → Inputs → Type 0
IsRefused b job_count m0 m h =
    ((b.queue_granted ≡ false) ⊎ ((b.map_granted ≡ false) ⊎ (b.callocs.object ≡ false)))
    × (m ≡ m0)
    × AreHeld h (if b.callocs.object then made_runners b.made job_count 0 else [])

-- From the state in which the loop has ended: the nodes of its queue and the inputs in them are freed,
-- and so is every runner.
abbrev pub IsReturned : ℕ → State → Memory → Inputs → Type 0
IsReturned target_total f m h =
    (goes_on target_total f ≡ false)
    × ((q : InputQueue) × (s : Rings) × (f.queue ≡ some q)
        × IsSound f.memory q s
        × IsFreed f.memory (s.high ++ s.low) m)
    × ((r : Ptr) → h r ≡ none)

abbrev pub IsOutcome : (State → Type 0) → (Memory → Inputs → Type 0) → ℕ → Outcome → Type 0
IsOutcome Reached Refused target_total (refused m h) = Refused m h
IsOutcome Reached Refused target_total (in_loop f) =
    Reached f × (goes_on target_total f ≡ true) × IsRun target_total f
IsOutcome Reached Refused target_total (returned m h) =
    (f : State) × Reached f × IsReturned target_total f m h

finish-IsOutcome :
    (Reached : State → Type 0) (Refused : Memory → Inputs → Type 0) (target_total : ℕ) (f : State)
    → Reached f
    → IsRun target_total f
    → Returns (IsOutcome Reached Refused target_total) (finish target_total f)
unfolding finish
finish-IsOutcome Reached Refused target_total f there (q, s, rs, l, v, le, total) =
    elim (Bool-cases (goes_on target_total f)) [
      | inl e ↦ rw e (returns (there, e, (q, s, rs, l, v, le, total)))
      | inr e ↦ rw e (
          Returns-bind
            (subst (λ o. Returns (λ h. (r : Ptr) → h r ≡ none) (runners_fini o f.active_inputs))
              (sym v.runners_is) (runners_fini-Freed rs l f.active_inputs v.pool v.held))
            λ h gone.
              Returns-bind
                (subst
                  (λ o.
                    Returns (λ (u, m). IsFreed f.memory (s.high ++ s.low) m)
                      (input_queue_fini o f.memory))
                  (sym v.queue_is) (input_queue_fini-IsFreed f.memory q s v.sound))
                λ (u, m) freed. returns (f, there, (e, (q, s, v.queue_is, v.sound, freed), gone)))
    ]

no_pool :
    (made : ℕ → Ptr) (job_count : ℕ) (h : Inputs)
    → runners_init (grants false) made job_count h ≡ some (none, h)
unfolding runners_init
no_pool made job_count h = refl

no_runners :
    (alloc : Allocator) (lines : List (List ℕ)) (m : Memory) (q : Option InputQueue)
    (c : Option CoverageMap) (h : Inputs)
    → start alloc q c none lines h m ≡ some none
unfolding start
no_runners alloc lines m none c h = refl
no_runners alloc lines m (some q) none h = refl
no_runners alloc lines m (some q) (some c) h = refl

module _ (alloc : Allocator) (b : Beginning) (job_count input_count : ℕ) (lines : List (List ℕ))
    (as' : List Answers) (h0 : Inputs) (m : Memory) (runners : Option Runners) (h : Inputs)
    (made : runners_init b.callocs b.made job_count h0 ≡ some (runners, h)) where
  abbrev begun : Option (Option State)
  begun =
      start alloc (input_queue_init b.queue_granted) (coverage_map_init b.map_granted) runners lines
        h m

  run_fuzzer-refused :
      begun ≡ some none
      → run_fuzzer alloc b job_count input_count lines as' h0 m ≡ some (refused m h)
  unfolding run_fuzzer
  run_fuzzer-refused e = rw (made, e) refl

  module _ (f f' : State) (target_total : ℕ) (e : begun ≡ some (some f))
      (counted : total_of input_count (length lines) ≡ some target_total)
      (looped_to : fuzzer_loop alloc target_total as' f ≡ some f') where
    run_fuzzer-finish :
        run_fuzzer alloc b job_count input_count lines as' h0 m ≡ finish target_total f'
    unfolding run_fuzzer
    run_fuzzer-finish = rw (made, e, counted, looped_to) refl

    reached-some : reached alloc b job_count input_count lines as' h0 m ≡ some f'
    unfolding reached
    reached-some = rw (made, e, counted, looped_to) refl

-- The start of the loop, if the pool is there.
start-cases :
    (alloc : Allocator) (target_total : ℕ) (nodes : IsMalloc alloc)
    (inputs : (m : Memory) → IsNew m (alloc.input_at m)) (lines : List (List ℕ))
    (short : AreShort lines) (m : Memory) (queue_granted map_granted : Bool) (rs : Runners)
    (xs : List Ptr) (h : Inputs)
    → IsRunners rs (lanes xs xs [] [])
    → AreHeld h xs
    → let started =
        start alloc
          (input_queue_init queue_granted)
          (coverage_map_init map_granted)
          (some rs)
          lines
          h
          m in
      ((started ≡ some none) × ((queue_granted ≡ false) ⊎ (map_granted ≡ false)))
      ⊎ ((f : State) × (started ≡ some (some f)) × IsRun target_total f)
unfolding start input_queue_init coverage_map_init
start-cases alloc target_total nodes inputs lines short m false map_granted rs xs h v held =
    inl (refl, inl refl)
start-cases alloc target_total nodes inputs lines short m true false rs xs h v held =
    inl (refl, inr refl)
start-cases alloc target_total nodes inputs lines short m true true rs xs h v held =
    let (o, e, (f, is_f, run)) =
      Returns-some
        (start-IsRun alloc target_total lines _ rs xs xs h m nodes inputs short v held) in
    inr (f, e ∙ ap some is_f, run)

-- Take a malloc that answers NULL or memory that is not in use, a seed file whose lines have strings
-- of at most 1024 bytes, a calloc that grants the arrays of the pool, a runner_init that returns NULL
-- or a runner that it has not returned before, an empty heap of runners, runners whose descriptors are
-- below FD_SETSIZE in every round, and a sum of the input count and the seeds that is an int. Whatever
-- signals come and whatever malloc, the system calls and the runners answer otherwise, `run_fuzzer`
-- never faults. Either it returns -1; then the queue, the coverage map or the pool was refused, no
-- node and no input has changed, and the runners that were made, if the pool was granted, are still in
-- memory. Or it is in its loop, in the state that its rounds lead to, where the condition and the
-- invariant of the loop hold. Or the condition is false in the state that its rounds lead to, and it
-- returns 0; then every node of the queue of that state and every input in it has been freed, each of
-- them once, all other nodes and inputs are as in that state, and every runner has been freed.
pub run_fuzzer-IsOutcome :
    (alloc : Allocator) (b : Beginning) (object : Bool) (job_count input_count : ℕ)
    (lines : List (List ℕ)) (as' : List Answers) (h : Inputs) (m : Memory)
    → IsMalloc alloc
    → ((m : Memory) → IsNew m (alloc.input_at m))
    → AreShort lines
    → b.callocs ≡ grants object
    → AreNew b.made
    → ((r : Ptr) → h r ≡ none)
    → AllLow as'
    → input_count + length lines < 2 ^ 31
    → Returns
        (IsOutcome
          (λ f. reached alloc b job_count input_count lines as' h m ≡ some f)
          (IsRefused b job_count m)
          (input_count + length lines))
        (run_fuzzer alloc b job_count input_count lines as' h m)
run_fuzzer-IsOutcome alloc b false job_count input_count lines as' h m nodes inputs short granted
      new unused low small =
    let none_made : runners_init b.callocs b.made job_count h ≡ some (none, h) =
      rw granted (no_pool b.made job_count h) in
    let returned_at_once =
      run_fuzzer-refused alloc b job_count input_count lines as' h m none h none_made (
        no_runners alloc lines m (input_queue_init b.queue_granted)
          (coverage_map_init b.map_granted) h) in
    subst (Returns _) (sym returned_at_once) (
      returns (
        inr (inr (ap (λ (c : Callocs). c.object) granted)),
        refl,
        rw granted (record { alive = λ r k. absurd (omega (arith, k)); gone = λ r k. unused r }),
      ))
run_fuzzer-IsOutcome alloc b true job_count input_count lines as' h m nodes inputs short granted new
      unused low small =
    let total : ℕ = input_count + length lines in
    let ((ors, h'), e, (rs, is_some, (pool, held, size))) =
      Returns-some (runners_init-Started b.made job_count h new unused) in
    let made : runners_init b.callocs b.made job_count h ≡ some (some rs, h') =
      rw granted (e ∙ ap (λ (o : Option Runners). some (o, h')) is_some) in
    elim (start-cases alloc total nodes inputs lines short m b.queue_granted b.map_granted rs
      (made_runners b.made job_count 0) h' pool held) [
        | inl (none_started, cause) ↦
            subst (Returns _)
              (sym (
                run_fuzzer-refused alloc b job_count input_count lines as' h m (some rs) h' made
                  none_started))
              (returns (elim cause [ inl q ↦ inl q | inr c ↦ inr (inl c) ], refl, rw granted held))
        | inr (f, started, run) ↦
            let (f', looped_to, run') =
              Returns-some (fuzzer_loop-IsRun alloc total as' f nodes inputs low run) in
            let counted = total_of-some input_count (length lines) small in
            subst (Returns _)
              (sym (
                run_fuzzer-finish alloc b job_count input_count lines as' h m (some rs) h' made f f'
                  total started counted looped_to))
              (finish-IsOutcome _ _ total f'
                (reached-some alloc b job_count input_count lines as' h m (some rs) h' made f f'
                  total started counted looped_to)
                run')
      ]
