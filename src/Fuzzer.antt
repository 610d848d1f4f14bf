-- ===== src/Fuzzer.antt =====
-- The loop of `run_fuzzer`, of fuzzer/src/fuzzer.c, over the heap, the queue, the coverage map and the
-- pool. The answers of the system calls and of malloc, and the signals that come, are arguments.
pub mod Seeds
pub mod Idle
pub mod Owned
pub mod Prepare
pub mod Moved
pub mod Submission
pub mod Dispatch
pub mod Delivery
pub mod Results
pub mod Phases
pub mod Signals
pub mod Round
pub mod Start
pub mod Run
pub mod Progress
use coverage_guided_fuzzer.Prelude.{
  ℕ, zero, suc, ◌+◌, Bool, true, false, not, ◌&&◌, ◌||◌, Option, none, some, List, [], ◌∷◌, ltb,
  leb, ◌==◌, if◌then◌else◌, ◌>>=◌,
}
use coverage_guided_fuzzer.Prelude.Int.{ℤ, pos, negsuc}
use coverage_guided_fuzzer.Input.{Input, Grants, make_input, input_state_step}
use coverage_guided_fuzzer.CoverageMap.{
  Priority, no_prio, low_prio, high_prio, CoverageMap, coverage_map_add,
}
use coverage_guided_fuzzer.Mutator.{mutate}
use coverage_guided_fuzzer.Memory.{Ptr, null, Memory, write, free_input}
use coverage_guided_fuzzer.InputQueue.{
  InputQueue, enqueue_high_prio_input, enqueue_low_prio_input, dequeue_input,
}
use coverage_guided_fuzzer.Runner.Wait.{sighup, sigint, sigterm, sigchld}
use coverage_guided_fuzzer.RunnerPool.{
  Inputs, Runners, Wait, runners_submit_input, runners_has_jobs, runners_has_active_jobs,
  runners_has_done_jobs, runners_has_ready_jobs, runners_check_if_jobs_done, runners_process_result,
  runners_reap,
}

-- The three objects, the heap, the active inputs of the runners, and the locals and flags.
pub record State : Type 0 where
  pub memory : Memory
  pub queue : Option InputQueue
  pub coverage_map : Option CoverageMap
  pub runners : Option Runners
  pub active_inputs : Inputs
  pub jobs_sent : ℕ
  pub jobs_received : ℕ
  pub shutdown_req : Bool
  pub sigchld_seen : Bool
  pub sigusr1_seen : Bool

-- What malloc answers: the addresses for a queue node and for an input, NULL if it refuses.
pub record Allocator : Type 0 where
  pub node_at : Memory → Ptr
  pub input_at : Memory → Ptr

-- What comes of one runner: the state that its pipe gives, the coverage in its shared memory, and
-- whether malloc grants a node of the hashset.
pub record Report : Type 0 where
  pub state : ℤ
  pub coverage : List ℕ
  pub granted : Bool

-- What comes from outside in one round of the loop: the signals since the last, the answers of waitpid
-- and select, the reports, and whether the writes to a runner succeed.
pub record Answers : Type 0 where
  pub signals : List ℕ
  pub wait : Ptr → Wait
  pub descriptor : Ptr → ℕ
  pub selected : ℤ
  pub isset : Ptr → Bool
  pub report : Ptr → Report
  pub sent : Ptr → Bool

abbrev pub holds : ℤ → Bool
holds (pos n) = not (n == 0)
holds (negsuc n) = true

-- `runner_get_active_input`
unfoldable pub runner_get_active_input : Ptr → Inputs → Ptr
runner_get_active_input runner h =
    if runner == null then null else elim (h runner) [ none ↦ null | some i ↦ i ]

-- The result of a run that ended normally.
unfoldable pub handle_valid : Allocator → Report → Ptr → State → Option State
handle_valid alloc r tested f =
    let (priority, map) = coverage_map_add r.granted f.coverage_map (some r.coverage) in
    elim priority [
      | no_prio ↦ (do
        (_, m) ← free_input tested f.memory
        some (record f { memory = m; coverage_map = map }))
      | low_prio ↦ (do
        (q, m) ← enqueue_low_prio_input (alloc.node_at f.memory) f.queue tested f.memory
        some (record f { memory = m; queue = q; coverage_map = map }))
      | high_prio ↦ (do
        (q, m) ← enqueue_high_prio_input (alloc.node_at f.memory) f.queue tested f.memory
        some (record f { memory = m; queue = q; coverage_map = map }))
    ]

-- The result of a run: VALID, CRASH and TIMEOUT are 0, 1 and 2.
unfoldable pub handle_result : Allocator → Report → Ptr → State → Option State
handle_result alloc r tested f =
    let valid = handle_valid alloc r tested f in
    let freed = (do (_, m) ← free_input tested f.memory; some (record f { memory = m })) in
    elim r.state [
      | pos n ↦ if n == 0 then valid else if n == 1 then freed else if n == 2 then freed else some f
      | negsuc n ↦ some f
    ]

-- `while(runners_has_done_jobs(runners))`, on fuel.
unfoldable pub process_results : Allocator → (Ptr → Report) → ℕ → State → Option State
process_results alloc report zero f = none
process_results alloc report (suc fuel) f =
    let round = (do
      (runner, rs) ← runners_process_result f.runners
      f' ←
          handle_result alloc (report runner) (runner_get_active_input runner f.active_inputs)
            (record f { runners = rs })
      process_results alloc report fuel (record f' { jobs_received = f'.jobs_received + 1 })) in
    if holds (runners_has_done_jobs f.runners) then round else some f

-- The input that is to be sent: a copy of `inp` in state 0, else a mutant of it.
unfoldable pub next_input : Grants → Option Input → Option (Option Input × Option Input)
next_input g none = none
next_input g (some x) =
    if x.state == 0
    then some (make_input g (some x.str), (input_state_step (some x)).1)
    else mutate g (some x)

abbrev pub grants_at : Ptr → Grants
grants_at p = let b = not (p == null) in record { struct_granted = b; copy_granted = b }

-- A new input is stored at malloc's address.
abbrev pub store_input : Ptr → Option Input → Memory → Ptr × Memory
store_input p none m = (null, m)
store_input p (some x) m = (p, record m { inputs = write m.inputs p (some x) })

unfoldable pub prepare : Allocator → Ptr → Memory → Option (Ptr × Memory)
prepare alloc inp m =
    let p : Ptr = alloc.input_at m in
    next_input (grants_at p) (m.inputs inp) >>= λ (to_send, stepped).
    some (store_input p to_send (record m { inputs = write m.inputs inp stepped }))

-- One round of the dispatch loop: whether an input was sent.
unfoldable pub dispatch_one : Allocator → (Ptr → Bool) → State → Option (Bool × State)
dispatch_one alloc sent f = dequeue_input f.queue f.memory >>= λ ((inp, q), m).
    let f1 : State = record f { queue = q; memory = m } in
    let chosen = (do
      (to_send, m1) ← prepare alloc inp m
      (res, rs, h) ← runners_submit_input (sent to_send) f.runners to_send f.active_inputs
      let f2 : State = record f1 { memory = m1; runners = rs; active_inputs = h }
      let dropped = (do (_, m2) ← free_input to_send m1; some (false, record f2 { memory = m2 }))
      if holds res then dropped else some (true, record f2 { jobs_sent = f2.jobs_sent + 1 })) in
    if inp == null then some (false, f1) else chosen

-- `while(runners_has_ready_jobs(runners) && jobs_sent < target_total)`, on fuel.
unfoldable pub dispatch : Allocator → (Ptr → Bool) → ℕ → ℕ → State → Option State
dispatch alloc sent target_total zero f = none
dispatch alloc sent target_total (suc fuel) f =
    let round = (do
      (more, f') ← dispatch_one alloc sent f
      let rest = dispatch alloc sent target_total fuel f'
      if more then rest else some f') in
    if holds (runners_has_ready_jobs f.runners) && ltb f.jobs_sent target_total
    then round
    else some f

abbrev pub count_of : (Runners → ℕ) → Option Runners → ℕ
count_of c none = 0
count_of c (some rs) = c rs

abbrev pub sigusr1 : ℕ
sigusr1 = 10

-- `helpr_fuzzer_sighandler`
unfoldable pub helpr_fuzzer_sighandler : ℕ → State → State
helpr_fuzzer_sighandler sig_num f =
    if (sig_num == sigint) || (sig_num == sigterm) || (sig_num == sighup)
    then record f { shutdown_req = true }
    else if sig_num == sigchld
    then record f { sigchld_seen = true }
    else if sig_num == sigusr1
    then record f { sigusr1_seen = true }
    else f

-- The signals that have come are noted.
unfoldable pub noted : List ℕ → State → State
noted [] f = f
noted (n ∷ ns) f = noted ns (helpr_fuzzer_sighandler n f)

-- The reaction to SIGCHLD.
unfoldable pub on_sigchld : Answers → State → Option State
on_sigchld a f =
    let reaped = (do
      (_, rs, h) ← runners_reap a.wait f.runners f.active_inputs
      let gone : Bool = not (holds (runners_has_jobs rs))
      some (record f {
        runners = rs;
        active_inputs = h;
        sigchld_seen = false;
        shutdown_req = if gone then true else f.shutdown_req;
      })) in
    if f.sigchld_seen then reaped else some f

-- The reaction to SIGUSR1.
unfoldable pub on_sigusr1 : Answers → State → Option State
on_sigusr1 a f =
    let checked = (do
      rs ← runners_check_if_jobs_done a.descriptor a.selected a.isset f.runners
      some (record f { runners = rs; sigusr1_seen = false })) in
    if f.sigusr1_seen then checked else some f

-- The rest of a round.
unfoldable pub work : Allocator → Answers → ℕ → State → Option State
work alloc a target_total f = do
  f1 ← on_sigusr1 a f
  f2 ← process_results alloc a.report (count_of (λ rs. rs.done.count) f1.runners + 1) f1
  dispatch alloc a.sent target_total (count_of (λ rs. rs.ready.count) f2.runners + 1) f2

-- The condition of the loop in run_fuzzer.
unfoldable pub goes_on : ℕ → State → Bool
goes_on target_total f = not f.shutdown_req && ltb f.jobs_received target_total

-- One round of the loop in run_fuzzer, up to its sigsuspend.
unfoldable pub loop_round : Allocator → Answers → ℕ → State → Option State
loop_round alloc a target_total f =
    let round = (do
      f1 ← on_sigchld a f
      let worked = work alloc a target_total f1
      if f1.shutdown_req then some f1 else worked) in
    if goes_on target_total f then round else some f

-- Whether the round ends with sigsuspend.
unfoldable pub sleeps : ℕ → State → Bool
sleeps target_total f =
    not (leb target_total f.jobs_received)
    && not f.sigchld_seen
    && not f.sigusr1_seen
    && holds (runners_has_active_jobs f.runners)
    && not f.shutdown_req

-- The loop, over what comes in each round.
unfoldable pub fuzzer_loop : Allocator → ℕ → List Answers → State → Option State
fuzzer_loop alloc target_total [] f = some f
fuzzer_loop alloc target_total (a ∷ as') f =
    loop_round alloc a target_total (noted a.signals f) >>= fuzzer_loop alloc target_total as'
