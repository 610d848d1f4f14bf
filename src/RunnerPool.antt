-- ===== src/RunnerPool.antt =====
-- The pool of runners, of fuzzer/src/runner.c: `struct runners` and its operations, over a heap of
-- runners. A RUNNER is an address. What the system calls answer is an argument. `none` is a fault.
pub mod Remove
pub mod Lanes
pub mod Setup
use coverage_guided_fuzzer.Prelude.{
  ℕ, zero, suc, ◌+◌, ◌-◌, Bool, true, false, ◌&&◌, Option, none, some, List, [], ◌∷◌, ltb, ◌==◌,
  if◌then◌else◌, get_elem?, ◌>>=◌,
}
use coverage_guided_fuzzer.Prelude.Int.{ℤ, pos, negsuc}
use coverage_guided_fuzzer.Memory.{Ptr, null, write}

-- An array of calloc and the count beside it.
pub record Slots : Type 0 where
  pub cells : List Ptr
  pub count : ℕ

-- `arr[i] = x`
unfoldable pub set_elem : List Ptr → ℕ → Ptr → Option (List Ptr)
set_elem [] i x = none
set_elem (a ∷ as') zero x = some (x ∷ as')
set_elem (a ∷ as') (suc i) x = do rest ← set_elem as' i x; some (a ∷ rest)

-- for(j; j < count; j++) arr[j - 1] = arr[j], on the rounds left; `i` is j - 1.
unfoldable pub shift : ℕ → ℕ → List Ptr → Option (List Ptr)
shift zero i arr = some arr
shift (suc n) i arr = do x ← get_elem? arr (suc i); arr' ← set_elem arr i x; shift n (suc i) arr'

-- The search of `helpr_remove_runner`, on the rounds left.
unfoldable pub remove_from : ℕ → ℕ → Ptr → Slots → Option Slots
remove_from zero i victim s = some s
remove_from (suc n) i victim s =
    let rest = remove_from n (suc i) victim s in
    let shifted = (do
      cells ← shift n i s.cells
      some (record { cells = cells; count = s.count - 1 })) in
    get_elem? s.cells i >>= λ r. if r == victim then shifted else rest

-- `helpr_remove_runner`
unfoldable pub helpr_remove_runner : Slots → Ptr → Option Slots
helpr_remove_runner s victim = remove_from s.count 0 victim s

-- `arr[count++] = r`
unfoldable pub put : Slots → Ptr → Option Slots
put s r = do
  cells ← set_elem s.cells s.count r
  some (record { cells = cells; count = s.count + 1 })

-- `struct runners`
pub record Runners : Type 0 where
  pub total_jobs : ℕ
  pub pool : Slots
  pub ready : Slots
  pub active : Slots
  pub done : Slots

-- The runners' `active_input`.
abbrev pub Inputs : Type 0
Inputs = Ptr → Option Ptr

-- `fuzzer_send_runner_input`; `sent` is whether both writes to the pipe succeed.
unfoldable pub fuzzer_send_runner_input : Bool → Ptr → Ptr → Inputs → ℤ × Inputs
fuzzer_send_runner_input sent runner input h =
    if runner == null
    then (negsuc 0, h)
    else if input == null
    then (negsuc 0, h)
    else if sent
    then (pos 0, write h runner (some input))
    else (negsuc 0, h)

abbrev pub succeeded : ℤ → Bool
succeeded (pos n) = true
succeeded (negsuc n) = false

-- `runners_submit_input` with a runner that is ready.
unfoldable pub submit : Bool → Runners → Ptr → Inputs → Option (ℤ × Runners × Inputs)
submit sent rs input h = do
  runner ← get_elem? rs.ready.cells 0
  ready ← helpr_remove_runner rs.ready runner
  let (res, h') = fuzzer_send_runner_input sent runner input h
  let rs' : Runners = record rs { ready = ready }
  let added = (do active ← put rs.active runner; some (pos 0, record rs' { active = active }, h'))
  if succeeded res then added else some (negsuc 0, rs', h')

-- `runners_submit_input`
unfoldable pub runners_submit_input :
    Bool → Option Runners → Ptr → Inputs → Option (ℤ × Option Runners × Inputs)
runners_submit_input sent none input h = some (negsuc 0, none, h)
runners_submit_input sent (some rs) input h =
    if rs.ready.count == 0
    then some (negsuc 0, some rs, h)
    else do (res, rs', h') ← submit sent rs input h; some (res, some rs', h')

-- The loop of `runners_check_if_jobs_done` after its select, with FD_ISSET of each runner's pipe.
unfoldable pub sweep : (Ptr → Bool) → ℕ → ℕ → Runners → Option Runners
sweep isset zero act_ind rs = none
sweep isset (suc fuel) act_ind rs =
    let passed = sweep isset fuel (suc act_ind) rs in
    let moved = λ (runner : Ptr). (do
      active ← helpr_remove_runner rs.active runner
      done ← put rs.done runner
      sweep isset fuel act_ind (record rs { active = active; done = done })) in
    let tested = (do
      runner ← get_elem? rs.active.cells act_ind
      if isset runner then moved runner else passed) in
    if ltb act_ind rs.active.count then tested else some rs

-- FD_SETSIZE: an fd_set has room for the descriptors below it.
abbrev pub fd_setsize : ℕ
fd_setsize = 1024

-- The loop of FD_SET in `runners_check_if_jobs_done`, on the rounds left; `fd` is the descriptor that
-- the fuzzer reads from each runner. FD_SET of another descriptor writes past the fd_set.
unfoldable pub set_fds : (Ptr → ℕ) → ℕ → ℕ → Slots → Option (Unit {0})
set_fds fd zero i active = some tt
set_fds fd (suc n) i active = do
  runner ← get_elem? active.cells i
  let rest = set_fds fd n (suc i) active
  if ltb (fd runner) fd_setsize then rest else none

-- `runners_check_if_jobs_done`; `ready_count` is what select returns.
unfoldable pub runners_check_if_jobs_done :
    (Ptr → ℕ) → ℤ → (Ptr → Bool) → Option Runners → Option (Option Runners)
runners_check_if_jobs_done fd ready_count isset none = some none
runners_check_if_jobs_done fd ready_count isset (some rs) =
    let selected =
      if is_positive ready_count
      then (do rs' ← sweep isset (rs.active.count + 1) 0 rs; some (some rs'))
      else some (some rs) in
    if rs.active.count == 0
    then some (some rs)
    else set_fds fd rs.active.count 0 rs.active >>= λ _. selected
  where
    is_positive : ℤ → Bool
    is_positive (pos n) = ltb 0 n
    is_positive (negsuc n) = false

-- `runners_process_result`, less the status, which the pipe of the runner answers.
unfoldable pub runners_process_result : Option Runners → Option (Ptr × Option Runners)
runners_process_result none = some (null, none)
runners_process_result (some rs) =
    let next = (do
      runner ← get_elem? rs.done.cells 0
      done ← helpr_remove_runner rs.done runner
      ready ← put rs.ready runner
      some (runner, some (record rs { done = done; ready = ready }))) in
    if rs.done.count == 0 then some (null, some rs) else next

-- The value of a comparison, an int.
abbrev truth : Bool → ℤ
truth true = pos 1
truth false = pos 0

unfoldable pub runners_has_jobs : Option Runners → ℤ
runners_has_jobs none = pos 0
runners_has_jobs (some rs) = truth (ltb 0 rs.pool.count)

unfoldable pub runners_has_active_jobs : Option Runners → ℤ
runners_has_active_jobs none = pos 0
runners_has_active_jobs (some rs) = truth (ltb 0 rs.active.count)

unfoldable pub runners_has_done_jobs : Option Runners → ℤ
runners_has_done_jobs none = pos 0
runners_has_done_jobs (some rs) = truth (ltb 0 rs.done.count)

unfoldable pub runners_has_ready_jobs : Option Runners → ℤ
runners_has_ready_jobs none = pos 0
runners_has_ready_jobs (some rs) = truth (ltb 0 rs.ready.count)

-- The four removals of `runners_reap`.
unfoldable pub bury : Runners → Ptr → Option Runners
bury rs r = do
  ready ← helpr_remove_runner rs.ready r
  active ← helpr_remove_runner rs.active r
  done ← helpr_remove_runner rs.done r
  pool ← helpr_remove_runner rs.pool r
  some (record {
    total_jobs = rs.total_jobs;
    pool = pool;
    ready = ready;
    active = active;
    done = done;
  })

-- What waitpid says of a runner's process.
pub data Wait : Type 0 where
  reaped : Wait
  failed : Wait
  running : Wait

-- The loop of `runners_reap` on fuel: `ret` so far, and the runners; `runner_fini` frees a runner.
unfoldable pub reap_from :
    (Ptr → Wait) → ℕ → ℕ → ℤ → Runners → Inputs → Option (ℤ × Runners × Inputs)
reap_from wait zero i ret rs h = none
reap_from wait (suc fuel) i ret rs h =
    let next : ℤ → Option (ℤ × Runners × Inputs) = λ ret'. reap_from wait fuel (suc i) ret' rs h in
    let dead : Ptr → Option (ℤ × Runners × Inputs) =
      λ r. (do rs' ← bury rs r; reap_from wait fuel i ret rs' (write h r none)) in
    let asked = (do
      r ← get_elem? rs.pool.cells i
      elim (wait r) [ reaped ↦ dead r | failed ↦ next (negsuc 0) | running ↦ next ret ]) in
    if ltb i rs.pool.count then asked else some (ret, rs, h)

-- `runners_reap`
unfoldable pub runners_reap :
    (Ptr → Wait) → Option Runners → Inputs → Option (ℤ × Option Runners × Inputs)
runners_reap wait none h = some (negsuc 0, none, h)
runners_reap wait (some rs) h = do
  (ret, rs', h') ← reap_from wait (rs.pool.count + 1) 0 (pos 0) rs h
  some (ret, some rs', h')
