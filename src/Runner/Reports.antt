-- ===== src/Runner/Reports.antt =====
-- What the fuzzer learns of a target that a runner ran.
use mathlib.Core.Path.{subst}
use coverage_guided_fuzzer.Prelude.{◌⊎◌}
use coverage_guided_fuzzer.Prelude.{
  ℕ, ◌≤◌, ◌<◌, ◌^◌, ◌≡◌, refl, sym, ap, if_same, if_true, if_false, ◌∙◌, inl, inr, Bool, true,
  false, ◌&&◌, Option, none, some, List, [], ◌∷◌, ◌==◌, if◌then◌else◌, arith, Bool-cases, Returns,
  Returns-mono,
}
use coverage_guided_fuzzer.Prelude.Int.{ℤ, pos, negsuc}
use coverage_guided_fuzzer.Pipe.{
  Reply, moved, RunnerState, runner_alert_fuzzer, fuzzer_attempt_receive_status,
}
use coverage_guided_fuzzer.Pipe.Bytes.{IsInt}
use coverage_guided_fuzzer.Pipe.Status.{reported, receive-alert}
use coverage_guided_fuzzer.Pipe.Transfer.{Moves}
use coverage_guided_fuzzer.Runner.{
  WaitStatus, exited, signaled, otherwise, final_status, target_args,
}
use coverage_guided_fuzzer.Runner.Wait.{Flags, Kill, await_target, wait_loop, delivered}
use coverage_guided_fuzzer.Runner.Loop.{Round, Job, still_waits, runner_loop}

-- The state and the data that the fuzzer is to learn; `before` is its `data` before.
abbrev pub verdict : Bool → WaitStatus → ℤ → ℤ × ℤ
verdict alarm (exited code) before = (pos 0, pos code)
verdict alarm (signaled s) before = if alarm && (s == 14) then (pos 2, before) else (pos 1, pos s)
verdict alarm otherwise before = (negsuc 0, pos 0)

-- Exit codes and signals are ints.
abbrev pub IsStatus : WaitStatus → Type 0
IsStatus (exited code) = code < 2 ^ 31
IsStatus (signaled s) = s < 2 ^ 31
IsStatus otherwise = Unit {0}

reported-final :
    (alarm : Bool) (status : WaitStatus) (before : ℤ)
    → let (state, x) = final_status alarm status in
      reported state x before ≡ verdict alarm status before
unfolding final_status
reported-final alarm (exited code) before = refl
reported-final alarm (signaled s) before = elim (Bool-cases (alarm && (s == 14))) [
  | inl e ↦ rw e
  | inr e ↦ rw e
]
reported-final alarm otherwise before = refl

final-IsInt :
    (alarm : Bool) (status : WaitStatus) → IsStatus status → IsInt (final_status alarm status).1
unfolding final_status
final-IsInt alarm (exited code) v = v
final-IsInt alarm (signaled s) v = elim (Bool-cases (alarm && (s == 14))) [
  | inl e ↦ rw e (omega arith)
  | inr e ↦ rw e v
]
final-IsInt alarm otherwise v = omega arith

-- However the target ends, what the runner reports of it through an empty pipe, whose writes bring no
-- error and move a byte often enough, and the fuzzer then reads in one read of 8 bytes or more, is: a
-- valid run with its exit code; a timeout, if the signal that killed the target is SIGALRM and the
-- runner's alarm has gone off; else a crash with the signal.
pub alert-verdict :
    (writes : List Reply) (killed : Bool) (k : ℕ) (alarm : Bool) (status : WaitStatus) (before : ℤ)
    → Moves 8 writes
    → 8 ≤ k
    → IsStatus status
    → let (state, x) = final_status alarm status in
      Returns
        (λ (res, pipe, rs).
          fuzzer_attempt_receive_status (moved k) before pipe ≡ (verdict alarm status before, []))
        (runner_alert_fuzzer writes killed state x [])
alert-verdict writes killed k alarm status before v h w =
    let (state, x) = final_status alarm status in
    Returns-mono (receive-alert writes killed k state x before v h (final-IsInt alarm status w))
      λ (res, pipe, rs) (_, same).
        same ∙ ap (λ (r : ℤ × ℤ). (r, [])) (reported-final alarm status before)

-- Each job has a report, or only the last has none.
abbrev pub OnlyLastUnreported : List Job → Type 0
OnlyLastUnreported [] = Unit {0}
OnlyLastUnreported (j ∷ []) = Unit {0}
OnlyLastUnreported (j ∷ k ∷ js) =
    ((s : RunnerState × ℤ) × (j.report ≡ some s)) × OnlyLastUnreported (k ∷ js)

runner_stops :
    (cmd : List ℕ) (args : List (List ℕ)) (f : Flags) (rs : List Round)
    → f.sigterm_seen ≡ true
    → runner_loop cmd args f rs ≡ []
unfolding runner_loop
runner_stops cmd args f [] e = refl
runner_stops cmd args f (r ∷ rs) e = if_true f.sigterm_seen [] _ e

waiting-stops :
    (f1 : Flags) (later : List Job)
    → f1.sigchld_seen ≡ false
    → (f1.sigterm_seen ≡ true → later ≡ [])
    → (if still_waits f1 then [] else later) ≡ []
waiting-stops f1 later c stops = elim (Bool-cases f1.sigterm_seen) [
  | inl t ↦
      ap (λ (js : List Job). if still_waits f1 then [] else js) (stops t) ∙ if_same (still_waits f1)
  | inr t ↦ if_true (still_waits f1) [] later (ground (arith, c, t))
]

-- The job is reported, or it is the last.
abbrev OnlyIfLast : List Job → Option (RunnerState × ℤ) × Flags × List Kill → Type 0
OnlyIfLast later (report, f1, kills) =
    (f1.sigterm_seen ≡ true → later ≡ [])
    → ((s : RunnerState × ℤ) × (report ≡ some s)) ⊎ ((if still_waits f1 then [] else later) ≡ [])

await-OnlyIfLast :
    (pid : ℤ) (wakes : List (List ℕ)) (status : WaitStatus) (f0 : Flags) (later : List Job)
    → OnlyIfLast later (await_target pid wakes status f0)
unfolding await_target
await-OnlyIfLast pid wakes status f0 later =
    let (f1, kills) =
      wait_loop wakes
        (record f0 { current_target_pid = pid; sigchld_seen = false; sigalrm_seen = false }) in
    elim (Bool-cases f1.sigchld_seen) [
      | inl e ↦
          subst (OnlyIfLast later) (sym (if_true f1.sigchld_seen _ _ e)) (λ stops. inl (_, refl))
      | inr e ↦
          subst (OnlyIfLast later) (sym (if_false f1.sigchld_seen _ _ e))
            (λ stops. inr (waiting-stops f1 later e stops))
    ]

first_reported :
    (j : Job) (js : List Job)
    → ((s : RunnerState × ℤ) × (j.report ≡ some s)) ⊎ (js ≡ [])
    → OnlyLastUnreported js
    → OnlyLastUnreported (j ∷ js)
first_reported j [] e v = tt
first_reported j (k ∷ js) (inl e) v = (e, v)
first_reported j (k ∷ js) (inr e) v = absurd cc

rest-reports :
    (b : Bool) (later : List Job)
    → OnlyLastUnreported later
    → OnlyLastUnreported (if b then [] else later)
rest-reports true later v = tt
rest-reports false later v = v

round-reports :
    (b b0 : Bool) (input : Option (List ℕ)) (argv : List ℕ → List (List ℕ))
    (report : Option (RunnerState × ℤ)) (js : List Job)
    → ((s : RunnerState × ℤ) × (report ≡ some s)) ⊎ (js ≡ [])
    → OnlyLastUnreported js
    → OnlyLastUnreported (
        if b then [] else elim input [
          | none ↦ []
          | some inp_str ↦ if b0 then [] else (record { argv = argv inp_str; report = report }) ∷ js
        ])
round-reports true b0 input argv report js e v = tt
round-reports false b0 none argv report js e v = tt
round-reports false true (some inp) argv report js e v = tt
round-reports false false (some inp) argv report js e v =
    first_reported (record { argv = argv inp; report = report }) js e v

-- In every history the runner reports each target that it ran, in order, but for the last one at most.
pub runner_loop-reports :
    (cmd : List ℕ) (args : List (List ℕ)) (f : Flags) (rs : List Round)
    → OnlyLastUnreported (runner_loop cmd args f rs)
unfolding runner_loop
runner_loop-reports cmd args f [] = tt
runner_loop-reports cmd args f (r ∷ rs) =
    let f0 : Flags = (delivered r.before f).0 in
    let (report, f1, kills) = await_target r.target_pid r.wakes r.wait_status f0 in
    let later : List Job = runner_loop cmd args f1 rs in
    round-reports f.sigterm_seen f0.sigterm_seen r.input (target_args cmd args) report
      (if still_waits f1 then [] else later)
      (await-OnlyIfLast r.target_pid r.wakes r.wait_status f0 later (runner_stops cmd args f1 rs))
      (rest-reports (still_waits f1) later (runner_loop-reports cmd args f1 rs))
