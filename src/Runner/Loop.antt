-- ===== src/Runner/Loop.antt =====
-- The loop of the runner process, in the child of `runner_launch` of fuzzer/src/runner.c.
use coverage_guided_fuzzer.Prelude.{
  ℕ, Bool, not, ◌&&◌, Option, none, some, List, [], ◌∷◌, if◌then◌else◌,
}
use coverage_guided_fuzzer.Prelude.Int.{ℤ}
use coverage_guided_fuzzer.Pipe.{RunnerState}
use coverage_guided_fuzzer.Runner.{WaitStatus, target_args}
use coverage_guided_fuzzer.Runner.Wait.{Flags, delivered, await_target}

-- What happens in one round of the loop: the signals that are delivered while the runner waits for an
-- input, the input that it receives, if any, what fork answers, the signals that each sigsuspend
-- delivers, and what waitpid says of the target.
pub record Round : Type 0 where
  pub before : List ℕ
  pub input : Option (List ℕ)
  pub target_pid : ℤ
  pub wakes : List (List ℕ)
  pub wait_status : WaitStatus

-- A target that was run, and the status that was reported.
pub record Job : Type 0 where
  pub argv : List (List ℕ)
  pub report : Option (RunnerState × ℤ)

-- The runner is still in the loop around sigsuspend.
abbrev pub still_waits : Flags → Bool
still_waits f = not f.sigchld_seen && not f.sigterm_seen

-- The loop over the rounds to come.
unfoldable pub runner_loop : List ℕ → List (List ℕ) → Flags → List Round → List Job
runner_loop cmd args f [] = []
runner_loop cmd args f (r ∷ rs) =
    let f0 : Flags = (delivered r.before f).0 in
    let (report, f1, kills) = await_target r.target_pid r.wakes r.wait_status f0 in
    let later = runner_loop cmd args f1 rs in
    if f.sigterm_seen then [] else elim r.input [
      | none ↦ []
      | some inp_str ↦
          if f0.sigterm_seen
          then []
          else (record { argv = target_args cmd args inp_str; report = report })
            ∷ (if still_waits f1 then [] else later)
    ]
