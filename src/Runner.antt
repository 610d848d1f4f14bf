-- ===== src/Runner.antt =====
-- The runner process of fuzzer/src/runner.c, in the child of `runner_launch`: it receives inputs, runs
-- the target on each, and reports how the target ended.
pub mod Wait
pub mod Heard
pub mod Loop
pub mod Reports
use coverage_guided_fuzzer.Prelude.{
  ℕ, Bool, true, false, ◌&&◌, ◌||◌, Option, none, some, List, [], ◌∷◌, map, ◌==◌, if◌then◌else◌,
}
use coverage_guided_fuzzer.Prelude.Int.{ℤ, pos, negsuc}
use coverage_guided_fuzzer.Prelude.Text.{codes}
use coverage_guided_fuzzer.CoverageMap.{same_bytes}
use coverage_guided_fuzzer.Pipe.{RunnerState, no_state, valid, crash, timeout}

-- `wait_status`: WIFEXITED with WEXITSTATUS, WIFSIGNALED with WTERMSIG, or neither.
pub data WaitStatus : Type 0 where
  exited : ℕ → WaitStatus
  signaled : ℕ → WaitStatus
  otherwise : WaitStatus

abbrev pub sigalrm : ℕ
sigalrm = 14

-- final_state and final_data
unfoldable pub final_status : Bool → WaitStatus → RunnerState × ℤ
final_status sigalrm_seen (exited code) = (valid, pos code)
final_status sigalrm_seen (signaled term_sig) =
    if sigalrm_seen && (term_sig == sigalrm) then (timeout, pos 0) else (crash, pos term_sig)
final_status sigalrm_seen otherwise = (no_state, pos 0)

-- target_args: the command, and its arguments with the input in place of each placeholder.
unfoldable pub target_args : List ℕ → List (List ℕ) → List ℕ → List (List ℕ)
target_args cmd args inp_str =
    cmd ∷ map (λ arg. if same_bytes arg (codes "@@") then inp_str else arg) args
