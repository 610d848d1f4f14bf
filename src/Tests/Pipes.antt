-- ===== src/Tests/Pipes.antt =====
-- Messages through the pipes, and the descriptors of two runners.
use coverage_guided_fuzzer.Prelude.{
  ℕ, ◌≡◌, refl, true, false, none, some, List, [], ◌∷◌, ◌==◌, if◌then◌else◌, arith, Returns,
}
use coverage_guided_fuzzer.Prelude.Int.{pos}
use coverage_guided_fuzzer.Prelude.Text.{codes, c_string}
use coverage_guided_fuzzer.Pipe.{
  Reply, interrupted, moved, crash, send_input, receive_input, runner_alert_fuzzer,
  fuzzer_attempt_receive_status,
}
use coverage_guided_fuzzer.Pipe.Input.{receive-send}
use coverage_guided_fuzzer.Pipe.Status.{reported, receive-alert}
use coverage_guided_fuzzer.Runner.{exited, signaled, final_status}
use coverage_guided_fuzzer.Runner.Loop.{Round, runner_loop}
use coverage_guided_fuzzer.Tests.Child.{none_seen}
use coverage_guided_fuzzer.Runner.Reports.{
  verdict, alert-verdict, OnlyLastUnreported, runner_loop-reports,
}
use coverage_guided_fuzzer.RunnerSetup.{
  Fds, Handles, Answers, runner_init, runner_launch, runner_fini, init_shared,
}
use coverage_guided_fuzzer.RunnerSetup.Leaks.{IsKernel, AllOrNothing, runner_init-AllOrNothing}
use coverage_guided_fuzzer.RunnerSetup.Reuse.{fini-closes_other}

-- The kernel interrupts the first call, and then moves three bytes each time.
abbrev by_three : List Reply
by_three =
    interrupted
    ∷ moved 3
    ∷ moved 3
    ∷ moved 3
    ∷ moved 3
    ∷ moved 3
    ∷ moved 3
    ∷ moved 3
    ∷ moved 3
    ∷ moved 3
    ∷ moved 3
    ∷ []

receive-send_example :
    Returns
      (λ (ok, pipe, rs).
        (ok ≡ true)
        × Returns
            (λ (buffer, pipe', rs').
              (pipe' ≡ [])
              × ((bytes : List ℕ) × (buffer ≡ some bytes) × (c_string bytes ≡ some (codes "ab"))))
            (receive_input by_three true pipe))
      (send_input by_three 2 (codes "ab") [])
receive-send_example =
    receive-send by_three by_three (codes "ab") (omega arith) (omega arith) (omega arith)
      (omega arith)

receive-alert_example :
    Returns
      (λ (res, pipe, rs).
        (res ≡ pos 0)
        × (fuzzer_attempt_receive_status (moved 8) (pos 7) pipe
            ≡ (reported crash (pos 11) (pos 7), [])))
      (runner_alert_fuzzer by_three true crash (pos 11) [])
receive-alert_example =
    receive-alert by_three true 8 crash (pos 11) (pos 7) (omega arith) (omega arith) (omega arith)

alert-verdict_example :
    Returns
      (λ (res, pipe, rs).
        fuzzer_attempt_receive_status (moved 8) (pos 0) pipe
        ≡ (verdict true (signaled 14) (pos 0), []))
      (runner_alert_fuzzer by_three true
        (final_status true (signaled 14)).0
        (final_status true (signaled 14)).1
        [])
alert-verdict_example =
    alert-verdict by_three true 8 true (signaled 14) (pos 0) (omega arith) (omega arith)
      (omega arith)

abbrev history : List Round
history =
    (record {
      before = [];
      input = some (codes "ab");
      target_pid = pos 42;
      wakes = (17 ∷ []) ∷ [];
      wait_status = exited 0;
    })
    ∷ (record {
      before = [];
      input = some (codes "cd");
      target_pid = pos 43;
      wakes = (14 ∷ []) ∷ (15 ∷ []) ∷ [];
      wait_status = signaled 9;
    })
    ∷ []

runner_loop-reports_example :
    OnlyLastUnreported (runner_loop (codes "prog") (codes "@@" ∷ []) none_seen history)
runner_loop-reports_example = runner_loop-reports (codes "prog") (codes "@@" ∷ []) none_seen history

-- Descriptors 0 to 2 are open.
abbrev standard : Fds
standard n = if n == 0 then true else if n == 1 then true else n == 2

abbrev no_shm : Answers
no_shm = record {
  granted = true;
  first_pipe = some (3, 4);
  second_pipe = some (5, 6);
  flags_read = true;
  shm = none;
  truncated = true;
  mapped = true;
}

no_shm-IsKernel : IsKernel no_shm standard
no_shm-IsKernel = record {
  first_new = (refl, refl, omega arith);
  second_new = (refl, refl, omega arith);
  shm_new = tt;
}

runner_init-AllOrNothing_example : AllOrNothing standard (runner_init no_shm standard)
runner_init-AllOrNothing_example = runner_init-AllOrNothing no_shm standard no_shm-IsKernel

abbrev earlier : Handles
earlier = record { pipe_f_to_r = (3, 4); pipe_r_to_f = (5, 6); shm_fdesc = 7 }

abbrev in_use : Fds
in_use n =
    if n == 7
    then true
    else if n == 6
    then true
    else if n == 5
    then true
    else if n == 4
    then true
    else if n == 3
    then true
    else standard n

-- The lowest descriptors that are free, as the kernel hands them out.
abbrev reusing : Answers
reusing = record {
  granted = true;
  first_pipe = some (3, 6);
  second_pipe = some (8, 9);
  flags_read = true;
  shm = some 10;
  truncated = true;
  mapped = true;
}

abbrev later : Handles
later = record { pipe_f_to_r = (3, 6); pipe_r_to_f = (8, 9); shm_fdesc = 10 }

reusing-IsKernel : IsKernel reusing (runner_launch earlier in_use)
unfolding runner_launch
reusing-IsKernel = record {
  first_new = (refl, refl, omega arith);
  second_new = (refl, refl, omega arith);
  shm_new = refl;
}

abbrev fds_after : Fds
fds_after = (runner_init reusing (runner_launch earlier in_use)).1

fini-closes_other_example :
    (runner_launch earlier in_use 6 ≡ false)
    × (fds_after 6 ≡ true)
    × (runner_fini earlier fds_after 6 ≡ false)
unfolding runner_init init_shared
fini-closes_other_example =
    fini-closes_other earlier later reusing in_use fds_after reusing-IsKernel refl refl
