-- ===== src/Runner/Wait.antt =====
-- The signals of the runner process of fuzzer/src/runner.c, and its wait for the target to end. All of
-- these signals are blocked but in pselect and in sigsuspend, which deliver those that have come.
use coverage_guided_fuzzer.Prelude.{
  ℕ, Bool, true, false, not, ◌&&◌, ◌||◌, Option, none, some, List, [], ◌∷◌, ◌++◌, ltb, ◌==◌,
  if◌then◌else◌,
}
use coverage_guided_fuzzer.Prelude.Int.{ℤ, pos, negsuc}
use coverage_guided_fuzzer.Pipe.{RunnerState}
use coverage_guided_fuzzer.Runner.{WaitStatus, final_status, sigalrm}

abbrev pub sighup : ℕ
sighup = 1

abbrev pub sigint : ℕ
sigint = 2

abbrev pub sigkill : ℕ
sigkill = 9

abbrev pub sigterm : ℕ
sigterm = 15

abbrev pub sigchld : ℕ
sigchld = 17

-- The static flags, and the process that signals are passed on to.
pub record Flags : Type 0 where
  pub sigterm_seen : Bool
  pub sigalrm_seen : Bool
  pub sigchld_seen : Bool
  pub current_target_pid : ℤ

-- A call of kill: the process and the signal.
abbrev pub Kill : Type 0
Kill = ℤ × ℕ

abbrev pub positive : ℤ → Bool
positive (pos n) = ltb 0 n
positive (negsuc n) = false

abbrev pub kill_target : ℤ → ℕ → List Kill
kill_target pid sig = if positive pid then (pid, sig) ∷ [] else []

-- `helpr_runner_sighandler`, with the calls of kill that it makes.
unfoldable pub helpr_runner_sighandler : ℕ → Flags → Flags × List Kill
helpr_runner_sighandler sig_num f =
    if (sig_num == sigterm) || (sig_num == sigint) || (sig_num == sighup)
    then (record f { sigterm_seen = true }, kill_target f.current_target_pid sigkill)
    else if sig_num == sigalrm
    then (record f { sigalrm_seen = true }, kill_target f.current_target_pid sigalrm)
    else if sig_num == sigchld
    then (record f { sigchld_seen = true }, [])
    else (f, [])

-- One pselect or sigsuspend, in which these signals are delivered.
unfoldable pub delivered : List ℕ → Flags → Flags × List Kill
delivered [] f = (f, [])
delivered (n ∷ ns) f =
    let (f1, kills) = helpr_runner_sighandler n f in
    let (f2, more) = delivered ns f1 in (f2, kills ++ more)

-- `while(!sigchld_seen && !sigterm_seen) sigsuspend(&empty_smask)`, over what each sigsuspend delivers.
unfoldable pub wait_loop : List (List ℕ) → Flags → Flags × List Kill
wait_loop [] f = (f, [])
wait_loop (ns ∷ wakes) f =
    let (f1, kills) = delivered ns f in
    let (f2, more) = wait_loop wakes f1 in
    if not f.sigchld_seen && not f.sigterm_seen then (f2, kills ++ more) else (f, [])

-- From the fork of a target to the report of its end: what is reported, if the target ended, the flags
-- and the calls of kill.
unfoldable pub await_target :
    ℤ → List (List ℕ) → WaitStatus → Flags → Option (RunnerState × ℤ) × Flags × List Kill
await_target target_pid wakes wait_status f =
    let (f1, kills) =
      wait_loop wakes (record f {
        current_target_pid = target_pid;
        sigchld_seen = false;
        sigalrm_seen = false;
      }) in
    if f1.sigchld_seen
    then (
      some (final_status f1.sigalrm_seen wait_status),
      record f1 { current_target_pid = negsuc 0 },
      kills,
    )
    else (none, f1, kills)
