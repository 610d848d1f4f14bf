-- ===== src/Tests/Child.antt =====
-- A runner process whose target, with process id 42, runs into the time limit.
use coverage_guided_fuzzer.Prelude.{refl, false, [], ◌∷◌}
use coverage_guided_fuzzer.Prelude.Int.{pos, negsuc}
use coverage_guided_fuzzer.Runner.{signaled}
use coverage_guided_fuzzer.Runner.Wait.{Flags, await_target}
use coverage_guided_fuzzer.Runner.Heard.{Awaited, until_end, await_target-Awaited}

abbrev pub none_seen : Flags
none_seen = record {
  sigterm_seen = false;
  sigalrm_seen = false;
  sigchld_seen = false;
  current_target_pid = negsuc 0;
}

-- The alarm comes, then the target ends, and a SIGTERM is left for later.
await_target-Awaited_example :
    Awaited
      (pos 42)
      (until_end ((14 ∷ []) ∷ (17 ∷ []) ∷ (15 ∷ []) ∷ []))
      (signaled 14)
      (await_target (pos 42) ((14 ∷ []) ∷ (17 ∷ []) ∷ (15 ∷ []) ∷ []) (signaled 14) none_seen)
await_target-Awaited_example =
    await_target-Awaited (pos 42) ((14 ∷ []) ∷ (17 ∷ []) ∷ (15 ∷ []) ∷ []) (signaled 14) none_seen
      refl
