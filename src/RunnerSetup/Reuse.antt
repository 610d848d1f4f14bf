-- ===== src/RunnerSetup/Reuse.antt =====
-- `runner_fini` closes descriptors that `runner_launch` has closed already.
use mathlib.Core.Path.{subst}
use coverage_guided_fuzzer.Prelude.{ℕ, ◌≡◌, true, false, some, if◌then◌else◌, arith}
use coverage_guided_fuzzer.RunnerSetup.{
  Fds, Handles, Answers, runner_init, runner_launch, runner_fini,
}
use coverage_guided_fuzzer.RunnerSetup.Leaks.{
  owned, IsKernel, AllOrNothing, runner_init-AllOrNothing,
}

-- `runner_fini` closes the descriptors of its runner, and no other.
pub fini-owned :
    (h : Handles) (fds : Fds) (n : ℕ) → runner_fini h fds n ≡ (if owned h n then false else fds n)
unfolding runner_fini
fini-owned h fds n = ground arith

-- After `runner_launch` the end of the pipe through which the runner reports is closed in the fuzzer's
-- process, so that the kernel may hand out its descriptor again. When `runner_init` of a later runner
-- gets it as the end to which the fuzzer writes, it is open; and `runner_fini` of the earlier runner
-- closes it.
pub fini-closes_other :
    (h later : Handles) (ans : Answers) (fds fds' : Fds)
    → IsKernel ans (runner_launch h fds)
    → runner_init ans (runner_launch h fds) ≡ (some later, fds')
    → later.pipe_f_to_r.1 ≡ h.pipe_r_to_f.1
    → (runner_launch h fds h.pipe_r_to_f.1 ≡ false)
      × (fds' later.pipe_f_to_r.1 ≡ true)
      × (runner_fini h fds' later.pipe_f_to_r.1 ≡ false)
unfolding runner_fini runner_launch
fini-closes_other h later ans fds fds' v e same =
    let fds1 : Fds = runner_launch h fds in
    let opens = subst (AllOrNothing fds1) e (runner_init-AllOrNothing ans fds1 v) in
    let fd : ℕ = later.pipe_f_to_r.1 in
    let held : owned later fd ≡ true = ground arith in
    (ground arith, ground (arith, (opens fd).0, held), ground (arith, same))
