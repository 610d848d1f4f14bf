-- ===== src/RunnerSetup/Leaks.antt =====
-- `runner_init` opens all descriptors of a runner, or leaves none open.
use coverage_guided_fuzzer.Prelude.{
  ℕ, ◌≡◌, ◌≢◌, refl, ap, ◌∙◌, Bool, true, false, ◌||◌, Option, none, some, ◌==◌, ==_iff, arith,
}
use coverage_guided_fuzzer.RunnerSetup.{
  Fds, opened, closed, Ends, Handles, Answers, open_pipe, close_pipe, init_error, init_shared,
  runner_init,
}

-- The kernel hands out descriptors that are not open.
abbrev pub NewPipe : Option Ends → Fds → Type 0
NewPipe none fds = Unit {0}
NewPipe (some (r, w)) fds = (fds r ≡ false) × (fds w ≡ false) × (r ≢ w)

abbrev pub with_pipe : Option Ends → Fds → Fds
with_pipe none fds = fds
with_pipe (some p) fds = open_pipe p fds

abbrev pub NewFd : Option ℕ → Fds → Type 0
NewFd none fds = Unit {0}
NewFd (some fd) fds = fds fd ≡ false

pub record IsKernel (ans : Answers) (fds : Fds) : Type 0 where
  pub first_new : NewPipe ans.first_pipe fds
  pub second_new : NewPipe ans.second_pipe (with_pipe ans.first_pipe fds)
  pub shm_new : NewFd ans.shm (with_pipe ans.second_pipe (with_pipe ans.first_pipe fds))

abbrev pub owned : Handles → ℕ → Bool
owned h n =
    (n == h.pipe_f_to_r.0)
    || ((n == h.pipe_f_to_r.1)
        || ((n == h.pipe_r_to_f.0) || ((n == h.pipe_r_to_f.1) || (n == h.shm_fdesc))))

-- No descriptor was opened or closed; or those of the runner were opened, and were not open before.
abbrev pub AllOrNothing : Fds → Option Handles × Fds → Type 0
AllOrNothing fds (none, fds') = (n : ℕ) → fds' n ≡ fds n
AllOrNothing fds (some h, fds') =
    (n : ℕ) → (fds' n ≡ (fds n || owned h n)) × (owned h n ≡ true → fds n ≡ false)

new_at : (fds : Fds) (k n : ℕ) → fds k ≡ false → (n == k) ≡ true → fds n ≡ false
new_at fds k n e same = ap fds ((==_iff n k).0 same) ∙ e

before_pipe : (p : Ends) (fds : Fds) (k : ℕ) → open_pipe p fds k ≡ false → fds k ≡ false
before_pipe (r, w) fds k e = ground (arith, e)

-- The descriptors of a pipe or two and of the shared memory, where they were closed before.
module _ (fds : Fds) (n : ℕ) where
  abbrev WasClosed : ℕ → Type 0
  WasClosed k = (n == k) ≡ true → fds n ≡ false

  undo_one : (p : Ends) → WasClosed p.0 → WasClosed p.1 → close_pipe p (open_pipe p fds) n ≡ fds n
  undo_one (r, w) cr cw = ground (arith, cr, cw)

  undo_two :
      (p q : Ends)
      → WasClosed p.0
      → WasClosed p.1
      → WasClosed q.0
      → WasClosed q.1
      → close_pipe q (close_pipe p (open_pipe q (open_pipe p fds))) n ≡ fds n
  undo_two (r, w) (r', w') cr cw cr' cw' = ground (arith, cr, cw, cr', cw')

  undo_all :
      (p q : Ends) (fd : ℕ)
      → WasClosed p.0
      → WasClosed p.1
      → WasClosed q.0
      → WasClosed q.1
      → WasClosed fd
      → closed fd (close_pipe q (close_pipe p (opened fd (open_pipe q (open_pipe p fds))))) n
        ≡ fds n
  undo_all (r, w) (r', w') fd cr cw cr' cw' cfd = ground (arith, cr, cw, cr', cw', cfd)

  owned-opened :
      (p q : Ends) (fd : ℕ)
      → opened fd (open_pipe q (open_pipe p fds)) n
        ≡ (fds n || owned (record { pipe_f_to_r = p; pipe_r_to_f = q; shm_fdesc = fd }) n)
  owned-opened (r, w) (r', w') fd = ground arith

  owned_new :
      (p q : Ends) (fd : ℕ)
      → WasClosed p.0
      → WasClosed p.1
      → WasClosed q.0
      → WasClosed q.1
      → WasClosed fd
      → owned (record { pipe_f_to_r = p; pipe_r_to_f = q; shm_fdesc = fd }) n ≡ true
      → fds n ≡ false
  owned_new (r, w) (r', w') fd cr cw cr' cw' cfd e = ground (arith, cr, cw, cr', cw', cfd, e)

-- The descriptors of the two pipes, as closed before.
module _ (fds : Fds) (p q : Ends) (np : NewPipe (some p) fds)
    (nq : NewPipe (some q) (open_pipe p fds)) where
  abbrev both : Fds
  both = open_pipe q (open_pipe p fds)

  first_read : (n : ℕ) → WasClosed fds n p.0
  first_read n = new_at fds p.0 n np.0

  first_write : (n : ℕ) → WasClosed fds n p.1
  first_write n = new_at fds p.1 n np.1

  second_read : (n : ℕ) → WasClosed fds n q.0
  second_read n = new_at fds q.0 n (before_pipe p fds q.0 nq.0)

  second_write : (n : ℕ) → WasClosed fds n q.1
  second_write n = new_at fds q.1 n (before_pipe p fds q.1 nq.1)

  shm_closed : (fd n : ℕ) → both fd ≡ false → WasClosed fds n fd
  shm_closed fd n e = new_at fds fd n (before_pipe p fds fd (before_pipe q (open_pipe p fds) fd e))

  undo_pipes : AllOrNothing fds (none, close_pipe q (close_pipe p both))
  undo_pipes n = undo_two fds n p q (first_read n) (first_write n) (second_read n) (second_write n)

  undo_shared :
      (fd : ℕ)
      → both fd ≡ false
      → AllOrNothing fds (none, closed fd (close_pipe q (close_pipe p (opened fd both))))
  undo_shared fd e n =
      undo_all fds n p q fd (first_read n) (first_write n) (second_read n) (second_write n)
        (shm_closed fd n e)

  init_shared-AllOrNothing :
      (granted : Bool) (p1 p2 : Option Ends) (flags truncated mapped : Bool) (shm : Option ℕ)
      → NewFd shm both
      → AllOrNothing fds (
          init_shared
            (record {
              granted = granted;
              first_pipe = p1;
              second_pipe = p2;
              flags_read = flags;
              shm = shm;
              truncated = truncated;
              mapped = mapped;
            })
            p
            q
            both)
  unfolding init_shared init_error
  init_shared-AllOrNothing granted p1 p2 false truncated mapped shm e = undo_pipes
  init_shared-AllOrNothing granted p1 p2 true truncated mapped none e = undo_pipes
  init_shared-AllOrNothing granted p1 p2 true false mapped (some fd) e = undo_shared fd e
  init_shared-AllOrNothing granted p1 p2 true true false (some fd) e = undo_shared fd e
  init_shared-AllOrNothing granted p1 p2 true true true (some fd) e = λ n. (
    owned-opened fds n p q fd,
    owned_new fds n p q fd (first_read n) (first_write n) (second_read n) (second_write n)
        (shm_closed fd n e),
  )

init-AllOrNothing :
    (granted flags truncated mapped : Bool) (p1 p2 : Option Ends) (shm : Option ℕ) (fds : Fds)
    → let ans : Answers = record {
      granted = granted;
      first_pipe = p1;
      second_pipe = p2;
      flags_read = flags;
      shm = shm;
      truncated = truncated;
      mapped = mapped;
    } in
      IsKernel ans fds → AllOrNothing fds (runner_init ans fds)
unfolding runner_init init_error
init-AllOrNothing false flags truncated mapped p1 p2 shm fds v = λ n. refl
init-AllOrNothing true flags truncated mapped none p2 shm fds v = λ n. refl
init-AllOrNothing true flags truncated mapped (some p) none shm fds v =
    λ n. undo_one fds n p (new_at fds p.0 n v.first_new.0) (new_at fds p.1 n v.first_new.1)
init-AllOrNothing true flags truncated mapped (some p) (some q) shm fds v =
    init_shared-AllOrNothing fds p q v.first_new v.second_new true (some p) (some q) flags truncated
      mapped shm v.shm_new

-- Whatever the system calls in `runner_init` answer, if they hand out descriptors that are not open:
-- when it returns NULL, the same descriptors are open as before; otherwise those of the new runner
-- are, which were not open before, and no other was opened or closed.
pub runner_init-AllOrNothing :
    (ans : Answers) (fds : Fds) → IsKernel ans fds → AllOrNothing fds (runner_init ans fds)
runner_init-AllOrNothing ans fds v =
    init-AllOrNothing ans.granted ans.flags_read ans.truncated ans.mapped ans.first_pipe
      ans.second_pipe ans.shm fds v
