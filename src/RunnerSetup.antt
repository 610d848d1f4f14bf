-- ===== src/RunnerSetup.antt =====
-- The file descriptors of a runner in the fuzzer's process, of fuzzer/src/runner.c: `runner_init`, the
-- two parts of `runner_launch`, and `runner_fini`. What the system calls answer is an argument. The
-- descriptors are those that are open in the fuzzer's process.
pub mod Leaks
pub mod Reuse
use coverage_guided_fuzzer.Prelude.{
  ℕ, Bool, true, false, not, Option, none, some, ◌==◌, if◌then◌else◌,
}

abbrev pub Fds : Type 0
Fds = ℕ → Bool

abbrev pub opened : ℕ → Fds → Fds
opened fd fds n = if n == fd then true else fds n

-- close; of a descriptor that is not open it changes nothing.
abbrev pub closed : ℕ → Fds → Fds
closed fd fds n = if n == fd then false else fds n

-- The two ends of a pipe, the end that is read first.
abbrev pub Ends : Type 0
Ends = ℕ × ℕ

-- `struct runner`, its descriptors.
pub record Handles : Type 0 where
  pub pipe_f_to_r : Ends
  pub pipe_r_to_f : Ends
  pub shm_fdesc : ℕ

-- The answers in `runner_init`: calloc, two calls of pipe, fcntl, shm_open, ftruncate and mmap.
pub record Answers : Type 0 where
  pub granted : Bool
  pub first_pipe : Option Ends
  pub second_pipe : Option Ends
  pub flags_read : Bool
  pub shm : Option ℕ
  pub truncated : Bool
  pub mapped : Bool

abbrev pub open_pipe : Ends → Fds → Fds
open_pipe (r, w) fds = opened w (opened r fds)

abbrev pub close_pipe : Ends → Fds → Fds
close_pipe (r, w) fds = closed w (closed r fds)

-- The code at init_error, with -1 as `none`.
unfoldable pub init_error : Option Ends → Option Ends → Option ℕ → Fds → Fds
init_error p q shm fds =
    let fds1 : Fds = elim p [ none ↦ fds | some ends ↦ close_pipe ends fds ] in
    let fds2 : Fds = elim q [ none ↦ fds1 | some ends ↦ close_pipe ends fds1 ] in
    elim shm [ none ↦ fds2 | some fd ↦ closed fd fds2 ]

-- `runner_init` once the pipes are there.
unfoldable pub init_shared : Answers → Ends → Ends → Fds → Option Handles × Fds
unfolding init_error
init_shared ans p q fds =
    if not ans.flags_read then (none, init_error (some p) (some q) none fds) else elim ans.shm [
      | none ↦ (none, init_error (some p) (some q) none fds)
      | some fd ↦
          let fds' : Fds = opened fd fds in
          if not ans.truncated
          then (none, init_error (some p) (some q) (some fd) fds')
          else if not ans.mapped
          then (none, init_error (some p) (some q) (some fd) fds')
          else (some (record { pipe_f_to_r = p; pipe_r_to_f = q; shm_fdesc = fd }), fds')
    ]

-- `runner_init`
unfoldable pub runner_init : Answers → Fds → Option Handles × Fds
unfolding init_error init_shared
runner_init ans fds = if not ans.granted then (none, fds) else elim ans.first_pipe [
  | none ↦ (none, init_error none none none fds)
  | some p ↦ elim ans.second_pipe [
    | none ↦ (none, init_error (some p) none none (open_pipe p fds))
    | some q ↦ init_shared ans p q (open_pipe q (open_pipe p fds))
  ]
]

-- `runner_launch` in the parent, where fork succeeds.
unfoldable pub runner_launch : Handles → Fds → Fds
runner_launch h fds = closed h.pipe_r_to_f.1 (closed h.pipe_f_to_r.0 fds)

-- COVERAGE_MAP_FD of fuzzer/include/global.h.
abbrev pub coverage_map_fd : ℕ
coverage_map_fd = 767

-- `runner_launch` in the child, by the answer of dup2; without it the child exits.
unfoldable pub launch_child : Bool → Handles → Fds → Option Fds
launch_child duplicated h fds =
    let fds' : Fds = closed h.pipe_r_to_f.0 (closed h.pipe_f_to_r.1 fds) in
    if duplicated then some (closed h.shm_fdesc (opened coverage_map_fd fds')) else none

-- `runner_fini`
unfoldable pub runner_fini : Handles → Fds → Fds
runner_fini h fds = closed h.shm_fdesc (close_pipe h.pipe_r_to_f (close_pipe h.pipe_f_to_r fds))
