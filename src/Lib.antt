-- ===== src/Lib.antt =====
-- A model of the coverage-guided fuzzer in fuzzer/src, with proofs about it.
--
-- The program keeps a queue of inputs with two priorities. It takes an input from the queue, mutates it,
-- and submits it to one of several runner processes, each of which runs the target program and reports
-- through a pipe and through shared memory. The coverage that comes back goes into a coverage map, whose
-- answer decides with which priority the tested input is put into the queue, or whether it is freed.
--
-- Parts, and the files that model them:
--
--   Hash           fuzzer/src/global.c: `hash`. Hash.Bijection has its inverse.
--   CoverageMap    fuzzer/src/coverage_map.c: a bitmap of edges and a hashset of whole coverage
--                  data, `coverage_map_init`, `coverage_map_add`. CoverageMap.Spec is the
--                  specification, over the list of earlier data; Refine and Verdict relate the two.
--   Input          fuzzer/src/input.c: `struct input` as a value, and its operations.
--   Mutator        fuzzer/src/mutator.c: `mutate`, `H` (Mutator.Positions.position) and the
--                  strategies `helpr_strat1` to `helpr_strat11` (Mutator.Strategies). The pieces of
--                  mutate are `load_buffer`, `cycle_index`, `switch`, `apply` and `mutate_string`;
--                  `cycle` has the cases of its switch. Strategies use `limit`, `grow`, `copies`,
--                  `fitting`, `flips`.
--   Memory         the heap that holds queue nodes and inputs, and `free_input` of
--                  fuzzer/src/input.c.
--   InputQueue     fuzzer/src/input_queue.c: the two linked lists, the test for duplicates
--                  `helpr_inp_is_duplicate`, `enqueue_high_prio_input`, `enqueue_low_prio_input`
--                  and `dequeue_input` (`from_high` chooses the list, `rotate` moves its head to
--                  its end), and `input_queue_fini`. InputQueue.Spec has the specification, two
--                  round robins, and Turns how long an input waits; Sound has the invariant of the
--                  queue and its inputs.
--   RunnerPool     fuzzer/src/runner.c, from `struct runners` on: `helpr_remove_runner`,
--                  `runners_submit_input`, `runners_check_if_jobs_done`, `runners_process_result`,
--                  `runners_reap`, the `runners_has_` tests, and `fuzzer_send_runner_input`.
--                  RunnerPool.Lanes has the specification, four lists of runners. RunnerPool.Setup
--                  has `runners_init` and `runners_fini`.
--   Pipe           fuzzer/src/runner.c: `helpr_write_wrap`, `helpr_read_wrap`, the messages of
--                  `fuzzer_send_runner_input` (`send_input`), `runner_receive_fuzzer_input`
--                  (`receive_input`), `runner_alert_fuzzer` and `fuzzer_attempt_receive_status`.
--   Runner         fuzzer/src/runner.c: the loop of the child in `runner_launch`. Runner.Wait has
--                  the signal handler and the wait for the target (`await_target`), Runner.Loop the
--                  loop, which ends where the history of a round ends while the runner still waits.
--   RunnerSetup    fuzzer/src/runner.c: the descriptors that `runner_init`, `runner_launch` in the
--                  parent and in the child (`launch_child`) and `runner_fini` open and close.
--   Fuzzer         fuzzer/src/fuzzer.c: `run_fuzzer` over the heap, the queue, the map and the
--                  pool. `start` (Fuzzer.Seeds) reads the seeds, `fuzzer_loop` is its loop, of
--                  which `loop_round` is a round: `on_sigchld`, `on_sigusr1`, `process_results`
--                  with the jobs that are done, `dispatch` with the runners that are ready. Owned
--                  has the invariant, Results, Signals, Submission, Dispatch, Phases, Round and
--                  Start show that it is kept; Delivery is about what is sent, Progress is about
--                  what a round receives and where the loop stops, Idle about rounds with no work.
--                  Run has the whole of `run_fuzzer`, from the setup of its objects to their end.
--   CommandLine    fuzzer/src/main.c and fuzzer/src/utils.c: the loop over the options is `parse`,
--                  the checks after it `check_start`, and `main` gives the exit status.
--   Instrumentation fuzzer/programs/coverage.c, which is linked into the targets: `guard_init`
--                  numbers the guards, `trace_pc_guard` sets the bit of one. Trace is about one
--                  run, Stale about two.
--   Prelude        names that all share, bits and bytes, the C type int, C strings.
--   Tests          runs on concrete inputs.
--
-- Conventions. Numbers are natural numbers; the wrap of uint64_t and size_t is written out, and `int` is
-- a type of its own. A step that faults (an access outside an array, a NULL or dangling pointer, a double
-- free) is `none`. NULL is address 0 in a heap, and `none` where a structure is a value. What malloc,
-- strdup, select, waitpid, write, fopen, fcntl and mmap answer is an argument. A size_t that is
-- returned as a ssize_t is converted. FD_SET of a descriptor from FD_SETSIZE (1024) on is a fault; the
-- descriptors of the runners are an argument.
--
-- Loops are structural recursion on the rounds left. `copies` of helpr_strat2 has as many rounds as
-- the new string has bytes, each of which copies at least one. `find_str` has one round more than its
-- list has nodes. `sweep` and `reap_from` have one round more than there are active runners and
-- runners in the pool. `write_from` and `read_from` consume one reply of the kernel in each round.
-- `process_results` has one round more than there are done runners, `dispatch` one more than there are
-- ready runners, `free_nodes` one more than its list has nodes. A decimal has at most ten digits.
--
-- Not modelled: the calls that install signal handlers and masks, in whose place the signals that are
-- delivered are arguments, a fork that fails, the memory map of a runner, `coverage_map_fini`, which
-- only frees a value of this model, and the event log, a binary library.
pub mod Prelude
pub mod Hash
pub mod CoverageMap
pub mod Input
pub mod Mutator
pub mod Memory
pub mod InputQueue
pub mod RunnerPool
pub mod CommandLine
pub mod Instrumentation
pub mod Pipe
pub mod Runner
pub mod RunnerSetup
pub mod Fuzzer
mod Tests
