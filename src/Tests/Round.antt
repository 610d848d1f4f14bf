-- ===== src/Tests/Round.antt =====
-- Single rounds of the loop of run_fuzzer with one runner.
use coverage_guided_fuzzer.Prelude.Int.{pos}
use coverage_guided_fuzzer.Prelude.{if◌then◌else◌, ◌==◌}
use coverage_guided_fuzzer.Prelude.{
  ap, ◌+◌, refl, true, false, Option, none, some, [], ◌∷◌, ◌++◌, length, arith, Returns,
}
use coverage_guided_fuzzer.Input.{Input}
use coverage_guided_fuzzer.RunnerPool.Lanes.{Lanes, lanes}
use coverage_guided_fuzzer.InputQueue.Refine.{rings}
use coverage_guided_fuzzer.InputQueue.Sound.{IsShort}
use coverage_guided_fuzzer.Fuzzer.Owned.{IsOwned}
use coverage_guided_fuzzer.Fuzzer.Results.{Received, learned, process_results-Received}
use coverage_guided_fuzzer.Fuzzer.Progress.{Collected, loop_round-receives}
use coverage_guided_fuzzer.Prelude.Text.{codes}
use coverage_guided_fuzzer.Memory.{Ptr, null, Memory, node, write}
use coverage_guided_fuzzer.InputQueue.{InputQueue, queue}
use coverage_guided_fuzzer.RunnerPool.{Slots, Runners}
use coverage_guided_fuzzer.Fuzzer.{Answers, State, goes_on, process_results, loop_round}
use coverage_guided_fuzzer.Tests.Loop.{
  unless_used, alloc, empty_map, one_runner, seed, no_active, crash, nothing, alloc-nodes,
  alloc-inputs, one_runner-IsRunners, one_runner-AreHeld, seven, not_seven,
}
use coverage_guided_fuzzer.InputQueue.Spec.{spec_dequeue, serve}
use coverage_guided_fuzzer.Fuzzer.{dispatch_one}
use coverage_guided_fuzzer.Fuzzer.Delivery.{Delivered, dispatch_one-delivers}

-- Runner 7 has tested input 200, and input 100 is queued.
abbrev tested_memory : Memory
tested_memory = record {
  nodes = write (λ _. none) 10 (some (node 100 null));
  inputs = write (write (λ _. none) 100 (some (seed (codes "ab")))) 200 (some (seed (codes "cd")));
}

ab-IsShort : IsShort (seed (codes "ab"))
ab-IsShort = (
  record {
    text = (omega arith, omega arith, (omega arith, omega arith, tt));
    counted = refl;
    state_fits = omega arith;
  },
  omega arith,
)

cd-IsShort : IsShort (seed (codes "cd"))
cd-IsShort = (
  record {
    text = (omega arith, omega arith, (omega arith, omega arith, tt));
    counted = refl;
    state_fits = omega arith;
  },
  omega arith,
)

abbrev tested_queue : InputQueue
tested_queue = record { high_p = queue 10 10 1; low_p = queue null null 0; deq_cycle_ind = 0 }

abbrev done_runner : Runners
done_runner =
    let free : Slots = record { cells = null ∷ []; count = 0 } in
    let full : Slots = record { cells = 7 ∷ []; count = 1 } in
    record { total_jobs = 1; pool = full; ready = free; active = free; done = full }

abbrev done_lanes : Lanes
done_lanes = lanes (7 ∷ []) [] [] (7 ∷ [])

abbrev tested_state : State
tested_state = record {
  memory = tested_memory;
  queue = some tested_queue;
  coverage_map = some empty_map;
  runners = some done_runner;
  active_inputs = λ r. if r == 7 then some 200 else none;
  jobs_sent = 1;
  jobs_received = 0;
  shutdown_req = false;
  sigchld_seen = false;
  sigusr1_seen = false;
}

tested_state-IsOwned :
    IsOwned tested_state tested_queue (rings ((10, 100) ∷ []) [] 0) done_runner done_lanes
unfolding write
tested_state-IsOwned = record {
  queue_is = refl;
  runners_is = refl;
  sound = record {
    rings = record {
      high = record { chain = (omega arith, refl, refl, tt); head = refl; tail = refl; len = refl };
      low = record { chain = tt; head = refl; tail = refl; len = refl };
      apart = λ a e. refl;
      turn = refl;
    };
    high = ((seed (codes "ab"), record { given = omega arith; at = refl }, ab-IsShort), tt);
    low = tt;
    distinct = λ t. ground arith;
  };
  pool = record {
    pool = record { spare = []; cells = refl; count = refl; size_is = refl };
    ready = record { spare = null ∷ []; cells = refl; count = refl; size_is = refl };
    active = record { spare = null ∷ []; cells = refl; count = refl; size_is = refl };
    done = record { spare = []; cells = refl; count = refl; size_is = refl };
    room = omega arith;
    once = λ r. ground arith;
    distinct = λ r. ground arith;
    no_null = refl;
  };
  testing = record {
    tested = λ r k. (
      200,
      seed (codes "cd"),
      rw (seven r (omega (arith, k))) refl,
      record { given = omega arith; at = refl },
      cd-IsShort,
      refl,
    );
    apart = λ r r' k k' ne. absurd (ground (arith, k, k', ne));
  };
  held = record {
    alive = λ r k. (200, rw (seven r k) refl);
    gone = λ r k. rw (not_seven r k) refl;
  };
}

process_results-Received_example :
    Returns
      (Received
        (record done_lanes { ready = done_lanes.ready ++ done_lanes.done; done = [] })
        (tested_state.jobs_received + length done_lanes.done)
        tested_state.jobs_sent
        (learned crash.report done_lanes.done tested_state.coverage_map))
      (process_results alloc crash.report (done_runner.done.count + 1) tested_state)
process_results-Received_example =
    process_results-Received alloc crash.report tested_state tested_queue
      (rings ((10, 100) ∷ []) [] 0) done_runner done_lanes alloc-nodes tested_state-IsOwned

-- The same with runner 7 still active, its pipe set and SIGUSR1 seen.
abbrev active_runner : Runners
active_runner = record done_runner { active = done_runner.done; done = done_runner.active }

abbrev active_lanes : Lanes
active_lanes = lanes (7 ∷ []) [] (7 ∷ []) []

abbrev active_state : State
active_state = record tested_state { runners = some active_runner; sigusr1_seen = true }

active_state-IsOwned :
    IsOwned active_state tested_queue (rings ((10, 100) ∷ []) [] 0) active_runner active_lanes
active_state-IsOwned = record {
  queue_is = refl;
  runners_is = refl;
  sound = tested_state-IsOwned.sound;
  pool = record {
    pool = record { spare = []; cells = refl; count = refl; size_is = refl };
    ready = record { spare = null ∷ []; cells = refl; count = refl; size_is = refl };
    active = record { spare = []; cells = refl; count = refl; size_is = refl };
    done = record { spare = null ∷ []; cells = refl; count = refl; size_is = refl };
    room = omega arith;
    once = λ r. ground arith;
    distinct = λ r. ground arith;
    no_null = refl;
  };
  testing = record {
    tested = λ r k. tested_state-IsOwned.testing.tested r (omega (arith, k));
    apart =
        λ r r' k k'. tested_state-IsOwned.testing.apart r r' (omega (arith, k)) (omega (arith, k'));
  };
  held = tested_state-IsOwned.held;
}

-- The runner reports that the target has passed the guard of edge 1.
abbrev passes : Answers
passes = record crash { report = λ r. record { state = pos 0; coverage = 2 ∷ []; granted = true } }

loop_round-receives_example :
    Returns (Collected passes active_lanes active_state) (loop_round alloc passes 3 active_state)
unfolding goes_on
loop_round-receives_example =
    loop_round-receives alloc 3 passes 1 active_state tested_queue (rings ((10, 100) ∷ []) [] 0)
      active_runner active_lanes alloc-nodes alloc-inputs active_state-IsOwned (λ r k. omega arith)
      refl refl refl refl (omega arith)

-- Runner 7 is ready, and input 100 is queued.
abbrev ready_state : State
ready_state = record tested_state {
  memory = record tested_memory { inputs = write (λ _. none) 100 (some (seed (codes "ab"))) };
  runners = some one_runner;
  active_inputs = no_active;
}

ready_state-IsOwned :
    IsOwned ready_state tested_queue
      (rings ((10, 100) ∷ []) [] 0)
      one_runner
      (lanes (7 ∷ []) (7 ∷ []) [] [])
unfolding write
ready_state-IsOwned = record {
  queue_is = refl;
  runners_is = refl;
  sound = record {
    rings = record {
      high = record { chain = (omega arith, refl, refl, tt); head = refl; tail = refl; len = refl };
      low = record { chain = tt; head = refl; tail = refl; len = refl };
      apart = λ a e. refl;
      turn = refl;
    };
    high = ((seed (codes "ab"), record { given = omega arith; at = refl }, ab-IsShort), tt);
    low = tt;
    distinct = λ t. ground arith;
  };
  pool = one_runner-IsRunners;
  testing = record {
    tested = λ r k. absurd (omega (arith, k));
    apart = λ r r' k k'. absurd (omega (arith, k));
  };
  held = one_runner-AreHeld;
}

dispatch_one-delivers_example :
    Returns
      (Delivered ready_state
        (rings ((10, 100) ∷ []) [] 0)
        (7 ∷ [])
        []
        []
        []
        7
        (seed (codes "ab"))
        200)
      (dispatch_one alloc nothing.sent ready_state)
unfolding write spec_dequeue serve
dispatch_one-delivers_example =
    dispatch_one-delivers alloc nothing.sent ready_state tested_queue (rings ((10, 100) ∷ []) [] 0)
      one_runner (7 ∷ []) [] [] [] 7 200 (seed (codes "ab")) ready_state-IsOwned
      (record { given = omega arith; at = refl }) ab-IsShort
      (λ m e.
        ap (λ (h : Ptr → Option Input). unless_used 100 (h 100) (unless_used 200 (h 200) null)) e)
      (omega arith) refl
