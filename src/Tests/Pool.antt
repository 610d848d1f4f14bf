-- ===== src/Tests/Pool.antt =====
-- A pool of three runners: one is ready, one is active, one is done.
use coverage_guided_fuzzer.Prelude.{
  if◌then◌else◌, refl, true, none, some, [], ◌∷◌, ◌==◌, arith, Returns,
}
use coverage_guided_fuzzer.Prelude.Int.{pos}
use coverage_guided_fuzzer.Memory.{Ptr, null}
use coverage_guided_fuzzer.RunnerPool.{
  Slots, Runners, Inputs, helpr_remove_runner, runners_submit_input, runners_process_result,
  runners_check_if_jobs_done,
}
use coverage_guided_fuzzer.RunnerPool.{Wait, reaped, failed, running, runners_reap}
use coverage_guided_fuzzer.RunnerPool.Lanes.Reap.{Reaped, reap_refines}
use coverage_guided_fuzzer.RunnerPool.Remove.{erase, IsSlots, remove_runner-erase}
use coverage_guided_fuzzer.RunnerPool.Lanes.{Lanes, lanes, IsRunners}
use coverage_guided_fuzzer.RunnerPool.Lanes.Submit.{
  spec_submit, spec_result, Gives, Submitted, received, Lost, process_result_refines,
  submit_refines, submit-loses_runner,
}
use coverage_guided_fuzzer.RunnerPool.Lanes.Sweep.{spec_check, Checked, check_refines}

abbrev one_cell : Ptr → Slots
one_cell r = record { cells = r ∷ null ∷ null ∷ []; count = 1 }

abbrev pool : Runners
pool = record {
  total_jobs = 3;
  pool = record { cells = 10 ∷ 20 ∷ 30 ∷ []; count = 3 };
  ready = one_cell 10;
  active = one_cell 20;
  done = one_cell 30;
}

abbrev pool_lanes : Lanes
pool_lanes = lanes (10 ∷ 20 ∷ 30 ∷ []) (10 ∷ []) (20 ∷ []) (30 ∷ [])

one_cell-IsSlots : (r : Ptr) → IsSlots 3 (one_cell r) (r ∷ [])
one_cell-IsSlots r = record { spare = null ∷ null ∷ []; cells = refl; count = refl; size_is = refl }

pool-IsRunners : IsRunners pool pool_lanes
pool-IsRunners = record {
  pool = record { spare = []; cells = refl; count = refl; size_is = refl };
  ready = one_cell-IsSlots 10;
  active = one_cell-IsSlots 20;
  done = one_cell-IsSlots 30;
  room = omega arith;
  once = λ r. ground arith;
  distinct = λ r. ground arith;
  no_null = refl;
}

abbrev no_inputs : Inputs
no_inputs r = none

remove_runner-erase_example :
    Returns
      (λ s'. IsSlots 3 s' (erase 20 (10 ∷ 20 ∷ 30 ∷ [])))
      (helpr_remove_runner (record { cells = 10 ∷ 20 ∷ 30 ∷ []; count = 3 }) 20)
remove_runner-erase_example =
    remove_runner-erase 3 (record { cells = 10 ∷ 20 ∷ 30 ∷ []; count = 3 }) (10 ∷ 20 ∷ 30 ∷ []) 20
      (record { spare = []; cells = refl; count = refl; size_is = refl })

submit_refines_example :
    Returns
      (Submitted (spec_submit (received true 500) pool_lanes 500 no_inputs))
      (runners_submit_input true (some pool) 500 no_inputs)
submit_refines_example = submit_refines true pool pool_lanes 500 no_inputs pool-IsRunners

process_result_refines_example :
    Returns
      (Gives (spec_result pool_lanes).1 (spec_result pool_lanes).0)
      (runners_process_result (some pool))
process_result_refines_example = process_result_refines pool pool_lanes pool-IsRunners

check_refines_example :
    Returns
      (Checked (spec_check (λ r. r == 20) pool_lanes))
      (runners_check_if_jobs_done (λ r. 5) (pos 1) (λ r. r == 20) (some pool))
check_refines_example =
    check_refines (λ r. 5) 1 (λ r. r == 20) pool pool_lanes (omega arith) (λ r k. omega arith)
      pool-IsRunners

-- NULL is submitted, as `make_input` and `mutate` answer it when malloc gives nothing.
submit-loses_runner_example :
    Returns (Lost 10) (runners_submit_input true (some pool) null no_inputs)
submit-loses_runner_example =
    submit-loses_runner true pool (10 ∷ 20 ∷ 30 ∷ []) [] (20 ∷ []) (30 ∷ []) 10 null no_inputs
      pool-IsRunners refl

-- The process of runner 20 has ended, and waitpid fails for runner 30.
abbrev answers : Ptr → Wait
answers r = if r == 20 then reaped else if r == 30 then failed else running

reap_refines_example :
    Returns (Reaped answers pool_lanes no_inputs) (runners_reap answers (some pool) no_inputs)
reap_refines_example = reap_refines answers pool pool_lanes no_inputs pool-IsRunners
