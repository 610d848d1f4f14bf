-- ===== src/Tests/Target.antt =====
-- The command line `-j 2 -n 7 -t 9 -s seeds prog @@`, and a target with three guards.
use coverage_guided_fuzzer.Prelude.{
  ℕ, ◌≡◌, refl, ◌↔◌, true, false, none, some, List, [], ◌∷◌, arith, get_or, replicate,
  length-replicate, replicate-IsBytes, Returns,
}
use coverage_guided_fuzzer.Prelude.Int.{pos}
use coverage_guided_fuzzer.Prelude.Text.{codes}
use coverage_guided_fuzzer.CoverageMap.{same_bytes, high_prio, no_prio, add}
use coverage_guided_fuzzer.CoverageMap.Edges.{has_edge}
use coverage_guided_fuzzer.CoverageMap.Refine.{fresh, fresh-Represents}
use coverage_guided_fuzzer.CoverageMap.Spec.{nothing}
use coverage_guided_fuzzer.CommandLine.{
  Options, defaults, word, is_num, atoi, set, parse, check_start, start, command_line, usage_error,
}
use coverage_guided_fuzzer.CommandLine.Start.{Starts, command_line-Starts}
use coverage_guided_fuzzer.CommandLine.RoundTrip.{render, command_line-render}
use coverage_guided_fuzzer.Instrumentation.{Tracer, unset, to_shared, guard_init, trace_pc_guard}
use coverage_guided_fuzzer.Instrumentation.Bytes.{zeros-has_edge}
use coverage_guided_fuzzer.Instrumentation.Trace.{
  IsFresh, Adds, run_target, passed, PassedNew, run_target-Adds, high_prio_iff_passed,
}
use coverage_guided_fuzzer.Instrumentation.Stale.{another, second_run-no_prio}
use coverage_guided_fuzzer.Instrumentation.Overflow.{later_module_overflows}

abbrev target : List (List ℕ)
target = codes "prog" ∷ codes "@@" ∷ []

abbrev settings : Options
settings = record {
  num_jobs = pos 2;
  num_inputs = pos 7;
  timelimit = pos 9;
  seed_fname = some (codes "seeds");
}

command_line-render_example :
    command_line (render 2 7 9 (codes "seeds") target) ≡ start (codes "seeds") settings target
unfolding word same_bytes
command_line-render_example =
    command_line-render 2 7 9 (codes "seeds") (codes "prog") (codes "@@" ∷ []) (omega arith)
      (omega arith) (omega arith) refl refl

arguments : List (List ℕ)
arguments = codes "-j" ∷ codes "2" ∷ codes "-s" ∷ codes "seeds" ∷ target

abbrev two_jobs : Options
two_jobs = record defaults { num_jobs = pos 2; seed_fname = some (codes "seeds") }

command_line-Starts_example : Starts arguments (codes "seeds") two_jobs target
unfolding arguments word same_bytes is_num atoi set parse check_start
command_line-Starts_example = command_line-Starts arguments (codes "seeds") two_jobs target refl

no_placeholder : command_line (codes "-s" ∷ codes "seeds" ∷ codes "prog" ∷ []) ≡ usage_error
unfolding word same_bytes set parse check_start
no_placeholder = refl

abbrev guards : List ℕ
guards = 0 ∷ 0 ∷ 0 ∷ []

abbrev tracer : Tracer
tracer = record { bitmap = unset; n = 0; shared = replicate 512 0 }

tracer-IsFresh : IsFresh tracer
tracer-IsFresh = record {
  n = refl;
  shared = record {
    bytes = replicate-IsBytes 512 0 (omega arith);
    size = length-replicate {A = ℕ} 512 0;
  };
}

run_target-Adds_example : Returns (Adds (passed (0 ∷ 2 ∷ [])) tracer.shared) (
    run_target
      (guard_init true true guards tracer).0
      (0 ∷ 2 ∷ [])
      (guard_init true true guards tracer).1)
run_target-Adds_example =
    run_target-Adds guards (0 ∷ 2 ∷ []) tracer refl (omega arith) tracer-IsFresh (omega arith)

no_edges : (e : ℕ) → has_edge tracer.shared e ≡ false
no_edges e = zeros-has_edge 512 e

high_prio_iff_passed_example :
    Returns
      (λ t2. ((add true fresh t2.shared).0 ≡ high_prio) ↔ PassedNew fresh (0 ∷ 2 ∷ []))
      (run_target
        (guard_init true true guards tracer).0
        (0 ∷ 2 ∷ [])
        (guard_init true true guards tracer).1)
high_prio_iff_passed_example =
    high_prio_iff_passed fresh nothing guards (0 ∷ 2 ∷ []) tracer fresh-Represents refl
      (omega arith) tracer-IsFresh (omega arith) no_edges

-- The first run passes guards 0 and 2, the second one guard 0 alone.
second_run-no_prio_example :
    let (gs, t1) = guard_init true true guards tracer in
    Returns
      (λ t2.
        let (gs', t3) = guard_init true true guards (another t2) in
        Returns
          (λ t4. (add true (add true fresh t2.shared).1 t4.shared).0 ≡ no_prio)
          (run_target gs' (0 ∷ []) t3))
      (run_target gs (0 ∷ 2 ∷ []) t1)
second_run-no_prio_example =
    second_run-no_prio fresh nothing guards (0 ∷ 2 ∷ []) (0 ∷ []) tracer true fresh-Represents refl
      (omega arith) tracer-IsFresh (omega arith) (omega arith)
      (λ e h. ground (arith, h, no_edges e))

-- The tracer after 4095 guards.
abbrev full : Tracer
full = record { bitmap = to_shared; n = 4095; shared = replicate 512 0 }

later_module_overflows_example :
    trace_pc_guard
      (get_or (guard_init true true guards full).0 0 0)
      (guard_init true true guards full).1
    ≡ none
later_module_overflows_example =
    later_module_overflows full guards refl (omega arith) (omega arith) (omega arith)
      (length-replicate {A = ℕ} 512 0)
