-- ===== src/Tests/Whole.antt =====
-- run_fuzzer as a whole, and the ends of the queue and of the pool, with one runner.
use coverage_guided_fuzzer.CoverageMap.Hashset.{same_bytes→eq}
use coverage_guided_fuzzer.Prelude.{ap}
use coverage_guided_fuzzer.Prelude.{inr}
use coverage_guided_fuzzer.Prelude.{Bool-cases}
use coverage_guided_fuzzer.Prelude.{◌+◌}
use coverage_guided_fuzzer.CoverageMap.{same_bytes}
use coverage_guided_fuzzer.Prelude.{
  ℕ, ◌<◌, ◌≡◌, refl, inl, true, false, none, some, List, [], ◌∷◌, ◌==◌, if◌then◌else◌, ◌≤◌, arith,
  Returns,
}
use coverage_guided_fuzzer.Prelude.Int.{pos, negsuc}
use coverage_guided_fuzzer.Prelude.Text.{codes}
use coverage_guided_fuzzer.Input.{Input}
use coverage_guided_fuzzer.Memory.{Ptr, null, Memory, node, write}
use coverage_guided_fuzzer.InputQueue.{InputQueue, queue, input_queue_fini}
use coverage_guided_fuzzer.InputQueue.Refine.{rings}
use coverage_guided_fuzzer.InputQueue.Sound.{IsSound, IsShort}
use coverage_guided_fuzzer.InputQueue.Finish.{IsFreed, input_queue_fini-IsFreed}
use coverage_guided_fuzzer.RunnerPool.{Runners, running}
use coverage_guided_fuzzer.RunnerPool.Setup.{Callocs, runners_init}
use coverage_guided_fuzzer.RunnerPool.Setup.Pool.{
  grants, Started, made_runners, AreNew, runners_init-Started, runners_init-faults,
}
use coverage_guided_fuzzer.Fuzzer.{Answers}
use coverage_guided_fuzzer.Tests.Loop.{alloc, alloc-nodes, alloc-inputs}
use coverage_guided_fuzzer.Fuzzer.Seeds.{line_text}
use coverage_guided_fuzzer.Fuzzer.Run.{
  Beginning, reached, IsRefused, IsOutcome, run_fuzzer, run_fuzzer-IsOutcome,
}

-- The first runner is at 7, and no other can be made.
abbrev made : ℕ → Ptr
made i = if i == 0 then 7 else null

made-AreNew : AreNew made
made-AreNew i j lt given = absurd (given (ground (arith, lt)))

abbrev beginning : Beginning
beginning = record { queue_granted = true; map_granted = true; callocs = grants true; made = made }

-- SIGTERM comes in the round.
abbrev stop : Answers
stop = record {
  signals = 15 ∷ [];
  wait = λ r. running;
  descriptor = λ r. 5;
  selected = pos 0;
  isset = λ r. false;
  report = λ r. record { state = negsuc 0; coverage = []; granted = false };
  sent = λ p. true;
}

abbrev empty_memory : Memory
empty_memory = record { nodes = λ p. none; inputs = λ p. none }

run_fuzzer-IsOutcome_example :
    Returns
      (IsOutcome
        (λ f.
          reached alloc beginning 2 3 (codes "ab" ∷ []) (stop ∷ []) (λ r. none) empty_memory
          ≡ some f)
        (IsRefused beginning 2 empty_memory)
        4)
      (run_fuzzer alloc beginning 2 3 (codes "ab" ∷ []) (stop ∷ []) (λ r. none) empty_memory)
unfolding line_text
run_fuzzer-IsOutcome_example =
    run_fuzzer-IsOutcome alloc beginning true 2 3 (codes "ab" ∷ []) (stop ∷ []) (λ r. none)
      empty_memory alloc-nodes alloc-inputs ((omega arith, (omega arith, tt)), omega arith, tt) refl
      made-AreNew (λ r. refl) ((λ r. omega arith), tt) (omega arith)

runners_init-Started_example :
    Returns
      (λ (ors, h'). (rs : Runners) × (ors ≡ some rs) × Started 2 (made_runners made 2 0) (rs, h'))
      (runners_init (grants true) made 2 (λ r. none))
runners_init-Started_example = runners_init-Started made 2 (λ r. none) made-AreNew (λ r. refl)

abbrev no_pool : Callocs
no_pool = record { object = true; pool = false; ready = true; active = true; done = true }

runners_init-faults_example : runners_init no_pool made 2 (λ r. none) ≡ none
runners_init-faults_example =
    runners_init-faults no_pool made 2 (λ r. none) refl (inl refl) (omega arith) (omega arith)

-- A queue with one node in each ring.
abbrev seed : List ℕ → Input
seed s = record { str = s; len = 2; state = 0 }

abbrev memory : Memory
memory = record {
  nodes = write (write (λ _. none) 10 (some (node 100 null))) 20 (some (node 200 null));
  inputs = write (write (λ _. none) 100 (some (seed (codes "ab")))) 200 (some (seed (codes "cd")));
}

abbrev input_queue : InputQueue
input_queue = record { high_p = queue 10 10 1; low_p = queue 20 20 1; deq_cycle_ind = 9 }

IsShort-seed : (a b : ℕ) → 0 < a → a < 256 → 0 < b → b < 256 → IsShort (seed (a ∷ b ∷ []))
IsShort-seed a b p q r s =
    (record { text = (p, q, (r, s, tt)); counted = refl; state_fits = omega arith }, omega arith)

one_of :
    (t : List ℕ)
    → (if same_bytes t (codes "ab") then 1 else 0)
        + 0
        + ((if same_bytes t (codes "cd") then 1 else 0) + 0)
      ≤ 1
unfolding same_bytes
one_of t = elim (Bool-cases (same_bytes t (codes "ab"))) [
  | inr e ↦ rw e (ground arith)
  | inl e ↦
      let differs : same_bytes t (codes "cd") ≡ false =
        ap (λ (u : List ℕ). same_bytes u (codes "cd")) (same_bytes→eq t (codes "ab") e) in
      rw (e, differs) (omega arith)
]

input_queue-IsSound : IsSound memory input_queue (rings ((10, 100) ∷ []) ((20, 200) ∷ []) 9)
unfolding write
input_queue-IsSound = record {
  rings = record {
    high = record { chain = (omega arith, refl, refl, tt); head = refl; tail = refl; len = refl };
    low = record { chain = (omega arith, refl, refl, tt); head = refl; tail = refl; len = refl };
    apart = λ a inside. ground (arith, inside);
    turn = refl;
  };
  high = (
    (
      seed (codes "ab"),
      record { given = omega arith; at = refl },
      IsShort-seed 97 98 (omega arith) (omega arith) (omega arith) (omega arith),
    ),
    tt,
  );
  low = (
    (
      seed (codes "cd"),
      record { given = omega arith; at = refl },
      IsShort-seed 99 100 (omega arith) (omega arith) (omega arith) (omega arith),
    ),
    tt,
  );
  distinct = one_of;
}

input_queue_fini-IsFreed_example :
    Returns
      (λ (u, m'). IsFreed memory ((10, 100) ∷ (20, 200) ∷ []) m')
      (input_queue_fini (some input_queue) memory)
input_queue_fini-IsFreed_example =
    input_queue_fini-IsFreed memory input_queue (rings ((10, 100) ∷ []) ((20, 200) ∷ []) 9)
      input_queue-IsSound
