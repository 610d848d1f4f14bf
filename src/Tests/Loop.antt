-- ===== src/Tests/Loop.antt =====
-- The loop of run_fuzzer with one runner.
use coverage_guided_fuzzer.Prelude.{if◌then◌else◌, ◌==◌}
use coverage_guided_fuzzer.Prelude.{
  ◌<◌, ℕ, ◌≤◌, ◌≡◌, refl, inl, inr, true, false, Option, none, some, List, [], ◌∷◌, length, arith,
  Option-cases, Returns, ◌>>=◌,
}
use coverage_guided_fuzzer.Input.{Input}
use coverage_guided_fuzzer.Mutator.Positions.{max_inp_len}
use coverage_guided_fuzzer.RunnerPool.Lanes.{lanes, times, IsRunners}
use coverage_guided_fuzzer.Fuzzer.Prepare.{IsNew}
use coverage_guided_fuzzer.RunnerPool.Lanes.{AreHeld}
use coverage_guided_fuzzer.Fuzzer.Results.{IsMalloc}
use coverage_guided_fuzzer.Fuzzer.Round.{IsRun}
use coverage_guided_fuzzer.Fuzzer.Start.{fuzzer_loop-safe}
use coverage_guided_fuzzer.Fuzzer.Progress.{IsComplete, fuzzer_loop-completes}
use coverage_guided_fuzzer.Prelude.Int.{pos, negsuc}
use coverage_guided_fuzzer.Prelude.Text.{codes}
use coverage_guided_fuzzer.Memory.{Ptr, null, Memory}
use coverage_guided_fuzzer.CoverageMap.{CoverageMap}
use coverage_guided_fuzzer.InputQueue.{input_queue_init}
use coverage_guided_fuzzer.RunnerPool.{Slots, Runners, Inputs, running}
use coverage_guided_fuzzer.Fuzzer.{Allocator, Answers, fuzzer_loop, goes_on, sleeps}
use coverage_guided_fuzzer.Fuzzer.Seeds.{line_text, start}
use coverage_guided_fuzzer.Fuzzer.Idle.{first, no_seeds-spins}

-- malloc has one address for a node and two for inputs.
abbrev pub unless_used : {A : Type 0} → Ptr → Option A → Ptr → Ptr
unless_used p none other = p
unless_used p (some a) other = other

abbrev pub alloc : Allocator
alloc = record {
  node_at = λ m. unless_used 10 (m.nodes 10) null;
  input_at = λ m. unless_used 100 (m.inputs 100) (unless_used 200 (m.inputs 200) null);
}

pub alloc-nodes : IsMalloc alloc
alloc-nodes m = elim (Option-cases (m.nodes 10)) [
  | inl e ↦ rw e (inr (omega arith, e))
  | inr (n, e) ↦ rw e (inl refl)
]

pub alloc-inputs : (m : Memory) → IsNew m (alloc.input_at m)
alloc-inputs m = elim (Option-cases (m.inputs 100)) [
  | inl e ↦ rw e (inr (omega arith, e))
  | inr (x, e) ↦ rw e (elim (Option-cases (m.inputs 200)) [
    | inl e' ↦ rw e' (inr (omega arith, e'))
    | inr (y, e') ↦ rw e' (inl refl)
  ])
]

abbrev pub empty_memory : Memory
empty_memory = record { nodes = λ p. none; inputs = λ p. none }

abbrev pub one_runner : Runners
one_runner =
    let free : Slots = record { cells = null ∷ []; count = 0 } in
    let full : Slots = record { cells = 7 ∷ []; count = 1 } in
    record { total_jobs = 1; pool = full; ready = full; active = free; done = free }

abbrev pub empty_map : CoverageMap
empty_map = record { bitmap = []; hashset = λ i. [] }

abbrev pub seed : List ℕ → Input
seed s = record { str = s; len = 2; state = 0 }

-- Runner 7 is in memory and tests nothing yet.
abbrev pub no_active : Inputs
no_active r = if r == 7 then some null else none

abbrev pub nothing : Answers
nothing = record {
  signals = [];
  wait = λ r. running;
  descriptor = λ r. 5;
  selected = pos 0;
  isset = λ r. false;
  report = λ r. record { state = negsuc 0; coverage = []; granted = false };
  sent = λ p. true;
}

-- The runner reports a crash.
abbrev pub crash : Answers
crash = record nothing {
  signals = 10 ∷ [];
  selected = pos 1;
  isset = λ r. true;
  report = λ r. record { state = pos 1; coverage = []; granted = false };
}

no_seeds-spins_example :
    (start alloc
        (input_queue_init true)
        (some empty_map)
        (some one_runner)
        []
        no_active
        empty_memory
      ≡ some (some (first alloc empty_memory empty_map one_runner no_active)))
    × (fuzzer_loop alloc 5
          (nothing ∷ nothing ∷ [])
          (first alloc empty_memory empty_map one_runner no_active)
        ≡ some (first alloc empty_memory empty_map one_runner no_active))
    × (goes_on 5 (first alloc empty_memory empty_map one_runner no_active) ≡ true)
    × (sleeps 5 (first alloc empty_memory empty_map one_runner no_active) ≡ false)
no_seeds-spins_example =
    no_seeds-spins alloc empty_memory empty_map one_runner no_active 5 (nothing ∷ nothing ∷ []) refl
      refl (omega arith) (refl, (refl, tt))

pub one_runner-IsRunners : IsRunners one_runner (lanes (7 ∷ []) (7 ∷ []) [] [])
one_runner-IsRunners = record {
  pool = record { spare = []; cells = refl; count = refl; size_is = refl };
  ready = record { spare = []; cells = refl; count = refl; size_is = refl };
  active = record { spare = null ∷ []; cells = refl; count = refl; size_is = refl };
  done = record { spare = null ∷ []; cells = refl; count = refl; size_is = refl };
  room = omega arith;
  once = λ r. ground arith;
  distinct = λ r. ground arith;
  no_null = refl;
}

pub seven : (r : Ptr) → 0 < times r (7 ∷ []) → (r == 7) ≡ true
seven r k = ground (arith, k)

pub not_seven : (r : Ptr) → times r (7 ∷ []) ≡ 0 → (r == 7) ≡ false
not_seven r k = ground (arith, k)

pub one_runner-AreHeld : AreHeld no_active (7 ∷ [])
one_runner-AreHeld = record {
  alive = λ r k. (null, rw (seven r k) refl);
  gone = λ r k. rw (not_seven r k) refl;
}

-- One seed, which is sent and whose copy crashes.
fuzzer_loop-safe_example : Returns (IsRun 3) (
    start alloc
      (input_queue_init true)
      (some empty_map)
      (some one_runner)
      (codes "ab" ∷ [])
      no_active
      empty_memory
    >>= λ o. o >>= fuzzer_loop alloc 3 (nothing ∷ crash ∷ []))
unfolding line_text
fuzzer_loop-safe_example =
    fuzzer_loop-safe alloc 3 (nothing ∷ crash ∷ []) (codes "ab" ∷ []) empty_map one_runner (7 ∷ [])
      (7 ∷ []) no_active empty_memory alloc-nodes alloc-inputs
      ((omega arith, (omega arith, tt)), short, tt) one_runner-IsRunners one_runner-AreHeld
      ((λ r. omega arith), ((λ r. omega arith), tt))
  where
    short : length (line_text (codes "ab")) ≤ max_inp_len
    short = omega arith

fuzzer_loop-completes_example :
    Returns
      (λ f. goes_on 1 f ≡ false → f.shutdown_req ≡ false → IsComplete 1 f)
      (start alloc
          (input_queue_init true)
          (some empty_map)
          (some one_runner)
          (codes "ab" ∷ [])
          no_active
          empty_memory
        >>= λ o. o >>= fuzzer_loop alloc 1 (nothing ∷ crash ∷ []))
unfolding line_text
fuzzer_loop-completes_example =
    fuzzer_loop-completes alloc 1 (nothing ∷ crash ∷ []) (codes "ab" ∷ []) empty_map one_runner
      (7 ∷ []) (7 ∷ []) no_active empty_memory alloc-nodes alloc-inputs
      ((omega arith, (omega arith, tt)), short, tt) one_runner-IsRunners one_runner-AreHeld
      ((λ r. omega arith), ((λ r. omega arith), tt))
  where
    short : length (line_text (codes "ab")) ≤ max_inp_len
    short = omega arith
