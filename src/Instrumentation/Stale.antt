-- ===== src/Instrumentation/Stale.antt =====
-- Two runs of the target by one runner. Its shared memory is cleared by `runner_init` (runner.c) and by
-- nothing else, so the second run starts from the edges of the first.
use coverage_guided_fuzzer.CoverageMap.Verdict.{add_again}
use coverage_guided_fuzzer.Instrumentation.Trace.{run_target-Adds}
use coverage_guided_fuzzer.Instrumentation.Trace.{run_target}
use coverage_guided_fuzzer.CoverageMap.{no_prio}
use coverage_guided_fuzzer.CoverageMap.{add}
use coverage_guided_fuzzer.Instrumentation.{guard_init}
use coverage_guided_fuzzer.Instrumentation.Trace.{AllBelow}
use coverage_guided_fuzzer.Instrumentation.Trace.{IsFresh}
use coverage_guided_fuzzer.Prelude.Bits.Digits.{digit-lt}
use coverage_guided_fuzzer.CoverageMap.Refine.{Represents}
use coverage_guided_fuzzer.Prelude.Bits.Digits.{digit, digit_ext}
use coverage_guided_fuzzer.Instrumentation.{unset}
use coverage_guided_fuzzer.CoverageMap.Spec.{Seen}
use coverage_guided_fuzzer.Prelude.{suc}
use coverage_guided_fuzzer.CoverageMap.Edges.{has_edge}
use coverage_guided_fuzzer.CoverageMap.Refine.{IsCoverage}
use coverage_guided_fuzzer.Instrumentation.{Tracer}
use coverage_guided_fuzzer.Instrumentation.Trace.{passed}
use coverage_guided_fuzzer.CoverageMap.{CoverageMap}
use coverage_guided_fuzzer.Prelude.{
  ℕ, ◌≡◌, ◌+◌, ◌*◌, ◌/◌, ◌%◌, ◌<◌, ◌∙◌, refl, sym, ◌||◌, Bool, true, List, [], ◌∷◌, arith, get_or,
  length, get_or-lt, Returns, Returns-mono,
}

-- Lists of one length with the same cells are equal.
list_ext :
    (xs ys : List ℕ) → length xs ≡ length ys → ((i : ℕ) → get_or xs i 0 ≡ get_or ys i 0) → xs ≡ ys
list_ext [] [] h same = refl
list_ext [] (y ∷ ys) h same = absurd (omega (arith, h))
list_ext (x ∷ xs) [] h same = absurd (omega (arith, h))
list_ext (x ∷ xs) (y ∷ ys) h same =
    let head : x ≡ y = same 0 in
    let rest : xs ≡ ys = list_ext xs ys (omega (arith, h)) (λ i. same (suc i)) in cc

digit-has_edge :
    (xs ys : List ℕ) (i j : ℕ)
    → j < 8
    → has_edge xs (8 * i + j) ≡ has_edge ys (8 * i + j)
    → digit j (get_or xs i 0) ≡ digit j (get_or ys i 0)
unfolding has_edge
digit-has_edge xs ys i j lt =
    let byte : (8 * i + j) / 8 ≡ i = omega (arith, lt) in
    let bit : (8 * i + j) % 8 ≡ j = omega (arith, lt) in
    rw (byte, bit)
      (λ same.
        let x = digit-lt j (get_or xs i 0) in
        let y = digit-lt j (get_or ys i 0) in ground (arith, same, x, y))

-- Coverage data is determined by its edges.
coverage_ext :
    (xs ys : List ℕ)
    → IsCoverage xs
    → IsCoverage ys
    → ((e : ℕ) → has_edge xs e ≡ has_edge ys e)
    → xs ≡ ys
coverage_ext xs ys v w same = list_ext xs ys (v.size ∙ sym w.size) λ i.
    digit_ext 8 (get_or xs i 0) (get_or ys i 0) (get_or-lt xs i v.bytes) (get_or-lt ys i w.bytes)
      λ j lt. digit-has_edge xs ys i j lt (same (8 * i + j))

-- A new process of the target, over the shared memory as the last one left it.
abbrev pub another : Tracer → Tracer
another t = record { bitmap = unset; n = 0; shared = t.shared }

-- The guards that the second run passes have edges that the first run left set.
abbrev pub NothingNew : List ℕ → List ℕ → List ℕ → Type 0
NothingNew before is js = (e : ℕ) → passed js e ≡ true → (has_edge before e || passed is e) ≡ true

-- A runner runs a target with one instrumented module of fewer than 4096 guards twice, and the coverage
-- map gets the shared memory after each run, with a node from malloc for the first. If every guard that
-- the second run passes has its edge set already, the second answer is no priority, whatever smaller
-- set of guards the second run passes.
pub second_run-no_prio :
    (m : CoverageMap) (s : Seen) (gs is js : List ℕ) (t : Tracer) (b : Bool)
    → Represents m s
    → get_or gs 0 1 ≡ 0
    → length gs < 4096
    → IsFresh t
    → AllBelow (length gs) is
    → AllBelow (length gs) js
    → NothingNew t.shared is js
    → let (guards, t1) = guard_init true true gs t in
      Returns
        (λ t2.
          let (guards', t3) = guard_init true true gs (another t2) in
          Returns
            (λ t4. (add b (add true m t2.shared).1 t4.shared).0 ≡ no_prio)
            (run_target guards' js t3))
        (run_target guards is t1)
second_run-no_prio m s gs is js t b r z h v below below' old =
    Returns-mono (run_target-Adds gs is t z h v below) λ t2 w.
      let fresh_again : IsFresh (another t2) = record { n = refl; shared = w.mapped.shared } in
      Returns-mono (run_target-Adds gs js (another t2) z h fresh_again below') λ t4 u.
        let same : t4.shared ≡ t2.shared =
          coverage_ext t4.shared t2.shared u.mapped.shared w.mapped.shared
            λ e. ground (arith, u.edges e, w.edges e, old e) in
        rw same (add_again m s t2.shared r w.mapped.shared b)
