-- ===== src/Instrumentation/Trace.antt =====
-- The guards of a target with one instrumented module, and the coverage that a run of it leaves.
use mathlib.Core.Path.{subst}
use coverage_guided_fuzzer.Prelude.{
  ltb, ℕ, zero, suc, ◌+◌, ◌/◌, ◌%◌, ◌^◌, ◌<◌, ◌≡◌, refl, ap, ◌∙◌, ◌↔◌, Bool, true, false, ◌||◌,
  Option, some, List, [], ◌∷◌, arith, ◌==◌, get_or, length, Returns, returns, Returns-bind,
  Returns-mono, ◌>>=◌,
}
use coverage_guided_fuzzer.Prelude.Bits.Digits.{two-pow-lt}
use coverage_guided_fuzzer.CoverageMap.{CoverageMap, high_prio, add, coverage_map_size}
use coverage_guided_fuzzer.CoverageMap.Edges.{has_edge}
use coverage_guided_fuzzer.CoverageMap.Refine.{IsCoverage, Represents}
use coverage_guided_fuzzer.CoverageMap.Spec.{Seen}
use coverage_guided_fuzzer.CoverageMap.Verdict.{high_prio_iff}
use coverage_guided_fuzzer.Instrumentation.{Tracer, to_shared, number, guard_init, trace_pc_guard}
use coverage_guided_fuzzer.Instrumentation.Bytes.{or_at-OrAt, has_edge-OrAt}

pub record IsMapped (t : Tracer) : Type 0 where
  pub bitmap : t.bitmap ≡ to_shared
  pub shared : IsCoverage t.shared

-- The edge of a guard is added, and nothing else.
pub record Adds (added : ℕ → Bool) (before : List ℕ) (t : Tracer) : Type 0 where
  pub mapped : IsMapped t
  pub edges : (e : ℕ) → has_edge t.shared e ≡ (has_edge before e || added e)

trace-Adds :
    (guard : ℕ) (t : Tracer)
    → 0 < guard
    → guard < 4096
    → IsMapped t
    → Returns (Adds (λ e. e == guard) t.shared) (trace_pc_guard guard t)
unfolding trace_pc_guard
trace-Adds guard t pos small v =
    let nonzero : (guard == 0) ≡ false = ground arith in
    rw (nonzero, v.bitmap)
      (Returns-bind
        (or_at-OrAt t.shared (guard / 8) (2 ^ (guard % 8)) (omega (arith, small, v.shared.size)))
        λ shared w. returns (record {
          mapped = record {
            bitmap = v.bitmap;
            shared = record {
              bytes = w.bytes v.shared.bytes (two-pow-lt (guard % 8) 8 (omega arith));
              size = w.size ∙ v.shared.size;
            };
          };
          edges = λ e. has_edge-OrAt t.shared shared guard e w;
        }))

-- The guards that `number` writes from N on.
abbrev counted : ℕ → ℕ → List ℕ
counted n zero = []
counted n (suc k) = (n + 1) ∷ counted (n + 1) k

number-counted :
    (n : ℕ) (gs : List ℕ) → n + length gs < 2 ^ 32 → (number n gs).0 ≡ counted n (length gs)
unfolding number
number-counted n [] h = refl
number-counted n (g ∷ gs) h =
    let small : (n + 1) % 2 ^ 64 ≡ n + 1 = omega (arith, h) in
    let small' : (n + 1) % 2 ^ 32 ≡ n + 1 = omega (arith, h) in
    rw (small, small', number-counted (n + 1) gs (omega (arith, h)))

get_or-counted : (n k i : ℕ) → i < k → get_or (counted n k) i 0 ≡ n + 1 + i
get_or-counted n zero i h = absurd (omega arith)
get_or-counted n (suc k) zero h = omega arith
get_or-counted n (suc k) (suc i) h = omega (arith, get_or-counted (n + 1) k i (omega (arith, h)))

-- A run of the target, as the guards that it passes: their indices in the module.
unfoldable pub run_target : List ℕ → List ℕ → Tracer → Option Tracer
run_target guards [] t = some t
run_target guards (i ∷ is) t = trace_pc_guard (get_or guards i 0) t >>= run_target guards is

-- Edge `e` belongs to one of the guards.
abbrev pub passed : List ℕ → ℕ → Bool
passed [] e = false
passed (i ∷ is) e = (e == i + 1) || passed is e

abbrev pub AllBelow : ℕ → List ℕ → Type 0
AllBelow k [] = Unit {0}
AllBelow k (i ∷ is) = (i < k) × AllBelow k is

run-Adds :
    (k : ℕ) (is : List ℕ) (t : Tracer)
    → k < 4096
    → AllBelow k is
    → IsMapped t
    → Returns (Adds (passed is) t.shared) (run_target (counted 0 k) is t)
unfolding run_target
run-Adds k [] t h b v = returns (record { mapped = v; edges = λ e. ground arith })
run-Adds k (i ∷ is) t h b v =
    let guard : get_or (counted 0 k) i 0 ≡ 0 + 1 + i = get_or-counted 0 k i b.0 in
    rw guard (
      Returns-bind (trace-Adds (0 + 1 + i) t (omega arith) (omega (arith, h, b.0)) v) λ t1 w.
        Returns-mono (run-Adds k is t1 h b.1 w.mapped)
          λ t2 u. record { mapped = u.mapped; edges = λ e. ground (arith, u.edges e, w.edges e) })

-- A target that has not traced anything yet, over shared memory of the right size.
pub record IsFresh (t : Tracer) : Type 0 where
  pub n : t.n ≡ 0
  pub shared : IsCoverage t.shared

init-counted :
    (gs : List ℕ) (t : Tracer)
    → get_or gs 0 1 ≡ 0
    → length gs < 4096
    → IsFresh t
    → (guard_init true true gs t).0 ≡ counted 0 (length gs)
unfolding guard_init
init-counted [] t z h v = refl
init-counted (g ∷ gs) t z h v =
    ground (arith, z, h)
    ∙ ap (λ (n : ℕ). (number n (g ∷ gs)).0) v.n
    ∙ number-counted 0 (g ∷ gs) (omega (arith, h))

init-IsMapped :
    (gs : List ℕ) (t : Tracer)
    → get_or gs 0 1 ≡ 0
    → length gs < 4096
    → IsFresh t
    → IsMapped (guard_init true true gs t).1 × ((guard_init true true gs t).1.shared ≡ t.shared)
unfolding guard_init
init-IsMapped [] t z h v = absurd (omega (arith, z))
init-IsMapped (g ∷ gs) t z h v =
    let fits : ltb 4096 (length (g ∷ gs) + 1) ≡ false = ground (arith, h) in
    let zero_guard : g ≡ 0 = z in
    rw (fits, zero_guard) (record { bitmap = refl; shared = v.shared }, refl)

-- A target whose only instrumented module has fewer than 4096 guards, not numbered yet, is given the
-- shared memory. Whatever guards its run passes, the code does not leave the shared memory, and the run
-- adds to it exactly the edges of these guards: edge i + 1 for the guard with index i.
pub run_target-Adds :
    (gs is : List ℕ) (t : Tracer)
    → get_or gs 0 1 ≡ 0
    → length gs < 4096
    → IsFresh t
    → AllBelow (length gs) is
    → let (guards, t1) = guard_init true true gs t in
      Returns (Adds (passed is) t.shared) (run_target guards is t1)
run_target-Adds gs is t z h v b =
    let (mapped, same) = init-IsMapped gs t z h v in
    rw (init-counted gs t z h v) (
      subst
        (λ (s : List ℕ).
          Returns (Adds (passed is) s)
            (run_target (counted 0 (length gs)) is (guard_init true true gs t).1))
        same (run-Adds (length gs) is (guard_init true true gs t).1 h b mapped))

-- A guard that was passed, with an edge that the bitmap lacks.
abbrev pub PassedNew : CoverageMap → List ℕ → Type 0
PassedNew m is =
    (e : ℕ) × (e < coverage_map_size) × (passed is e ≡ true) × (has_edge m.bitmap e ≡ false)

-- For such a run over shared memory with no edge set, the coverage map, given a node by malloc, answers
-- high priority exactly when the run passed a guard whose edge the bitmap lacks.
pub high_prio_iff_passed :
    (m : CoverageMap) (s : Seen) (gs is : List ℕ) (t : Tracer)
    → Represents m s
    → get_or gs 0 1 ≡ 0
    → length gs < 4096
    → IsFresh t
    → AllBelow (length gs) is
    → ((e : ℕ) → has_edge t.shared e ≡ false)
    → let (guards, t1) = guard_init true true gs t in
      Returns
        (λ t2. ((add true m t2.shared).0 ≡ high_prio) ↔ PassedNew m is)
        (run_target guards is t1)
high_prio_iff_passed m s gs is t r z h v b empty =
    Returns-mono (run_target-Adds gs is t z h v b) λ t2 w.
      let (to, from) = high_prio_iff m s t2.shared r w.mapped.shared in
      (
        λ e.
            let (edge, lt, here, away) = to e in
            (edge, lt, ground (arith, w.edges edge, empty edge, here), away),
        λ (edge, lt, here, away).
            from (edge, lt, ground (arith, w.edges edge, empty edge, here), away),
      )
