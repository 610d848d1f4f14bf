-- ===== src/Instrumentation/Overflow.antt =====
-- Where the numbering of guards goes wrong.
use coverage_guided_fuzzer.Prelude.{
  ℕ, zero, suc, ◌+◌, ◌/◌, ◌%◌, ◌^◌, ◌≤◌, ◌<◌, ◌≡◌, refl, ap, ◌∙◌, true, false, none, List, [], ◌∷◌,
  arith, ◌==◌, ltb, get_or, length,
}
use coverage_guided_fuzzer.Instrumentation.{
  Pointer, Tracer, unset, to_shared, map_failed, number, guard_init, or_at, trace_pc_guard,
}

or_at-none : (bs : List ℕ) (i b : ℕ) → length bs ≤ i → or_at bs i b ≡ none
unfolding or_at
or_at-none [] i b h = refl
or_at-none (c ∷ cs) zero b h = absurd (omega arith)
or_at-none (c ∷ cs) (suc i) b h = rw (or_at-none cs i b (omega (arith, h)))

first-number : (n g : ℕ) (gs : List ℕ) → n + 1 < 2 ^ 32 → get_or (number n (g ∷ gs)).0 0 0 ≡ n + 1
unfolding number
first-number n g gs h = omega (arith, h)

trace-out :
    (guard : ℕ) (p : Pointer) (n : ℕ) (bytes : List ℕ)
    → 4096 ≤ guard
    → length bytes ≡ 512
    → trace_pc_guard guard (record { bitmap = p; n = n; shared = bytes }) ≡ none
unfolding trace_pc_guard
trace-out guard unset n bytes h size =
    let nonzero : (guard == 0) ≡ false = ground (arith, h) in rw nonzero
trace-out guard to_shared n bytes h size =
    let nonzero : (guard == 0) ≡ false = ground (arith, h) in
    rw (nonzero, or_at-none bytes (guard / 8) (2 ^ (guard % 8)) (omega (arith, h, size)))
trace-out guard map_failed n bytes h size =
    let nonzero : (guard == 0) ≡ false = ground (arith, h) in rw nonzero

init-first :
    (t : Tracer) (gs : List ℕ)
    → get_or gs 0 1 ≡ 0
    → length gs < 4096
    → t.n + 1 < 2 ^ 32
    → let (guards, t1) = guard_init true true gs t in
      (get_or guards 0 0 ≡ t.n + 1) × (t1.shared ≡ t.shared)
unfolding guard_init
init-first t [] z h few = absurd (omega (arith, z))
init-first t (g ∷ gs) z h few =
    let fits : ltb 4096 (length (g ∷ gs) + 1) ≡ false = ground (arith, h) in
    let zero_guard : g ≡ 0 = z in rw (fits, zero_guard) (first-number t.n 0 gs few, refl)

-- The test of `__sanitizer_cov_trace_pc_guard_init` counts the guards of one module only. When modules
-- with 4095 guards or more were numbered before, another module's first guard has a number of 4096 at
-- least, and passing it writes past the shared memory.
pub later_module_overflows :
    (t : Tracer) (gs : List ℕ)
    → get_or gs 0 1 ≡ 0
    → length gs < 4096
    → 4095 ≤ t.n
    → t.n + 1 < 2 ^ 32
    → length t.shared ≡ 512
    → let (guards, t1) = guard_init true true gs t in trace_pc_guard (get_or guards 0 0) t1 ≡ none
later_module_overflows t gs z h many few size =
    let (guards, t1) = guard_init true true gs t in
    let (guard, same) = init-first t gs z h few in
    trace-out (get_or guards 0 0) t1.bitmap t1.n t1.shared (omega (arith, guard, many))
      (ap (λ (bs : List ℕ). length bs) same ∙ size)
