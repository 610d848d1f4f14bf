-- ===== src/CoverageMap/Verdict.antt =====
-- What a single answer of `coverage_map_add` tells its caller.
use coverage_guided_fuzzer.Prelude.{
  ℕ, zero, suc, ◌<◌, ◌≡◌, refl, sym, ◌∙◌, ◌↔◌, Bool, true, false, List, ◌∷◌, arith,
}
use coverage_guided_fuzzer.CoverageMap.{CoverageMap, coverage_map_size, no_prio, high_prio, add}
use coverage_guided_fuzzer.CoverageMap.Edges.{has_edge}
use coverage_guided_fuzzer.CoverageMap.Marked.{new_edge_intro, new_edge_elim}
use coverage_guided_fuzzer.CoverageMap.Refine.{IsCoverage, Represents, add_refines}
use coverage_guided_fuzzer.CoverageMap.Spec.{Seen, known, reached, new_edge, spec_add, known_self}

-- An edge that the data has and the bitmap lacks.
abbrev pub NewEdge : CoverageMap → List ℕ → Type 0
NewEdge m cov =
    (e : ℕ) × (e < coverage_map_size) × (has_edge cov e ≡ true) × (has_edge m.bitmap e ≡ false)

-- No data has an edge that itself, seen before, lacks.
no_new_edge : (n : ℕ) (cov : List ℕ) (seen : List (List ℕ)) → new_edge n (cov ∷ seen) cov ≡ false
unfolding new_edge reached
no_new_edge zero cov seen = refl
no_new_edge (suc n) cov seen = ground (arith, no_new_edge n cov seen)

spec_again :
    (s : Seen) (cov : List ℕ) (b : Bool) → (spec_add b (spec_add true s cov).1 cov).0 ≡ no_prio
unfolding spec_add known
spec_again s cov b =
    ground (arith, no_new_edge coverage_map_size cov s.traced, known_self cov s.stored)

module _ (m : CoverageMap) (s : Seen) (cov : List ℕ) (r : Represents m s) (v : IsCoverage cov) where
  -- The same data once more is of no interest, if its first call got its node.
  pub add_again : (b : Bool) → (add b (add true m cov).1 cov).0 ≡ no_prio
  add_again b =
      let (same, next) = add_refines m s cov r v true in
      (add_refines (add true m cov).1 (spec_add true s cov).1 cov next v b).0 ∙ spec_again s cov b

  new_edge_iff : (new_edge coverage_map_size s.traced cov ≡ true) ↔ NewEdge m cov
  new_edge_iff = (
    λ h.
        let (e, lt, here, away) = new_edge_elim coverage_map_size s.traced cov h in
        (e, lt, here, r.edges e ∙ away),
    λ (e, lt, here, away).
        new_edge_intro coverage_map_size e s.traced cov lt here (sym (r.edges e) ∙ away),
  )

  spec_high : (spec_add true s cov).0 ≡ high_prio → new_edge coverage_map_size s.traced cov ≡ true
  unfolding spec_add
  spec_high e = ground arith

  high_spec : new_edge coverage_map_size s.traced cov ≡ true → (spec_add true s cov).0 ≡ high_prio
  unfolding spec_add
  high_spec e = ground arith

  -- With a node from malloc, the answer is high priority exactly when the data has an edge below
  -- 4096 whose bit in the bitmap is not set.
  pub high_prio_iff : ((add true m cov).0 ≡ high_prio) ↔ NewEdge m cov
  high_prio_iff =
      let same = (add_refines m s cov r v true).0 in
      (λ h. new_edge_iff.0 (spec_high (sym same ∙ h)), λ n. same ∙ high_spec (new_edge_iff.1 n))
