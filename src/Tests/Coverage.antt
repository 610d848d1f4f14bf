-- ===== src/Tests/Coverage.antt =====
-- The hash, and the coverage map on data of a few edges.
use coverage_guided_fuzzer.Prelude.{
  ℕ, ◌<◌, ◌≡◌, refl, ◌↔◌, Bool, true, false, List, [], ◌∷◌, arith, replicate, length-replicate,
  replicate-IsBytes,
}
use coverage_guided_fuzzer.Hash.{hash}
use coverage_guided_fuzzer.Hash.Bijection.{unhash, unhash-hash, hash_injective}
use coverage_guided_fuzzer.CoverageMap.{
  no_prio, low_prio, high_prio, coverage_map_init, coverage_map_add, add, mark, bucket, helpr_hash,
  in_chain,
}
use coverage_guided_fuzzer.CoverageMap.Refine.{
  IsCoverage, AllCoverage, fresh, fresh-Represents, answers, spec_answers, answers_refine,
}
use coverage_guided_fuzzer.CoverageMap.Spec.{nothing}
use coverage_guided_fuzzer.CoverageMap.Verdict.{NewEdge, high_prio_iff}

hash_one : hash 1 ≡ 6238072747940578789
unfolding hash
hash_one = refl

unhash-hash_example : unhash (hash 42) ≡ 42
unhash-hash_example = unhash-hash 42 (omega arith)

hash_injective_example : ◌≡◌ {A = ℕ} 7 7
hash_injective_example = hash_injective 7 7 (omega arith) (omega arith) refl

-- Edge 1 alone, and edges 1 and 2.
abbrev one_edge : List ℕ
one_edge = 2 ∷ replicate 511 0

abbrev two_edges : List ℕ
two_edges = 6 ∷ replicate 511 0

abbrev calls : List (Bool × List ℕ)
calls =
    (true, one_edge)
    ∷ (true, two_edges)
    ∷ (true, one_edge)
    ∷ (false, 4 ∷ replicate 511 0)
    ∷ (true, 4 ∷ replicate 511 0)
    ∷ []

starts_with-IsCoverage : (b : ℕ) → b < 256 → IsCoverage (b ∷ replicate 511 0)
starts_with-IsCoverage b h = record {
  bytes = (h, replicate-IsBytes 511 0 (omega arith));
  size = omega (arith, length-replicate {A = ℕ} 511 0);
}

calls-AllCoverage : AllCoverage calls
calls-AllCoverage = (
  starts_with-IsCoverage 2 (omega arith),
  (
    starts_with-IsCoverage 6 (omega arith),
    (
      starts_with-IsCoverage 2 (omega arith),
      (starts_with-IsCoverage 4 (omega arith), (starts_with-IsCoverage 4 (omega arith), tt)),
    ),
  ),
)

calls_run :
    answers (coverage_map_init true) calls
    ≡ high_prio ∷ high_prio ∷ no_prio ∷ no_prio ∷ low_prio ∷ []
unfolding answers coverage_map_init coverage_map_add add mark bucket helpr_hash in_chain
calls_run = refl

answers_refine_example : answers (coverage_map_init true) calls ≡ spec_answers nothing calls
answers_refine_example = answers_refine calls calls-AllCoverage

high_prio_iff_example : ((add true fresh one_edge).0 ≡ high_prio) ↔ NewEdge fresh one_edge
high_prio_iff_example =
    high_prio_iff fresh nothing one_edge fresh-Represents (starts_with-IsCoverage 2 (omega arith))
