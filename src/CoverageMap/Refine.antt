-- ===== src/CoverageMap/Refine.antt =====
-- The coverage map refines its specification: same answers on every sequence of calls.
use coverage_guided_fuzzer.Prelude.{
  IsBytes, replicate-IsBytes, ℕ, ◌≡◌, refl, sym, ap, ap₂, ◌∙◌, inl, inr, Bool, true, false, ◌||◌,
  Option, some, List, [], ◌∷◌, arith, length, Bool-cases, replicate, length-replicate,
}
use coverage_guided_fuzzer.CoverageMap.{
  CoverageMap, Priority, coverage_map_size, map_bytes, coverage_map_init, mark, bucket, in_chain,
  push_node, add, coverage_map_add,
}
use coverage_guided_fuzzer.CoverageMap.Bitmap.{mark-IsBytes, length-mark}
use coverage_guided_fuzzer.CoverageMap.Edges.{has_edge}
use coverage_guided_fuzzer.CoverageMap.Hashset.{same_bytes-decide, in_chain-push_node}
use coverage_guided_fuzzer.CoverageMap.Marked.{has_edge-mark, mark-new_edge, has_edge_zeros}
use coverage_guided_fuzzer.CoverageMap.Spec.{Seen, nothing, known, reached, new_edge, spec_add}

-- Coverage data as the shared memory holds it: MAP_BYTES bytes.
pub record IsCoverage (cov : List ℕ) : Type 0 where
  pub bytes : IsBytes cov
  pub size : length cov ≡ map_bytes

pub record Represents (m : CoverageMap) (s : Seen) : Type 0 where
  pub bitmap : IsCoverage m.bitmap
  pub edges : (e : ℕ) → has_edge m.bitmap e ≡ reached s.traced e
  pub paths : (cov : List ℕ) → in_chain (m.hashset (bucket cov)) cov ≡ known s.stored cov

-- The fresh map stands for no data.
pub fresh : CoverageMap
fresh = record { bitmap = replicate map_bytes 0; hashset = λ i. [] }

pub fresh-Represents : Represents fresh nothing
unfolding fresh reached known in_chain
fresh-Represents = record {
  bitmap = record {
    bytes = replicate-IsBytes map_bytes 0 (omega arith);
    size = length-replicate {A = ℕ} map_bytes 0;
  };
  edges = λ e. has_edge_zeros map_bytes e;
  paths = λ cov. refl;
}

module _ (m : CoverageMap) (s : Seen) (cov : List ℕ) (r : Represents m s) (v : IsCoverage cov) where
  abbrev marked : List ℕ
  marked = (mark false m.bitmap cov).1

  marked-IsCoverage : IsCoverage marked
  marked-IsCoverage = record {
    bytes = mark-IsBytes m.bitmap cov false r.bitmap.bytes v.bytes;
    size = length-mark m.bitmap cov false ∙ r.bitmap.size;
  }

  marked_edges : (e : ℕ) → has_edge marked e ≡ reached (cov ∷ s.traced) e
  unfolding reached
  marked_edges e =
      has_edge-mark m.bitmap cov e (r.bitmap.size ∙ sym v.size)
      ∙ ap (λ (b : Bool). has_edge cov e || b) (r.edges e)

  stored_paths :
      (d : List ℕ)
      → in_chain (push_node m.hashset (bucket cov) cov (bucket d)) d ≡ known (cov ∷ s.stored) d
  unfolding known
  stored_paths d =
      in_chain-push_node m.hashset cov d ∙ ap₂ ◌||◌ (same_bytes-decide cov d) (r.paths d)

  same_flag : (mark false m.bitmap cov).0 ≡ new_edge coverage_map_size s.traced cov
  same_flag =
      mark-new_edge m.bitmap cov s.traced r.bitmap.size v.size r.bitmap.bytes v.bytes r.edges

  -- One call, whatever malloc answers: the same priority, and the new map stands for the new data.
  pub add_refines :
      (allocated : Bool)
      → let (p, m') = add allocated m cov in
        let (q, s') = spec_add allocated s cov in (p ≡ q) × Represents m' s'
  unfolding add spec_add
  add_refines true = elim (Bool-cases (known s.stored cov)) [
    | inl e ↦
        rw (r.paths cov, same_flag, e)
          (refl, record { bitmap = marked-IsCoverage; edges = marked_edges; paths = r.paths })
    | inr e ↦
        rw (r.paths cov, same_flag, e)
          (refl, record { bitmap = marked-IsCoverage; edges = marked_edges; paths = stored_paths })
  ]
  add_refines false = elim (Bool-cases (known s.stored cov)) [
    | inl e ↦
        rw (r.paths cov, same_flag, e)
          (refl, record { bitmap = marked-IsCoverage; edges = marked_edges; paths = r.paths })
    | inr e ↦
        rw (r.paths cov, same_flag, e)
          (refl, record { bitmap = marked-IsCoverage; edges = marked_edges; paths = r.paths })
  ]

-- The answers to a sequence of calls, each with malloc's answer and its data.
unfoldable pub answers : Option CoverageMap → List (Bool × List ℕ) → List Priority
answers m [] = []
answers m ((allocated, cov) ∷ calls) =
    let (p, m') = coverage_map_add allocated m (some cov) in p ∷ answers m' calls

unfoldable pub spec_answers : Seen → List (Bool × List ℕ) → List Priority
spec_answers s [] = []
spec_answers s ((allocated, cov) ∷ calls) =
    let (p, s') = spec_add allocated s cov in p ∷ spec_answers s' calls

abbrev pub AllCoverage : List (Bool × List ℕ) → Type 0
AllCoverage [] = Unit {0}
AllCoverage ((allocated, cov) ∷ calls) = IsCoverage cov × AllCoverage calls

answers-Represents :
    (m : CoverageMap) (s : Seen) (calls : List (Bool × List ℕ))
    → Represents m s
    → AllCoverage calls
    → answers (some m) calls ≡ spec_answers s calls
unfolding answers spec_answers coverage_map_add
answers-Represents m s [] r v = refl
answers-Represents m s ((allocated, cov) ∷ calls) r v =
    let (same, next) = add_refines m s cov r v.0 allocated in
    ap₂ ◌∷◌ same
      (answers-Represents (add allocated m cov).1 (spec_add allocated s cov).1 calls next v.1)

-- From `coverage_map_init` on, every sequence of calls of `coverage_map_add` with MAP_BYTES bytes of
-- data, each with malloc granting or refusing a node, is answered as the specification says.
pub answers_refine :
    (calls : List (Bool × List ℕ))
    → AllCoverage calls
    → answers (coverage_map_init true) calls ≡ spec_answers nothing calls
unfolding coverage_map_init fresh
answers_refine calls v = answers-Represents fresh nothing calls fresh-Represents v
