-- ===== src/CoverageMap/Spec.antt =====
-- What a coverage map promises: the data seen so far decides the priority of the next.
use mathlib.Core.Bool.{decide, decide_iff}
use mathlib.Core.Path.{◌≡◌, refl}
use native.Mathlib.Decide.{ℕ_discrete}
use coverage_guided_fuzzer.Prelude.{
  ℕ, zero, suc, Bool, true, false, not, ◌&&◌, ◌||◌, List, [], ◌∷◌, if◌then◌else◌,
}
use coverage_guided_fuzzer.CoverageMap.Edges.{has_edge}
use coverage_guided_fuzzer.CoverageMap.{Priority, no_prio, low_prio, high_prio, coverage_map_size}

-- The data whose edges were marked, and the data that was stored as paths, latest first.
-- They differ only where malloc refused a node.
pub record Seen : Type 0 where
  pub traced : List (List ℕ)
  pub stored : List (List ℕ)

abbrev pub nothing : Seen
nothing = record { traced = []; stored = [] }

unfoldable pub bytes_discrete : Discrete (List ℕ)
bytes_discrete = hlevel ℕ_discrete

unfoldable pub known : List (List ℕ) → List ℕ → Bool
unfolding bytes_discrete
known [] cov = false
known (x ∷ xs) cov = decide (bytes_discrete x cov) || known xs cov

-- Some earlier run took edge `e`.
unfoldable pub reached : List (List ℕ) → ℕ → Bool
reached [] e = false
reached (x ∷ xs) e = has_edge x e || reached xs e

-- The data has an edge below `n` that no earlier run took.
unfoldable pub new_edge : ℕ → List (List ℕ) → List ℕ → Bool
unfolding reached
new_edge zero seen cov = false
new_edge (suc e) seen cov = has_edge cov e && not (reached seen e) || new_edge e seen cov

unfoldable pub spec_add : Bool → Seen → List ℕ → Priority × Seen
spec_add allocated s cov =
    let edge = new_edge coverage_map_size s.traced cov in
    let traced = cov ∷ s.traced in
    if known s.stored cov
    then (if edge then high_prio else no_prio, record s { traced = traced })
    else if allocated
    then (if edge then high_prio else low_prio, record { traced = traced; stored = cov ∷ s.stored })
    else (no_prio, record s { traced = traced })

pub known_self : (cov : List ℕ) (xs : List (List ℕ)) → known (cov ∷ xs) cov ≡ true
unfolding known
known_self cov xs = rw ((decide_iff (bytes_discrete cov cov)).1 refl)
