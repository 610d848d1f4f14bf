-- ===== src/CoverageMap/Marked.antt =====
-- The bitmap after a call, read edge by edge, and the flag as a question about edges.
use coverage_guided_fuzzer.Prelude.{
  IsBytes, ℕ, zero, suc, ◌+◌, ◌*◌, ◌/◌, ◌%◌, ◌<◌, ◌≡◌, refl, sym, ap, ◌∙◌, inl, inr, true, false,
  not, ◌&&◌, ◌||◌, List, arith, ◌==◌, ==_iff, get_or, length, Bool-cases, Bool_ext, replicate,
}
use coverage_guided_fuzzer.Prelude.Bits.Digits.{digit, digit-or, digit-lt, digit-zero}
use coverage_guided_fuzzer.CoverageMap.{mark, coverage_map_size, map_bytes}
use coverage_guided_fuzzer.CoverageMap.Bitmap.{get_or-mark, mark_new, mark_old}
use coverage_guided_fuzzer.CoverageMap.Edges.{has_edge}
use coverage_guided_fuzzer.CoverageMap.Spec.{reached, new_edge}

pub get_or_zeros : (n i : ℕ) → get_or {A = ℕ} (replicate n 0) i 0 ≡ 0
get_or_zeros zero i = refl
get_or_zeros (suc n) zero = refl
get_or_zeros (suc n) (suc i) = get_or_zeros n i

-- After the loop an edge is marked if it was or if the data has it.
pub has_edge-mark :
    (bs cs : List ℕ) (e : ℕ)
    → length bs ≡ length cs
    → has_edge (mark false bs cs).1 e ≡ (has_edge cs e || has_edge bs e)
unfolding has_edge
has_edge-mark bs cs e h = ground (
  arith,
  ap (digit (e % 8)) (get_or-mark bs cs false (e / 8) h),
  digit-or (e % 8) (get_or bs (e / 8) 0) (get_or cs (e / 8) 0),
  digit-lt (e % 8) (get_or bs (e / 8) 0),
  digit-lt (e % 8) (get_or cs (e / 8) 0),
)

-- A new edge below `n` is one that the data has and no earlier run took.
pub new_edge_intro :
    (n e : ℕ) (seen : List (List ℕ)) (cov : List ℕ)
    → e < n
    → has_edge cov e ≡ true
    → reached seen e ≡ false
    → new_edge n seen cov ≡ true
unfolding new_edge
new_edge_intro zero e seen cov lt h r = absurd (omega arith)
new_edge_intro (suc n) e seen cov lt h r = elim (Bool-cases (e == n)) [
  | inl s ↦ ground (arith, (==_iff e n).0 s, h, r)
  | inr s ↦ ground (arith, new_edge_intro n e seen cov)
]

pub new_edge_elim :
    (n : ℕ) (seen : List (List ℕ)) (cov : List ℕ)
    → new_edge n seen cov ≡ true
    → (e : ℕ) × (e < n) × (has_edge cov e ≡ true) × (reached seen e ≡ false)
unfolding new_edge
new_edge_elim zero seen cov h = cc
new_edge_elim (suc n) seen cov h = elim (Bool-cases (has_edge cov n && not (reached seen n))) [
  | inl s ↦ (n, omega arith, ground arith, ground arith)
  | inr s ↦
      let (e, lt, here, away) = new_edge_elim n seen cov (ground arith) in
      (e, omega arith, here, away)
]

-- Edge `8 * i + j` is bit `j` of byte `i`.
has_edge_at :
    (bs : List ℕ) (i j : ℕ) → j < 8 → has_edge bs (8 * i + j) ≡ (digit j (get_or bs i 0) == 1)
unfolding has_edge
has_edge_at bs i j lt =
    let q : (8 * i + j) / 8 ≡ i = omega arith in
    let r : (8 * i + j) % 8 ≡ j = omega arith in rw (q, r)

module _ (bs cov : List ℕ) (seen : List (List ℕ)) (len : length bs ≡ map_bytes)
    (len' : length cov ≡ map_bytes) (vb : IsBytes bs) (vc : IsBytes cov)
    (edges : (e : ℕ) → has_edge bs e ≡ reached seen e) where
  flag_new : (mark false bs cov).0 ≡ true → new_edge coverage_map_size seen cov ≡ true
  flag_new h =
      let (i, j, lt, lt', z, o) = mark_new bs cov vb vc h in
      new_edge_intro coverage_map_size (8 * i + j) seen cov (omega arith)
        (has_edge_at cov i j lt' ∙ ap (λ (d : ℕ). d == 1) o)
        (sym (edges (8 * i + j)) ∙ has_edge_at bs i j lt' ∙ ap (λ (d : ℕ). d == 1) z)

  new_flag : new_edge coverage_map_size seen cov ≡ true → (mark false bs cov).0 ≡ true
  new_flag h =
      let (e, lt, here, away) = new_edge_elim coverage_map_size seen cov h in
      elim (Bool-cases (mark false bs cov).0) [
        | inl t ↦ t
        | inr f ↦ ground (
          arith,
          edges e,
          has_edge-mark bs cov e (len ∙ sym len'),
          ap (λ (b : List ℕ). has_edge b e) (mark_old bs cov f),
        )
      ]

  -- The flag of the loop says whether the data has a new edge.
  pub mark-new_edge : (mark false bs cov).0 ≡ new_edge coverage_map_size seen cov
  mark-new_edge = Bool_ext _ _ flag_new new_flag

pub has_edge_zeros : (n e : ℕ) → has_edge (replicate n 0) e ≡ false
unfolding has_edge
has_edge_zeros n e = rw (get_or_zeros n (e / 8), digit-zero)
