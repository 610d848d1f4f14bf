-- ===== src/CoverageMap/Hashset.antt =====
-- The hash set against a plain list of paths.
use mathlib.Core.Bool.{decide, decide_iff}
use coverage_guided_fuzzer.Prelude.{
  ℕ, ◌≡◌, refl, ap, true, ◌||◌, List, [], ◌∷◌, arith, ==_refl, Bool-cases, Bool_ext, inl, inr,
}
use coverage_guided_fuzzer.CoverageMap.{same_bytes, in_chain, bucket, push_node}
use coverage_guided_fuzzer.CoverageMap.Spec.{known, bytes_discrete}

pub same_bytes→eq : (a b : List ℕ) → same_bytes a b ≡ true → a ≡ b
unfolding same_bytes
same_bytes→eq [] [] h = refl
same_bytes→eq [] (b ∷ bs) h = cc
same_bytes→eq (a ∷ as') [] h = cc
same_bytes→eq (a ∷ as') (b ∷ bs) h = ground (arith, same_bytes→eq as' bs)

pub same_bytes_refl : (a : List ℕ) → same_bytes a a ≡ true
unfolding same_bytes
same_bytes_refl [] = refl
same_bytes_refl (a ∷ as') = rw (==_refl a) (same_bytes_refl as')

-- The comparison of the code is the equality of the specification.
pub same_bytes-decide : (a b : List ℕ) → same_bytes a b ≡ decide (bytes_discrete a b)
same_bytes-decide a b =
    Bool_ext (same_bytes a b) (decide (bytes_discrete a b))
      (λ h. (decide_iff (bytes_discrete a b)).1 (same_bytes→eq a b h))
      (λ h. rw ((decide_iff (bytes_discrete a b)).0 h) (same_bytes_refl b))

-- The walk along a chain finds what the list holds.
pub in_chain-known : (xs : List (List ℕ)) (cov : List ℕ) → in_chain xs cov ≡ known xs cov
unfolding in_chain known
in_chain-known [] cov = refl
in_chain-known (x ∷ xs) cov = ground (arith, same_bytes-decide x cov, in_chain-known xs cov)

-- A new node is found in its own bucket, and changes what is found for no other data.
pub in_chain-push_node :
    (h : ℕ → List (List ℕ)) (cov d : List ℕ)
    → in_chain (push_node h (bucket cov) cov (bucket d)) d
      ≡ (same_bytes cov d || in_chain (h (bucket d)) d)
unfolding in_chain
in_chain-push_node h cov d = elim (Bool-cases (same_bytes cov d)) [
  | inl e ↦ ground (arith, e, ap bucket (same_bytes→eq cov d e))
  | inr e ↦ ground (arith, e)
]
