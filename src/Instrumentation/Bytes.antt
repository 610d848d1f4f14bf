-- ===== src/Instrumentation/Bytes.antt =====
-- What one marked guard does to the shared memory.
use native.Mathlib.Nat.{pow-suc}
use coverage_guided_fuzzer.Prelude.{
  IsBytes, ℕ, zero, suc, ◌/◌, ◌%◌, ◌^◌, ◌<◌, ◌≡◌, refl, ap, ◌∙◌, inl, inr, false, ◌||◌, List, [],
  ◌∷◌, arith, ◌==◌, if◌then◌else◌, bit_or, get_or, length, replicate, Bool-cases, Returns, returns,
  Returns-bind,
}
use coverage_guided_fuzzer.Prelude.Bits.{or-lt}
use coverage_guided_fuzzer.Prelude.Bits.Digits.{digit, digit-or, digit-lt, digit-zero}
use coverage_guided_fuzzer.CoverageMap.Edges.{has_edge}
use coverage_guided_fuzzer.CoverageMap.Marked.{get_or_zeros}
use coverage_guided_fuzzer.Instrumentation.{or_at}

digit-two_pow : (i j : ℕ) → digit i (2 ^ j) ≡ (if i == j then 1 else 0)
unfolding digit
digit-two_pow zero zero = refl
digit-two_pow zero (suc j) = ground (arith, pow-suc 2 j)
digit-two_pow (suc i) zero = rw (digit-zero i) (ground arith)
digit-two_pow (suc i) (suc j) =
    let half : 2 ^ suc j / 2 ≡ 2 ^ j = omega (arith, pow-suc 2 j) in
    rw half (digit-two_pow i j ∙ ground arith)

-- The bytes after `bitmap[i] |= b`.
pub record OrAt (bs : List ℕ) (i b : ℕ) (bs' : List ℕ) : Type 0 where
  pub size : length bs' ≡ length bs
  pub bytes : IsBytes bs → b < 256 → IsBytes bs'
  pub cells :
      (k : ℕ) → get_or bs' k 0 ≡ (if k == i then bit_or (get_or bs k 0) b else get_or bs k 0)

pub or_at-OrAt : (bs : List ℕ) (i b : ℕ) → i < length bs → Returns (OrAt bs i b) (or_at bs i b)
unfolding or_at
or_at-OrAt [] i b h = absurd (omega arith)
or_at-OrAt (c ∷ cs) zero b h =
    returns
      (record { size = refl; bytes = λ v lt. (or-lt 8 c b v.0 lt, v.1); cells = first_cell c cs b })
  where
    first_cell :
        (c : ℕ) (cs : List ℕ) (b k : ℕ)
        → get_or (bit_or c b ∷ cs) k 0
          ≡ (if k == 0 then bit_or (get_or (c ∷ cs) k 0) b else get_or (c ∷ cs) k 0)
    first_cell c cs b zero = refl
    first_cell c cs b (suc k) = ground arith
or_at-OrAt (c ∷ cs) (suc i) b h = Returns-bind (or_at-OrAt cs i b (omega (arith, h))) λ cs' w.
    returns (record {
      size = ap suc w.size;
      bytes = λ v lt. (v.0, w.bytes v.1 lt);
      cells = next_cell cs' w;
    })
  where
    next_cell :
        (cs' : List ℕ)
        → OrAt cs i b cs'
        → (k : ℕ)
        → get_or (c ∷ cs') k 0
          ≡ (if k == suc i then bit_or (get_or (c ∷ cs) k 0) b else get_or (c ∷ cs) k 0)
    next_cell cs' w zero = ground arith
    next_cell cs' w (suc k) = w.cells k ∙ ground arith

-- Setting the bit of guard `g` adds edge `g`, and no other.
pub has_edge-OrAt :
    (bs bs' : List ℕ) (g e : ℕ)
    → OrAt bs (g / 8) (2 ^ (g % 8)) bs'
    → has_edge bs' e ≡ (has_edge bs e || (e == g))
unfolding has_edge
has_edge-OrAt bs bs' g e w = elim (Bool-cases (e / 8 == g / 8)) [
  | inl same ↦
      rw (w.cells (e / 8), same)
        (ground (
          arith,
          same,
          digit-or (e % 8) (get_or bs (e / 8) 0) (2 ^ (g % 8)),
          digit-two_pow (e % 8) (g % 8),
          digit-lt (e % 8) (get_or bs (e / 8) 0),
        ))
  | inr differs ↦ rw (w.cells (e / 8), differs) (ground (arith, differs))
]

-- Cleared memory has no edge.
pub zeros-has_edge : (n e : ℕ) → has_edge (replicate n 0) e ≡ false
unfolding has_edge
zeros-has_edge n e = rw (get_or_zeros n (e / 8), digit-zero (e % 8))
