-- ===== src/CoverageMap/Bitmap.antt =====
-- The first loop of `coverage_map_add`: the new bitmap, and what the flag says of it.
use coverage_guided_fuzzer.Prelude.{
  IsBytes, ℕ, zero, suc, ◌<◌, ◌≡◌, refl, sym, ap, inl, inr, Bool, true, false, List, [], ◌∷◌, arith,
  bit_or, ==_iff, get_or, length,
}
use coverage_guided_fuzzer.Prelude.Bits.{or-lt, zero-or}
use coverage_guided_fuzzer.Prelude.Bits.Digits.{digit, or_cases}
use coverage_guided_fuzzer.CoverageMap.{mark}

-- Once set, the flag stays.
mark_found : (bs cs : List ℕ) → (mark true bs cs).0 ≡ true
unfolding mark
mark_found [] cs = refl
mark_found (b ∷ bs) [] = refl
mark_found (b ∷ bs) (c ∷ cs) = mark_found bs cs

pub length-mark : (bs cs : List ℕ) (f : Bool) → length (mark f bs cs).1 ≡ length bs
unfolding mark
length-mark [] cs f = refl
length-mark (b ∷ bs) [] f = refl
length-mark (b ∷ bs) (c ∷ cs) f = ap suc (length-mark bs cs _)

pub mark-IsBytes : (bs cs : List ℕ) (f : Bool) → IsBytes bs → IsBytes cs → IsBytes (mark f bs cs).1
unfolding mark
mark-IsBytes [] cs f v w = tt
mark-IsBytes (b ∷ bs) [] f v w = v
mark-IsBytes (b ∷ bs) (c ∷ cs) f v w = (or-lt 8 b c v.0 w.0, mark-IsBytes bs cs _ v.1 w.1)

pub get_or-mark :
    (bs cs : List ℕ) (f : Bool) (i : ℕ)
    → length bs ≡ length cs
    → get_or (mark f bs cs).1 i 0 ≡ bit_or (get_or bs i 0) (get_or cs i 0)
unfolding mark
get_or-mark [] [] f i e = sym (zero-or 0)
get_or-mark [] (c ∷ cs) f i e = absurd (omega arith)
get_or-mark (b ∷ bs) [] f i e = absurd (omega arith)
get_or-mark (b ∷ bs) (c ∷ cs) f zero e = refl
get_or-mark (b ∷ bs) (c ∷ cs) f (suc i) e = get_or-mark bs cs _ i (omega arith)

-- A byte with a bit that the bitmap lacks.
abbrev NewBit : List ℕ → List ℕ → Type 0
NewBit bs cs =
    (i : ℕ) × (j : ℕ) × (i < length bs)
    × (j < 8)
    × (digit j (get_or bs i 0) ≡ 0)
    × (digit j (get_or cs i 0) ≡ 1)

pub mark_new :
    (bs cs : List ℕ) → IsBytes bs → IsBytes cs → (mark false bs cs).0 ≡ true → NewBit bs cs
unfolding mark
mark_new [] cs v w h = cc
mark_new (b ∷ bs) [] v w h = cc
mark_new (b ∷ bs) (c ∷ cs) v w h = elim (or_cases 8 b c v.0 w.0) [
  | inl e ↦
      let (i, j, lt, lt', z, o) = mark_new bs cs v.1 w.1 (rw ((==_iff _ b).1 e) at h) in
      (suc i, j, omega arith, lt', z, o)
  | inr (j, lt, z, o) ↦ (0, j, omega arith, lt, z, o)
]

-- With the flag unset the bitmap is unchanged.
pub mark_old : (bs cs : List ℕ) → (mark false bs cs).0 ≡ false → (mark false bs cs).1 ≡ bs
unfolding mark
mark_old [] cs h = refl
mark_old (b ∷ bs) [] h = refl
mark_old (b ∷ bs) (c ∷ cs) h = ground (arith, mark_found bs cs, mark_old bs cs)
