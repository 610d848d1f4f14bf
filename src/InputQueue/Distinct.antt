-- ===== src/InputQueue/Distinct.antt =====
-- How often a string is queued.
use coverage_guided_fuzzer.Prelude.{
  ℕ, ◌+◌, ◌<◌, ◌≤◌, ◌≡◌, refl, sym, ap, ◌∙◌, inl, inr, Bool, true, false, none, some, Option, List,
  [], ◌∷◌, ◌++◌, ◌==◌, ==_refl, ==_iff, if◌then◌else◌, neither, arith, Bool-cases,
}
use coverage_guided_fuzzer.CoverageMap.{same_bytes}
use coverage_guided_fuzzer.CoverageMap.Hashset.{same_bytes→eq, same_bytes_refl}
use coverage_guided_fuzzer.Input.{Input}
use coverage_guided_fuzzer.Memory.{Ptr, Memory}
use coverage_guided_fuzzer.InputQueue.Chain.{Cells}
use coverage_guided_fuzzer.InputQueue.Spec.{Rings}
use coverage_guided_fuzzer.InputQueue.Duplicates.{Holds, Strings, none_left, one_more, among}

-- How often an input is in a ring.
abbrev pub uses : Ptr → Cells → ℕ
uses j [] = 0
uses j ((a, i) ∷ xs) = (if i == j then 1 else 0) + uses j xs

-- Whether the input at `i` has this string.
abbrev pub has_text : Memory → List ℕ → Ptr → Bool
has_text m t i = elim (m.inputs i) [ none ↦ false | some x ↦ same_bytes t x.str ]

abbrev pub like : Memory → List ℕ → Cells → ℕ
like m t [] = 0
like m t ((a, i) ∷ xs) = (if has_text m t i then 1 else 0) + like m t xs

-- No string is queued twice.
abbrev pub AreDistinct : Memory → Rings → Type 0
AreDistinct m s = (t : List ℕ) → like m t s.high + like m t s.low ≤ 1

pub has_text-Holds :
    (m : Memory) (t : List ℕ) (i : Ptr) (x : Input)
    → Holds m i x
    → has_text m t i ≡ same_bytes t x.str
has_text-Holds m t i x h =
    ap (λ (o : Option Input). elim o as (λ o'. Bool) [ none ↦ false | some y ↦ same_bytes t y.str ])
      h.at

pub like-snoc :
    (m : Memory) (t : List ℕ) (xs : Cells) (a i : Ptr)
    → like m t (xs ++ (a, i) ∷ []) ≡ (if has_text m t i then 1 else 0) + like m t xs
like-snoc m t [] a i = omega arith
like-snoc m t ((b, j) ∷ xs) a i = omega (arith, like-snoc m t xs a i)

-- The count, of strings that the test for duplicates has found or not.
pub like-among :
    (m : Memory) (t : List ℕ) {xs : Cells} {ss : List (List ℕ)}
    → Strings m xs ss
    → among t ss ≡ false
    → like m t xs ≡ 0
like-among m t none_left e = refl
like-among m t (one_more {i} x h st) e =
    let no = neither (same_bytes t x.str) _ e in
    let here : has_text m t i ≡ false = has_text-Holds m t i x h ∙ no.0 in
    rw here (omega (arith, like-among m t st no.1))

-- The count is the same where the strings are.
pub like-frame :
    (m m' : Memory) (t : List ℕ) (xs : Cells)
    → ((j : Ptr) → 0 < uses j xs → has_text m' t j ≡ has_text m t j)
    → like m' t xs ≡ like m t xs
like-frame m m' t [] same = refl
like-frame m m' t ((a, i) ∷ xs) same =
    let here : has_text m' t i ≡ has_text m t i = same i (rw (==_refl i) (omega arith)) in
    rw here (
      ap (λ (n : ℕ). (if has_text m t i then 1 else 0) + n)
        (like-frame m m' t xs (λ j k. same j (omega (arith, k)))))

pub has_text-same :
    (m m' : Memory) (t : List ℕ) (j : Ptr)
    → m'.inputs j ≡ m.inputs j
    → has_text m' t j ≡ has_text m t j
has_text-same m m' t j same =
    ap (λ (o : Option Input). elim o as (λ o'. Bool) [ none ↦ false | some y ↦ same_bytes t y.str ])
      same

-- One more input, whose string was not queued.
pub one_more-AreDistinct :
    (m : Memory) (s : Rings) (i : Ptr) (x : Input)
    → Holds m i x
    → AreDistinct m s
    → like m x.str s.high + like m x.str s.low ≡ 0
    → (t : List ℕ) → (if has_text m t i then 1 else 0) + (like m t s.high + like m t s.low) ≤ 1
one_more-AreDistinct m s i x h v unseen t = elim (Bool-cases (has_text m t i)) [
  | inr e ↦ rw e (omega (arith, v t))
  | inl e ↦
      let same : t ≡ x.str = same_bytes→eq t x.str (sym (has_text-Holds m t i x h) ∙ e) in
      rw e (omega (arith, unseen, ap (λ (u : List ℕ). like m u s.high + like m u s.low) same))
]

-- An input of the rings is there once.
pub uses-like :
    (m : Memory) (j : Ptr) (x : Input) (xs : Cells) → Holds m j x → uses j xs ≤ like m x.str xs
uses-like m j x [] h = omega arith
uses-like m j x ((a, i) ∷ xs) h = elim (Bool-cases (i == j)) [
  | inr e ↦ rw e (omega (arith, uses-like m j x xs h))
  | inl e ↦
      let same : i ≡ j = (==_iff i j).0 e in
      let there : has_text m x.str i ≡ true =
        ap (λ (k : Ptr). has_text m x.str k) same
        ∙ has_text-Holds m x.str j x h
        ∙ same_bytes_refl x.str in
      rw (e, there) (omega (arith, uses-like m j x xs h))
]
