-- ===== src/Fuzzer/Moved.antt =====
-- The invariant of the loop when the heap and the rings change and no input is lost.
use coverage_guided_fuzzer.Prelude.{
  ℕ, ◌+◌, ◌<◌, ◌≡◌, ◌≢◌, refl, sym, ap, ◌∙◌, ◌⊎◌, inl, inr, Bool, true, false, none, some, Option,
  List, [], ◌∷◌, ◌++◌, ◌==◌, ==_iff, if◌then◌else◌, arith, Bool-cases,
}
use mathlib.Core.Option.{some-injective}
use coverage_guided_fuzzer.Memory.{Ptr, null, Node, Memory}
use coverage_guided_fuzzer.InputQueue.{InputQueue}
use coverage_guided_fuzzer.InputQueue.Chain.{Cells}
use coverage_guided_fuzzer.InputQueue.Spec.{Rings, serve}
use coverage_guided_fuzzer.InputQueue.Refine.{IsQueue-frame}
use coverage_guided_fuzzer.InputQueue.Sound.{uses, queued, Live, IsSound}
use coverage_guided_fuzzer.RunnerPool.{Inputs}
use coverage_guided_fuzzer.RunnerPool.Lanes.{Lanes}
use coverage_guided_fuzzer.Fuzzer.Owned.{busy, IsTesting}
use coverage_guided_fuzzer.Fuzzer.Prepare.{InMemory, NoneLost}
use coverage_guided_fuzzer.InputQueue.Distinct.{has_text, has_text-Holds, like, like-snoc}
use coverage_guided_fuzzer.CoverageMap.{same_bytes}

pub still-InMemory : (m m' : Memory) (j : Ptr) → NoneLost m m' → InMemory m j → InMemory m' j
still-InMemory m m' j keep (x, h, short) =
    let (x', h', short', text) = keep j x h short in (x', h', short')

pub Live-moved : (m m' : Memory) (xs : Cells) → NoneLost m m' → Live m xs → Live m' xs
Live-moved m m' [] keep l = tt
Live-moved m m' ((a, i) ∷ xs) keep (c, l) =
    (still-InMemory m m' i keep c, Live-moved m m' xs keep l)

pub like-moved :
    (m m' : Memory) (t : List ℕ) (xs : Cells)
    → NoneLost m m'
    → Live m xs
    → like m' t xs ≡ like m t xs
like-moved m m' t [] keep l = refl
like-moved m m' t ((a, i) ∷ xs) keep ((x, h, short), l) =
    let (x', h', short', text) = keep i x h short in
    let here : has_text m' t i ≡ has_text m t i =
      has_text-Holds m' t i x' h' ∙ ap (same_bytes t) text ∙ sym (has_text-Holds m t i x h) in
    rw here (omega (arith, like-moved m m' t xs keep l))

pub IsTesting-moved :
    (m m' : Memory) (h : Inputs) (s s' : Rings) (l l' : Lanes)
    → NoneLost m m'
    → ((j : Ptr) → queued j s' ≡ queued j s)
    → ((r : Ptr) → 0 < busy r l' → 0 < busy r l)
    → IsTesting m h s l
    → IsTesting m' h s' l'
IsTesting-moved m m' h s s' l l' keep same still t = record {
  tested = λ r k.
      let (j, x, at, held, short, out) = t.tested r (still r k) in
      let (x', held', short', text) = keep j x held short in
      (j, x', at, held', short', same j ∙ out);
  apart = λ r r' k k'. t.apart r r' (still r k) (still r' k');
}

pub IsSound-moved :
    (m m' : Memory) (q : InputQueue) (s : Rings)
    → NoneLost m m'
    → m'.nodes ≡ m.nodes
    → IsSound m q s
    → IsSound m' q s
IsSound-moved m m' q s keep nodes v = record {
  rings = record {
    high = IsQueue-frame m m' q.high_p s.high (λ b e. at b) v.rings.high;
    low = IsQueue-frame m m' q.low_p s.low (λ b e. at b) v.rings.low;
    apart = v.rings.apart;
    turn = v.rings.turn;
  };
  high = Live-moved m m' s.high keep v.high;
  low = Live-moved m m' s.low keep v.low;
  distinct = λ t. omega (
    arith,
    v.distinct t,
    like-moved m m' t s.high keep v.high,
    like-moved m m' t s.low keep v.low,
  );
}
  where
    at : (b : Ptr) → m'.nodes b ≡ m.nodes b
    at b = ap (λ (h : Ptr → Option Node). h b) nodes

-- An address without an input is neither queued nor tested.
uses-none : (m : Memory) (xs : Cells) (p : Ptr) → Live m xs → m.inputs p ≡ none → uses p xs ≡ 0
uses-none m [] p l free = refl
uses-none m ((a, i) ∷ xs) p ((x, held, short), l) free = elim (Bool-cases (i == p)) [
  | inl e ↦ let no : none ≡ some x = sym free ∙ ap m.inputs (sym ((==_iff i p).0 e)) ∙ held.at in cc
  | inr e ↦ rw e (omega (arith, uses-none m xs p l free))
]

pub queued-none :
    (m : Memory) (q : InputQueue) (s : Rings) (p : Ptr)
    → IsSound m q s
    → m.inputs p ≡ none
    → queued p s ≡ 0
queued-none m q s p v free =
    omega (arith, uses-none m s.high p v.high free, uses-none m s.low p v.low free)

pub untested :
    (m : Memory) (h : Inputs) (s : Rings) (l : Lanes) (p r : Ptr)
    → IsTesting m h s l
    → m.inputs p ≡ none
    → 0 < busy r l
    → h r ≢ some p
untested m h s l p r t free k e =
    let (j, x, at, held, short, out) = t.tested r k in
    let same : some j ≡ some p = sym at ∙ e in
    let no : none ≡ some x = sym free ∙ ap m.inputs (sym (some-injective j p same)) ∙ held.at in
    absurd cc

uses-snoc_all :
    (j : Ptr) (xs : Cells) (a i : Ptr)
    → uses j (xs ++ (a, i) ∷ []) ≡ (if i == j then 1 else 0) + uses j xs
uses-snoc_all j [] a i = omega arith
uses-snoc_all j ((b, k) ∷ xs) a i = omega (arith, uses-snoc_all j xs a i)

Live-rotated :
    (m : Memory) (xs : Cells) (a i : Ptr) → InMemory m i → Live m xs → Live m (xs ++ (a, i) ∷ [])
Live-rotated m [] a i c l = (c, tt)
Live-rotated m ((b, j) ∷ xs) a i c (d, l) = (d, Live-rotated m xs a i c l)

-- The input that is served is queued, and no input leaves the rings.
abbrev pub Served : Memory → Cells → Cells → Ptr × Cells × Cells → Type 0
Served m hs ls (i, hs', ls') =
    ((i ≡ null) ⊎ InMemory m i)
    × Live m hs'
    × Live m ls'
    × ((j : Ptr) → uses j hs' + uses j ls' ≡ uses j hs + uses j ls)
    × ((t : List ℕ) → like m t hs' + like m t ls' ≡ like m t hs + like m t ls)

pub serve-Served :
    (m : Memory) (turn : Bool) (hs ls : Cells)
    → Live m hs
    → Live m ls
    → Served m hs ls (serve turn hs ls)
unfolding serve
serve-Served m turn [] [] l k = (inl refl, tt, tt, λ j. refl, λ t. refl)
serve-Served m turn [] ((b, i) ∷ ls) l (c, k) = (
  inr c,
  tt,
  Live-rotated m ls b i c k,
  λ j. omega (arith, uses-snoc_all j ls b i),
  λ t. omega (arith, like-snoc m t ls b i),
)
serve-Served m turn ((a, i) ∷ hs) [] (c, l) k = (
  inr c,
  Live-rotated m hs a i c l,
  tt,
  λ j. omega (arith, uses-snoc_all j hs a i),
  λ t. omega (arith, like-snoc m t hs a i),
)
serve-Served m true ((a, i) ∷ hs) ((b, i') ∷ ls) (c, l) k = (
  inr c,
  Live-rotated m hs a i c l,
  k,
  λ j. omega (arith, uses-snoc_all j hs a i),
  λ t. omega (arith, like-snoc m t hs a i),
)
serve-Served m false ((a, i) ∷ hs) ((b, i') ∷ ls) l (c, k) = (
  inr c,
  l,
  Live-rotated m ls b i' c k,
  λ j. omega (arith, uses-snoc_all j ls b i'),
  λ t. omega (arith, like-snoc m t ls b i'),
)
