-- ===== src/InputQueue/Sound.antt =====
-- The enqueue operations, with or without a duplicate, whatever malloc answers.
use coverage_guided_fuzzer.Prelude.{
  ℕ, ◌+◌, ◌<◌, ◌≡◌, ◌≢◌, refl, ap, ◌∙◌, ◌⊎◌, inl, inr, false, ◌||◌, none, some, Option, List, [],
  ◌∷◌, ◌++◌, ◌==◌, ==_refl, if◌then◌else◌, ◌≤◌, length, arith, Bool-cases, neither, Returns,
  returns, Returns-mono,
}
use coverage_guided_fuzzer.Input.{Input}
use coverage_guided_fuzzer.Mutator.Total.{IsInput}
use coverage_guided_fuzzer.Mutator.Positions.{max_inp_len}
use coverage_guided_fuzzer.Memory.{Ptr, null, Memory, write, free_input}
use coverage_guided_fuzzer.InputQueue.{
  InputQueue, helpr_enqueue_node, helpr_inp_is_duplicate, enqueue_high_prio_input,
  enqueue_low_prio_input,
}
use coverage_guided_fuzzer.InputQueue.Chain.{Cells}
pub use coverage_guided_fuzzer.InputQueue.Distinct.{uses}
use coverage_guided_fuzzer.InputQueue.Distinct.{
  AreDistinct, has_text, like, like-snoc, like-among, like-frame, has_text-same,
  one_more-AreDistinct,
}
use coverage_guided_fuzzer.InputQueue.Spec.{Rings}
use coverage_guided_fuzzer.InputQueue.Refine.{IsInputQueue, IsQueue-frame}
use coverage_guided_fuzzer.InputQueue.Duplicates.{
  Holds, Strings, none_left, one_more, among, is_duplicate-among, present, freed,
  enqueue_high_duplicate, enqueue_high_refines,
}
use coverage_guided_fuzzer.InputQueue.LowPriority.{enqueue_low_refines}

abbrev pub queued : Ptr → Rings → ℕ
queued j s = uses j s.high + uses j s.low

-- An input that is well formed and has at most MAX_INP_LEN bytes.
abbrev pub IsShort : Input → Type 0
IsShort x = IsInput x × (length x.str ≤ max_inp_len)

-- The inputs of a ring are in memory, well formed and short.
abbrev pub Live : Memory → Cells → Type 0
Live m [] = Unit {0}
Live m ((a, i) ∷ xs) = ((x : Input) × Holds m i x × IsShort x) × Live m xs

-- The queue in memory holds these rings, their inputs are in memory, and their strings differ.
pub record IsSound (m : Memory) (q : InputQueue) (s : Rings) : Type 0 where
  pub rings : IsInputQueue m q s
  pub high : Live m s.high
  pub low : Live m s.low
  pub distinct : AreDistinct m s

strings_of : (m : Memory) (xs : Cells) → Live m xs → (ss : List (List ℕ)) × Strings m xs ss
strings_of m [] l = ([], none_left)
strings_of m ((a, i) ∷ xs) ((x, h, k), l) =
    let (ss, st) = strings_of m xs l in (x.str ∷ ss, one_more x h st)

pub Holds-frame :
    (m m' : Memory) (i : Ptr) (x : Input) → m'.inputs i ≡ m.inputs i → Holds m i x → Holds m' i x
Holds-frame m m' i x same h = record { given = h.given; at = same ∙ h.at }

pub Live-frame :
    (m m' : Memory) (xs : Cells)
    → ((j : Ptr) → 0 < uses j xs → m'.inputs j ≡ m.inputs j)
    → Live m xs
    → Live m' xs
Live-frame m m' [] same l = tt
Live-frame m m' ((a, i) ∷ xs) same ((x, h, short), l) = (
  (x, Holds-frame m m' i x (same i (rw (==_refl i) (omega arith))) h, short),
  Live-frame m m' xs (λ j k. same j (omega (arith, k))) l,
)

-- No input has changed.
abbrev SameInputs : Memory → Memory → Type 0
SameInputs m m' = m'.inputs ≡ m.inputs

at_input : (m m' : Memory) → SameInputs m m' → (j : Ptr) → m'.inputs j ≡ m.inputs j
at_input m m' same j = ap (λ (h : Ptr → Option Input). h j) same

Live-same : (m m' : Memory) (xs : Cells) → SameInputs m m' → Live m xs → Live m' xs
Live-same m m' xs same l = Live-frame m m' xs (λ j k. at_input m m' same j) l

Live-snoc :
    (m : Memory) (xs : Cells) (a i : Ptr) (x : Input)
    → Holds m i x
    → IsShort x
    → Live m xs
    → Live m (xs ++ (a, i) ∷ [])
Live-snoc m [] a i x h k l = ((x, h, k), tt)
Live-snoc m ((b, j) ∷ xs) a i x h k (y, l) = (y, Live-snoc m xs a i x h k l)

uses-snoc : (j : Ptr) (xs : Cells) (a i : Ptr) → j ≢ i → uses j (xs ++ (a, i) ∷ []) ≡ uses j xs
uses-snoc j [] a i ne = let other : (i == j) ≡ false = ground (arith, ne) in rw other (omega arith)
uses-snoc j ((b, k) ∷ xs) a i ne = omega (arith, uses-snoc j xs a i ne)

-- malloc's answer for a node is NULL or free.
abbrev pub IsFree : Memory → Ptr → Type 0
IsFree m fresh = (fresh ≡ null) ⊎ ((fresh ≢ null) × (m.nodes fresh ≡ none))

-- The queue is sound after the call, and every other input is as it was, in memory and in the rings.
abbrev pub Others : Memory → Rings → Ptr → Memory → Rings → Type 0
Others m s i m' s' = (j : Ptr) → j ≢ i → (m'.inputs j ≡ m.inputs j) × (queued j s' ≡ queued j s)

abbrev pub IsKept : Memory → Rings → Ptr → Option InputQueue × Memory → Type 0
IsKept m s i (oq, m') =
    (q' : InputQueue) × (s' : Rings) × (oq ≡ some q') × IsSound m' q' s' × Others m s i m' s'

module _ (m : Memory) (q : InputQueue) (s : Rings) (i : Ptr) (x : Input) (v : IsSound m q s)
    (held : Holds m i x) (short : IsShort x) where
  highs : (ss : List (List ℕ)) × Strings m s.high ss
  highs = strings_of m s.high v.high

  lows : (ss : List (List ℕ)) × Strings m s.low ss
  lows = strings_of m s.low v.low

  abbrev without : Memory
  without = record m { inputs = write m.inputs i none }

  away : (j : Ptr) → j ≢ i → without.inputs j ≡ m.inputs j
  unfolding write
  away j ne = let other : (j == i) ≡ false = ground (arith, ne) in rw other refl

  -- The input is freed.
  pub freed-IsKept : queued i s ≡ 0 → IsKept m s i (some q, without)
  freed-IsKept out = (
    q,
    s,
    refl,
    record {
      rings = record {
        high = IsQueue-frame m without q.high_p s.high (λ b e. refl) v.rings.high;
        low = IsQueue-frame m without q.low_p s.low (λ b e. refl) v.rings.low;
        apart = v.rings.apart;
        turn = v.rings.turn;
      };
      high = Live-frame m without s.high (λ j k. away j (used j (omega (arith, k)))) v.high;
      low = Live-frame m without s.low (λ j k. away j (used j (omega (arith, k)))) v.low;
      distinct = λ t. omega (
        arith,
        v.distinct t,
        like-frame m without t s.high
            (λ j k. has_text-same m without t j (away j (used j (omega (arith, k))))),
        like-frame m without t s.low
            (λ j k. has_text-same m without t j (away j (used j (omega (arith, k))))),
      );
    },
    λ j ne. (away j ne, refl),
  )
    where
      used : (j : Ptr) → 0 < queued j s → j ≢ i
      used j k same = absurd (omega (arith, k, out, ap (λ (o : Ptr). queued o s) same))

  -- The input is left where it is, outside the queue.
  pub left-IsKept : IsKept m s i (some q, m)
  left-IsKept = (q, s, refl, v, λ j ne. (refl, refl))

  longer :
      (m' : Memory) (xs : Cells) (a : Ptr)
      → SameInputs m m'
      → Live m xs
      → Live m' (xs ++ (a, i) ∷ [])
  longer m' xs a same l =
      Live-snoc m' xs a i x (Holds-frame m m' i x (at_input m m' same i) held) short
        (Live-same m m' xs same l)

  -- One more input, of a string that was not found.
  abbrev one_more_text : Memory → List ℕ → ℕ
  one_more_text m' t = (if has_text m' t i then 1 else 0) + (like m' t s.high + like m' t s.low)

  unseen :
      (among x.str highs.0 || among x.str lows.0) ≡ false
      → like m x.str s.high + like m x.str s.low ≡ 0
  unseen e =
      let no = neither (among x.str highs.0) (among x.str lows.0) e in
      omega (arith, like-among m x.str highs.1 no.0, like-among m x.str lows.1 no.1)

  longer-AreDistinct :
      (m' : Memory)
      → SameInputs m m'
      → (among x.str highs.0 || among x.str lows.0) ≡ false
      → (t : List ℕ) → one_more_text m' t ≤ 1
  longer-AreDistinct m' same e t =
      let text : (j : Ptr) → has_text m' t j ≡ has_text m t j =
        λ j. has_text-same m m' t j (at_input m m' same j) in
      rw (text i) (
        omega (
          arith,
          one_more-AreDistinct m s i x held v.distinct (unseen e) t,
          like-frame m m' t s.high (λ j k. text j),
          like-frame m m' t s.low (λ j k. text j),
        ))

  is_present : (i == null) ≡ false
  is_present = present m q s highs.0 lows.0 i x v.rings highs.1 lows.1 held

  pub is_freed : free_input i m ≡ some (tt, without)
  is_freed = freed m q s highs.0 lows.0 i x v.rings highs.1 lows.1 held

  found : helpr_inp_is_duplicate q i m ≡ some (among x.str highs.0 || among x.str lows.0, m)
  found = is_duplicate-among m q s highs.0 lows.0 i x v.rings highs.1 lows.1 held

  -- `enqueue_high_prio_input` ends without a fault and keeps the queue sound.
  pub enqueue_high-IsKept :
      (fresh : Ptr)
      → IsFree m fresh
      → queued i s ≡ 0
      → Returns (IsKept m s i) (enqueue_high_prio_input fresh (some q) i m)
  unfolding enqueue_high_prio_input helpr_enqueue_node
  enqueue_high-IsKept fresh free out =
      elim (Bool-cases (among x.str highs.0 || among x.str lows.0)) [
        | inl e ↦
            rw (enqueue_high_duplicate m q s highs.0 lows.0 i x v.rings highs.1 lows.1 held fresh e)
              (returns (freed-IsKept out))
        | inr e ↦ elim free [
          | inl is_null ↦ rw (is_null, is_present, found, e) (returns left-IsKept)
          | inr (ne, unused) ↦
              Returns-mono
                (enqueue_high_refines m q s highs.0 lows.0 i x v.rings highs.1 lows.1 held fresh ne
                  unused e)
                λ (oq, m') (q', is_some, sound, same). (
                  q',
                  _,
                  is_some,
                  record {
                    rings = sound;
                    high = longer m' s.high fresh same v.high;
                    low = Live-same m m' s.low same v.low;
                    distinct = λ t.
                        omega
                          (arith, longer-AreDistinct m' same e t, like-snoc m' t s.high fresh i);
                  },
                  λ j ne. (at_input m m' same j, omega (arith, uses-snoc j s.high fresh i ne)),
                )
        ]
      ]

  -- `enqueue_low_prio_input` ends without a fault and keeps the queue sound.
  pub enqueue_low-IsKept :
      (fresh : Ptr)
      → IsFree m fresh
      → queued i s ≡ 0
      → Returns (IsKept m s i) (enqueue_low_prio_input fresh (some q) i m)
  unfolding enqueue_low_prio_input helpr_enqueue_node
  enqueue_low-IsKept fresh free out =
      elim (Bool-cases (among x.str highs.0 || among x.str lows.0)) [
        | inl e ↦ rw (is_present, found, e, is_freed) (returns (freed-IsKept out))
        | inr e ↦ elim free [
          | inl is_null ↦ rw (is_null, is_present, found, e) (returns left-IsKept)
          | inr (ne, unused) ↦
              Returns-mono
                (enqueue_low_refines m q s highs.0 lows.0 i x v.rings highs.1 lows.1 held fresh ne
                  unused e)
                λ (oq, m') (q', is_some, sound, same). (
                  q',
                  _,
                  is_some,
                  record {
                    rings = sound;
                    high = Live-same m m' s.high same v.high;
                    low = longer m' s.low fresh same v.low;
                    distinct = λ t.
                        omega (arith, longer-AreDistinct m' same e t, like-snoc m' t s.low fresh i);
                  },
                  λ j ne. (at_input m m' same j, omega (arith, uses-snoc j s.low fresh i ne)),
                )
        ]
      ]
