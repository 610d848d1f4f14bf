-- ===== src/InputQueue/Refine.antt =====
-- `dequeue_input` refines the two round robins.
use coverage_guided_fuzzer.Prelude.{
  ℕ, ◌+◌, ◌%◌, ◌≡◌, refl, sym, ap, ◌∙◌, inl, inr, true, false, Option, some, [], ◌∷◌, ◌++◌, ltb,
  arith, Bool-cases, Returns, returns,
}
use coverage_guided_fuzzer.Memory.{Ptr, Memory, ◌>>=◌, pure, continue-Returns}
use coverage_guided_fuzzer.InputQueue.{
  Queue, InputQueue, is_empty, rotate, from_high, dequeue_input,
}
use coverage_guided_fuzzer.InputQueue.Chain.{Cells, has, has-append, IsQueue, Chain-frame}
use coverage_guided_fuzzer.InputQueue.Moves.{rotate-Moved}
use coverage_guided_fuzzer.InputQueue.Spec.{Rings, spec_dequeue}

-- The queue in memory holds these rings, in distinct nodes.
pub record IsInputQueue (m : Memory) (q : InputQueue) (s : Rings) : Type 0 where
  pub high : IsQueue m q.high_p s.high
  pub low : IsQueue m q.low_p s.low
  pub apart : (a : Ptr) → has a s.high ≡ true → has a s.low ≡ false
  pub turn : q.deq_cycle_ind ≡ s.turn

abbrev pub rings : Cells → Cells → ℕ → Rings
rings hs ls t = record { high = hs; low = ls; turn = t }

has-rotated : (p a i : Ptr) (xs : Cells) → has p (xs ++ (a, i) ∷ []) ≡ has p ((a, i) ∷ xs)
has-rotated p a i xs = ground (arith, has-append p xs ((a, i) ∷ []))

is_empty_nil : {m : Memory} {q : Queue} → IsQueue m q [] → is_empty q ≡ true
is_empty_nil v = let len = v.len in ground arith

is_empty_cons :
    {m : Memory} {q : Queue} {x : Ptr × Ptr} {xs : Cells}
    → IsQueue m q (x ∷ xs)
    → is_empty q ≡ false
is_empty_cons v = let len = v.len in ground arith

-- A queue does not see changes elsewhere.
pub IsQueue-frame :
    (m m' : Memory) (q : Queue) (xs : Cells)
    → ((a : Ptr) → has a xs ≡ true → m'.nodes a ≡ m.nodes a)
    → IsQueue m q xs
    → IsQueue m' q xs
IsQueue-frame m m' q xs same v = record {
  chain = Chain-frame m.nodes m'.nodes xs same v.chain;
  head = v.head;
  tail = v.tail;
  len = v.len;
}

-- What a dequeue gives: this input, these rings, and the inputs as they were.
abbrev pub Gives : Memory → Ptr → Rings → (Ptr × Option InputQueue) × Memory → Type 0
Gives m i s ((j, oq), m') =
    (j ≡ i) × ((q : InputQueue) × (oq ≡ some q) × IsInputQueue m' q s) × (m'.inputs ≡ m.inputs)

module _ (m : Memory) (q : InputQueue) (t : ℕ) where
  abbrev next : ℕ
  next = (q.deq_cycle_ind + 1) % 10

  turn_high :
      (a i : Ptr) (hs ls : Cells)
      → IsInputQueue m q (record { high = (a, i) ∷ hs; low = ls; turn = t })
      → Returns (Gives m i (record { high = hs ++ (a, i) ∷ []; low = ls; turn = (t + 1) % 10 })) (
          (do
            (j, high) ← rotate q.high_p
            pure (j, some (record q { high_p = high; deq_cycle_ind = next })))
            m)
  turn_high a i hs ls v =
      continue-Returns (rotate-Moved m q.high_p a i hs v.high) λ (j, high) m' (e, w). returns (
        e,
        (
          _,
          refl,
          record {
            high = w.queue;
            low = IsQueue-frame m m' q.low_p ls (λ b inside. w.spared b (clear b inside)) v.low;
            apart = λ b inside. v.apart b (sym (has-rotated b a i hs) ∙ inside);
            turn = ap (λ (k : ℕ). (k + 1) % 10) v.turn;
          },
        ),
        w.inputs,
      )
    where
      clear : (b : Ptr) → has b ls ≡ true → has b ((a, i) ∷ hs) ≡ false
      clear b inside = elim (Bool-cases (has b ((a, i) ∷ hs))) [
        | inl e ↦ let out = v.apart b e in cc
        | inr e ↦ e
      ]

  turn_low :
      (b j : Ptr) (hs ls : Cells)
      → IsInputQueue m q (record { high = hs; low = (b, j) ∷ ls; turn = t })
      → Returns (Gives m j (record { high = hs; low = ls ++ (b, j) ∷ []; turn = (t + 1) % 10 })) (
          (do
            (k, low) ← rotate q.low_p
            pure (k, some (record q { low_p = low; deq_cycle_ind = next })))
            m)
  turn_low b j hs ls v =
      continue-Returns (rotate-Moved m q.low_p b j ls v.low) λ (k, low) m' (e, w). returns (
        e,
        (
          _,
          refl,
          record {
            high =
                IsQueue-frame m m' q.high_p hs (λ a inside. w.spared a (v.apart a inside)) v.high;
            low = w.queue;
            apart = λ a inside. has-rotated a b j ls ∙ v.apart a inside;
            turn = ap (λ (n : ℕ). (n + 1) % 10) v.turn;
          },
        ),
        w.inputs,
      )

  dequeue-Gives :
      (hs ls : Cells)
      → let s = rings hs ls t in
        IsInputQueue m q s
        → Returns (Gives m (spec_dequeue s).0 (spec_dequeue s).1) (dequeue_input (some q) m)
  unfolding spec_dequeue dequeue_input from_high
  dequeue-Gives [] [] v =
      rw (is_empty_nil v.high, is_empty_nil v.low) (returns (refl, (q, refl, v), refl))
  dequeue-Gives [] ((b, j) ∷ ls) v = elim (Bool-cases (ltb q.deq_cycle_ind 9)) [
    | inl e ↦ rw (is_empty_nil v.high, is_empty_cons v.low, e) (turn_low b j [] ls v)
    | inr e ↦ rw (is_empty_nil v.high, is_empty_cons v.low, e) (turn_low b j [] ls v)
  ]
  dequeue-Gives ((a, i) ∷ hs) [] v = elim (Bool-cases (ltb q.deq_cycle_ind 9)) [
    | inl e ↦ rw (is_empty_cons v.high, is_empty_nil v.low, e) (turn_high a i hs [] v)
    | inr e ↦ rw (is_empty_cons v.high, is_empty_nil v.low, e) (turn_high a i hs [] v)
  ]
  dequeue-Gives ((a, i) ∷ hs) ((b, j) ∷ ls) v = elim (Bool-cases (ltb q.deq_cycle_ind 9)) [
    | inl e ↦
        let e' : ltb t 9 ≡ true = ap (λ (k : ℕ). ltb k 9) (sym v.turn) ∙ e in
        rw (is_empty_cons v.high, e, e') (turn_high a i hs ((b, j) ∷ ls) v)
    | inr e ↦
        let e' : ltb t 9 ≡ false = ap (λ (k : ℕ). ltb k 9) (sym v.turn) ∙ e in
        rw (is_empty_cons v.high, is_empty_cons v.low, e, e') (turn_low b j ((a, i) ∷ hs) ls v)
  ]

-- On a queue that holds two rings of distinct nodes `dequeue_input` ends without a fault, returns
-- the input that the specification serves (NULL if there is none), leaves the rings that the
-- specification leaves, and writes to no input.
pub dequeue_refines :
    (m : Memory) (q : InputQueue) (s : Rings)
    → IsInputQueue m q s
    → Returns (Gives m (spec_dequeue s).0 (spec_dequeue s).1) (dequeue_input (some q) m)
dequeue_refines m q s v = dequeue-Gives m q s.turn s.high s.low v
