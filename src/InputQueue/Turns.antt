-- ===== src/InputQueue/Turns.antt =====
-- How long an input of the low ring waits: `deq_cycle_ind` reaches 9 once in ten dequeues.
use mathlib.Core.Path.{subst}
use mathlib.Core.List.{append_assoc}
use coverage_guided_fuzzer.InputQueue.Chain.{Cells}
use coverage_guided_fuzzer.InputQueue.Refine.{dequeue_refines}
use coverage_guided_fuzzer.InputQueue.Spec.{next_turn}
use coverage_guided_fuzzer.InputQueue.{dequeue_input}
use coverage_guided_fuzzer.InputQueue.Spec.{Rings, serve}
use coverage_guided_fuzzer.InputQueue.{InputQueue}
use coverage_guided_fuzzer.InputQueue.Refine.{rings}
use coverage_guided_fuzzer.InputQueue.Spec.{spec_dequeue}
use coverage_guided_fuzzer.Prelude.{
  ℕ, zero, suc, ◌≡◌, ◌+◌, ◌-◌, ◌%◌, ◌*◌, ◌<◌, ◌∙◌, refl, ltb, some, Option, true, [], ◌∷◌, ◌++◌,
  arith, length, Returns, returns, Returns-mono,
}
use coverage_guided_fuzzer.Memory.{Ptr, Memory, Cmd, pure, ◌>>=◌, continue-Returns}
use coverage_guided_fuzzer.InputQueue.Refine.{Gives, IsInputQueue}

-- That many dequeues, and what the last of them gives.
unfoldable pub dequeues : ℕ → Ptr → Option InputQueue → Cmd (Ptr × Option InputQueue)
dequeues zero i q = pure (i, q)
dequeues (suc n) i q = dequeue_input q >>= λ (j, q'). dequeues n j q'

unfoldable pub spec_dequeues : ℕ → Ptr → Rings → Ptr × Rings
spec_dequeues zero i s = (i, s)
spec_dequeues (suc n) i s = spec_dequeues n (spec_dequeue s).0 (spec_dequeue s).1

dequeues-Gives :
    (n : ℕ) (i : Ptr) (m : Memory) (q : InputQueue) (s : Rings)
    → IsInputQueue m q s
    → Returns (Gives m (spec_dequeues n i s).0 (spec_dequeues n i s).1) (dequeues n i (some q) m)
unfolding dequeues spec_dequeues
dequeues-Gives zero i m q s v = returns (refl, (q, refl, v), refl)
dequeues-Gives (suc n) i m q s v =
    continue-Returns (dequeue_refines m q s v) λ (j, oq) m' (e, (q', e', w), kept).
      let s1 : Rings = (spec_dequeue s).1 in
      rw e' (
        Returns-mono
          (subst
            (λ (p : Ptr).
              Returns (Gives m' (spec_dequeues n p s1).0 (spec_dequeues n p s1).1)
                (dequeues n j (some q') m'))
            e (dequeues-Gives n j m' q' s1 w))
          λ r g. (g.0, g.1, g.2 ∙ kept))

dequeue_high :
    (t : ℕ) (h l : Ptr × Ptr) (hs ls : Cells)
    → t < 9
    → spec_dequeue (rings (h ∷ hs) (l ∷ ls) t) ≡ (h.1, rings (hs ++ h ∷ []) (l ∷ ls) (t + 1))
unfolding spec_dequeue serve next_turn
dequeue_high t h l hs ls lt =
    let turn : ltb t 9 ≡ true = ground arith in
    let next : (t + 1) % 10 ≡ t + 1 = omega arith in rw (turn, next) refl

dequeue_low :
    (t : ℕ) (h l : Ptr × Ptr) (hs ls : Cells)
    → t ≡ 9
    → spec_dequeue (rings (h ∷ hs) (l ∷ ls) t) ≡ (l.1, rings (h ∷ hs) (ls ++ l ∷ []) 0)
unfolding spec_dequeue serve next_turn
dequeue_low t h l hs ls e = rw e refl

-- Until the low ring's turn the high ring goes round, and then the low ring.
until_low :
    (N n k t : ℕ) (p : Ptr) (h l : Ptr × Ptr) (hs ls : Cells)
    → N ≡ n + 1 + k
    → t + n ≡ 9
    → (h' : Ptr × Ptr) × (hs' : Cells) × (spec_dequeues N p (rings (h ∷ hs) (l ∷ ls) t)
        ≡ spec_dequeues k l.1 (rings (h' ∷ hs') (ls ++ l ∷ []) 0))
unfolding spec_dequeues
until_low zero n k t p h l hs ls c e = absurd (omega (arith, c))
until_low (suc N) zero k t p h l hs ls c e =
    let same : N ≡ k = omega (arith, c) in
    (h, hs, rw (dequeue_low t h l hs ls (omega (arith, e)), same) refl)
until_low (suc N) (suc n) k t p h l [] ls c e =
    let (h', hs', again) =
      until_low N n k (t + 1) h.1 h l [] ls (omega (arith, c)) (omega (arith, e)) in
    (h', hs', rw (dequeue_high t h l [] ls (omega (arith, e))) again)
until_low (suc N) (suc n) k t p h l (h2 ∷ hs) ls c e =
    let (h', hs', again) =
      until_low N n k (t + 1) h.1 h2 l (hs ++ h ∷ []) ls (omega (arith, c)) (omega (arith, e)) in
    (h', hs', rw (dequeue_high t h l (h2 ∷ hs) ls (omega (arith, e))) again)

low_waits :
    (N t : ℕ) (p b j : Ptr) (h : Ptr × Ptr) (hs xs ys : Cells)
    → t < 10
    → N + t ≡ 10 * length xs + 10
    → (spec_dequeues N p (rings (h ∷ hs) (xs ++ (b, j) ∷ ys) t)).0 ≡ j
unfolding spec_dequeues
low_waits N t p b j h hs [] ys lt c =
    let (h', hs', e) = until_low N (9 - t) 0 t p h (b, j) hs ys (omega (arith, c)) (omega arith) in
    rw e refl
low_waits N t p b j h hs (x ∷ xs) ys lt c =
    let (h', hs', e) =
      until_low N (9 - t) (10 * length xs + 10) t p h x hs (xs ++ (b, j) ∷ ys) (omega (arith, c))
        (omega arith) in
    rw (e, append_assoc)
      (low_waits (10 * length xs + 10) 0 x.1 b j h' hs' xs (ys ++ x ∷ []) (omega arith)
        (omega arith))

-- Take a queue that holds two rings of distinct nodes, the high one not empty, with its count of turns
-- at t < 10. Dequeued 10 * n + 10 - t times without a change in between, it faults nowhere, and the
-- last dequeue gives the input with n others before it in the low ring.
pub dequeues_reach_low :
    (m : Memory) (q : InputQueue) (t : ℕ) (b j : Ptr) (h : Ptr × Ptr) (hs xs ys : Cells) (p : Ptr)
    → IsInputQueue m q (rings (h ∷ hs) (xs ++ (b, j) ∷ ys) t)
    → t < 10
    → Returns (λ ((i, q'), m'). i ≡ j) (dequeues (10 * length xs + 10 - t) p (some q) m)
dequeues_reach_low m q t b j h hs xs ys p v lt =
    let N : ℕ = 10 * length xs + 10 - t in
    Returns-mono (dequeues-Gives N p m q (rings (h ∷ hs) (xs ++ (b, j) ∷ ys) t) v)
      λ r g. g.0 ∙ low_waits N t p b j h hs xs ys lt (omega (arith, lt))
