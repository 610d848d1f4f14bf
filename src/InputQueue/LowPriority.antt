-- ===== src/InputQueue/LowPriority.antt =====
-- `enqueue_low_prio_input` on an input that is not queued yet.
use coverage_guided_fuzzer.Prelude.{
  ℕ, ◌≡◌, ◌≢◌, refl, sym, ap, ◌∙◌, inl, inr, true, false, ◌||◌, none, some, List, [], ◌∷◌, ◌++◌,
  ◌==◌, ==_iff, arith, Bool-cases, Returns, returns,
}
use coverage_guided_fuzzer.Input.{Input}
use coverage_guided_fuzzer.Memory.{Ptr, null, Memory, continue-Returns}
use coverage_guided_fuzzer.InputQueue.{Queue, InputQueue, enqueue_low_prio_input}
use coverage_guided_fuzzer.InputQueue.Chain.{has, has-append}
use coverage_guided_fuzzer.InputQueue.Moves.{Moved, enqueue-Moved}
use coverage_guided_fuzzer.InputQueue.Ops.{unused}
use coverage_guided_fuzzer.InputQueue.Spec.{Rings}
use coverage_guided_fuzzer.InputQueue.Refine.{IsInputQueue, IsQueue-frame}
use coverage_guided_fuzzer.InputQueue.Duplicates.{Holds, Strings, among, is_duplicate-among}

module _ (m : Memory) (q : InputQueue) (s : Rings) (highs lows : List (List ℕ)) (i : Ptr)
    (x : Input) (v : IsInputQueue m q s) (high_strings : Strings m s.high highs)
    (low_strings : Strings m s.low lows) (held : Holds m i x) where
  abbrev Longer : Ptr → InputQueue → Memory → Type 0
  Longer fresh q' m' =
      IsInputQueue m' q' (record s { low = s.low ++ (fresh, i) ∷ [] }) × (m'.inputs ≡ m.inputs)

  low-Longer :
      (fresh : Ptr)
      → m.nodes fresh ≡ none
      → (low : Queue) (m' : Memory) → Moved m ((fresh, i) ∷ s.low) (s.low ++ (fresh, i) ∷ []) low m'
      → Longer fresh (record q { low_p = low }) m'
  low-Longer fresh free low m' w = (
    record {
      high = IsQueue-frame m m' q.high_p s.high (λ b inside. w.spared b (clear b inside)) v.high;
      low = w.queue;
      apart = λ b inside.
          ground (arith, has-append b s.low ((fresh, i) ∷ []), v.apart b inside, other b inside);
      turn = v.turn;
    },
    w.inputs,
  )
    where
      other : (b : Ptr) → has b s.high ≡ true → (b == fresh) ≡ false
      other b inside = elim (Bool-cases (b == fresh)) [
        | inl e ↦
            let no : true ≡ false =
              sym inside
              ∙ ap (λ (k : Ptr). has k s.high) ((==_iff b fresh).0 e)
              ∙ unused m.nodes s.high fresh free v.high.chain in
            cc
        | inr e ↦ e
      ]

      clear : (b : Ptr) → has b s.high ≡ true → has b ((fresh, i) ∷ s.low) ≡ false
      clear b inside = rw (other b inside) (v.apart b inside)

  -- On a queue of two rings in memory, an input whose string no queued input has is put at the end of
  -- the low ring by `enqueue_low_prio_input`, when malloc gives a node at an address that holds none;
  -- no input is written and the high ring stays as it is.
  pub enqueue_low_refines :
      (fresh : Ptr)
      → fresh ≢ null
      → m.nodes fresh ≡ none
      → (among x.str highs || among x.str lows) ≡ false
      → Returns
          (λ (oq, m').
            (q' : InputQueue) × (oq ≡ some q')
            × IsInputQueue m' q' (record s { low = s.low ++ (fresh, i) ∷ [] })
            × (m'.inputs ≡ m.inputs))
          (enqueue_low_prio_input fresh (some q) i m)
  unfolding enqueue_low_prio_input
  enqueue_low_refines fresh ne free e =
      rw (present, is_duplicate-among m q s highs lows i x v high_strings low_strings held, e)
        (continue-Returns
          (continue-Returns {Q = λ (q', m'). Longer fresh q' m'}
            (enqueue-Moved m q.low_p s.low fresh i v.low ne free)
            λ low m' w. returns (low-Longer fresh free low m' w))
          λ q' m' (grew, same). returns (q', refl, grew, same))
    where
      present : (i == null) ≡ false
      present = let given = held.given in ground arith
