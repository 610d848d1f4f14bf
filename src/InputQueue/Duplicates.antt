-- ===== src/InputQueue/Duplicates.antt =====
-- The test for duplicates, and `enqueue_high_prio_input`.
use coverage_guided_fuzzer.Prelude.{
  ℕ, zero, suc, ◌+◌, ◌<◌, ◌≡◌, ◌≢◌, refl, sym, ap, ◌∙◌, inl, inr, Bool, true, false, ◌||◌, none,
  some, List, [], ◌∷◌, ◌++◌, ◌==◌, length, arith, Bool-cases, Returns, returns,
}
use coverage_guided_fuzzer.CoverageMap.{same_bytes}
use coverage_guided_fuzzer.Input.{Input}
use coverage_guided_fuzzer.Memory.{
  Ptr, null, node, Memory, write, load_str, free_input, continue-Returns,
}
use coverage_guided_fuzzer.InputQueue.{
  Queue, InputQueue, find_str, helpr_inp_is_duplicate, enqueue_high_prio_input,
}
use coverage_guided_fuzzer.InputQueue.Chain.{Cells, first, has, Chain, has-append, load_node-some}
use coverage_guided_fuzzer.InputQueue.Moves.{Moved, enqueue-Moved}
use coverage_guided_fuzzer.InputQueue.Ops.{unused}
use coverage_guided_fuzzer.InputQueue.Spec.{Rings}
use coverage_guided_fuzzer.InputQueue.Refine.{IsInputQueue, IsQueue-frame}

-- An input in memory, with its string.
pub record Holds (m : Memory) (i : Ptr) (x : Input) : Type 0 where
  pub given : i ≢ null
  pub at : m.inputs i ≡ some x

-- The inputs of a ring, which are in memory.
pub data Strings (m : Memory) : Cells → List (List ℕ) → Type 0 where
  none_left : Strings m [] []
  one_more :
      {a i : Ptr} {xs : Cells} {ss : List (List ℕ)} (x : Input)
      → Holds m i x
      → Strings m xs ss
      → Strings m ((a, i) ∷ xs) (x.str ∷ ss)

abbrev pub among : List ℕ → List (List ℕ) → Bool
among target [] = false
among target (s ∷ ss) = same_bytes target s || among target ss

load_str-some : (m : Memory) (i : Ptr) (x : Input) → Holds m i x → load_str i m ≡ some (x.str, m)
unfolding load_str
load_str-some m i x h = let given = h.given in let at = h.at in ground arith

-- The walk along a ring ends with the answer whether the string is among those of its inputs.
find_str-among :
    (m : Memory) (target : List ℕ) (fuel : ℕ) {xs : Cells} {ss : List (List ℕ)}
    → Strings m xs ss
    → Chain m.nodes xs
    → length xs < fuel
    → find_str fuel (first xs) target m ≡ some (among target ss, m)
unfolding find_str
find_str-among m target zero s c h = absurd (omega arith)
find_str-among m target (suc fuel) none_left c h = refl
find_str-among m target (suc fuel) (one_more {a} {i} {xs} x held s) c h =
    let there : (a == null) ≡ false = ground (arith, c.0) in
    rw (there, load_node-some a (node i (first xs)) m c.0 c.1, load_str-some m i x held)
      (elim (Bool-cases (same_bytes target x.str)) [
        | inl e ↦ rw e
        | inr e ↦ rw e (find_str-among m target fuel s c.3 (omega arith))
      ])

module _ (m : Memory) (q : InputQueue) (s : Rings) (highs lows : List (List ℕ)) (i : Ptr)
    (x : Input) (v : IsInputQueue m q s) (high_strings : Strings m s.high highs)
    (low_strings : Strings m s.low lows) (held : Holds m i x) where
  walk_high : find_str (q.high_p.len + 1) q.high_p.head x.str m ≡ some (among x.str highs, m)
  walk_high = rw v.high.head (
      find_str-among m x.str (q.high_p.len + 1) high_strings v.high.chain
        (omega (arith, v.high.len)))

  walk_low : find_str (q.low_p.len + 1) q.low_p.head x.str m ≡ some (among x.str lows, m)
  walk_low =
      rw v.low.head (
        find_str-among m x.str (q.low_p.len + 1) low_strings v.low.chain (omega (arith, v.low.len)))

  -- On a queue of two rings in memory whose inputs have these strings, and for an input in memory,
  -- `helpr_inp_is_duplicate` ends and says whether its string is among those of the high or the low
  -- ring, and writes nothing.
  pub is_duplicate-among :
      helpr_inp_is_duplicate q i m ≡ some (among x.str highs || among x.str lows, m)
  unfolding helpr_inp_is_duplicate
  is_duplicate-among = elim (Bool-cases (among x.str highs)) [
    | inl e ↦ rw (load_str-some m i x held, walk_high, e)
    | inr e ↦ rw (load_str-some m i x held, walk_high, e) walk_low
  ]

  pub present : (i == null) ≡ false
  present = let given = held.given in ground arith

  pub freed : free_input i m ≡ some (tt, record m { inputs = write m.inputs i none })
  unfolding free_input
  freed = rw (present, held.at)

  -- On such a queue, an input whose string a queued input has is freed by
  -- `enqueue_high_prio_input`, and the queue stays as it is.
  pub enqueue_high_duplicate :
      (fresh : Ptr)
      → (among x.str highs || among x.str lows) ≡ true
      → enqueue_high_prio_input fresh (some q) i m
        ≡ some (some q, record m { inputs = write m.inputs i none })
  unfolding enqueue_high_prio_input
  enqueue_high_duplicate fresh e = rw (present, is_duplicate-among, e, freed)

  -- The rings after the high queue has grown.
  grown :
      (fresh : Ptr)
      → m.nodes fresh ≡ none
      → (high : Queue) (m' : Memory)
      → Moved m ((fresh, i) ∷ s.high) (s.high ++ (fresh, i) ∷ []) high m'
      → IsInputQueue m' (record q { high_p = high }) (record s { high = s.high ++ (fresh, i) ∷ [] })
  grown fresh free high m' w = record {
    high = w.queue;
    low = IsQueue-frame m m' q.low_p s.low (λ b inside. w.spared b (clear b inside)) v.low;
    apart = λ b inside. elim (Bool-cases (has b s.high)) [
      | inl old ↦ v.apart b old
      | inr old ↦
          let same : b ≡ fresh =
            ground (arith, has-append b s.high ((fresh, i) ∷ []), old, inside) in
          ap (λ (k : Ptr). has k s.low) same ∙ out
    ];
    turn = v.turn;
  }
    where
      out : has fresh s.low ≡ false
      out = unused m.nodes s.low fresh free v.low.chain

      clear : (b : Ptr) → has b s.low ≡ true → has b ((fresh, i) ∷ s.high) ≡ false
      clear b inside = elim (Bool-cases (has b ((fresh, i) ∷ s.high))) [
        | inr e ↦ e
        | inl e ↦ elim (Bool-cases (has b s.high)) [
          | inl old ↦ let no = v.apart b old in cc
          | inr old ↦
              let same : b ≡ fresh = ground (arith, e, old) in
              let no : true ≡ false = sym inside ∙ ap (λ (k : Ptr). has k s.low) same ∙ out in cc
        ]
      ]

  abbrev Grown : Ptr → InputQueue → Memory → Type 0
  Grown fresh q' m' =
      IsInputQueue m' q' (record s { high = s.high ++ (fresh, i) ∷ [] }) × (m'.inputs ≡ m.inputs)

  -- On such a queue, an input whose string no queued input has is put at the end of the high ring by
  -- `enqueue_high_prio_input`, when malloc gives a node at an address that holds none; no input is
  -- written and the low ring stays as it is.
  pub enqueue_high_refines :
      (fresh : Ptr)
      → fresh ≢ null
      → m.nodes fresh ≡ none
      → (among x.str highs || among x.str lows) ≡ false
      → Returns
          (λ (oq, m').
            (q' : InputQueue) × (oq ≡ some q')
            × IsInputQueue m' q' (record s { high = s.high ++ (fresh, i) ∷ [] })
            × (m'.inputs ≡ m.inputs))
          (enqueue_high_prio_input fresh (some q) i m)
  unfolding enqueue_high_prio_input
  enqueue_high_refines fresh ne free e =
      rw (present, is_duplicate-among, e)
        (continue-Returns
          (continue-Returns {Q = λ (q', m'). Grown fresh q' m'}
            (enqueue-Moved m q.high_p s.high fresh i v.high ne free)
            λ high m' w. returns (grown fresh free high m' w, w.inputs))
          λ q' m' (grew, same). returns (q', refl, grew, same))
