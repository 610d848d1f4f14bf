-- ===== src/InputQueue/Finish.antt =====
-- `input_queue_fini`: the nodes and the inputs of the queue are freed.
use coverage_guided_fuzzer.Prelude.{zero_or_more}
use mathlib.Core.Path.{subst}
use coverage_guided_fuzzer.InputQueue.Chain.{has-append}
use coverage_guided_fuzzer.InputQueue.Chain.{Chain-frame}
use coverage_guided_fuzzer.InputQueue.Distinct.{uses-like}
use coverage_guided_fuzzer.Prelude.{◌++◌, ◌⊎◌}
use coverage_guided_fuzzer.Prelude.{
  ℕ, zero, suc, ◌+◌, ◌<◌, ◌≤◌, ◌≡◌, refl, sym, ap, ◌∙◌, inl, inr, Bool, true, false, ◌||◌, none,
  some, Option, [], ◌∷◌, ◌==◌, ==_iff, length, arith, Bool-cases, neither, Returns, returns,
  Returns-mono,
}
use coverage_guided_fuzzer.Input.{Input}
use coverage_guided_fuzzer.Memory.{Ptr, null, node, Memory, write, free_input, continue-Returns}
use coverage_guided_fuzzer.InputQueue.{InputQueue, free_nodes, input_queue_fini}
use coverage_guided_fuzzer.InputQueue.Chain.{Cells, first, has, Chain, Chain-write, load_node-some}
use coverage_guided_fuzzer.InputQueue.Spec.{Rings}
use coverage_guided_fuzzer.InputQueue.Duplicates.{Holds}
use coverage_guided_fuzzer.InputQueue.Sound.{uses, queued, Live, Live-frame, IsSound}

-- Each input of a ring is there once.
abbrev Once : Cells → Type 0
Once xs = (j : Ptr) → uses j xs ≤ 1

-- The nodes and the inputs of a ring are gone, and all else is as it was.
pub record IsFreed (m : Memory) (xs : Cells) (m' : Memory) : Type 0 where
  pub nodes_gone : (a : Ptr) → has a xs ≡ true → m'.nodes a ≡ none
  pub nodes_kept : (a : Ptr) → has a xs ≡ false → m'.nodes a ≡ m.nodes a
  pub inputs_gone : (j : Ptr) → 0 < uses j xs → m'.inputs j ≡ none
  pub inputs_kept : (j : Ptr) → uses j xs ≡ 0 → m'.inputs j ≡ m.inputs j

write_here :
    {A : Type 0} (h : Ptr → Option A) (p : Ptr) (v : Option A) (a : Ptr)
    → (a == p) ≡ true
    → write h p v a ≡ v
unfolding write
write_here h p v a e = rw e refl

write_away :
    {A : Type 0} (h : Ptr → Option A) (p : Ptr) (v : Option A) (a : Ptr)
    → (a == p) ≡ false
    → write h p v a ≡ h a
unfolding write
write_away h p v a e = rw e refl

-- A node and its input are freed.
abbrev without : Memory → Ptr → Ptr → Memory
without m a i = record { nodes = write m.nodes a none; inputs = write m.inputs i none }

free_nodes-IsFreed :
    (fuel : ℕ) (m : Memory) (xs : Cells)
    → Chain m.nodes xs
    → Live m xs
    → Once xs
    → length xs < fuel
    → Returns (λ (u, m'). IsFreed m xs m') (free_nodes fuel (first xs) m)
unfolding free_nodes free_input
free_nodes-IsFreed zero m xs c l o k = absurd (omega arith)
free_nodes-IsFreed (suc fuel) m [] c l o k = returns (record {
  nodes_gone = λ a e. absurd cc;
  nodes_kept = λ a e. refl;
  inputs_gone = λ j e. absurd (omega (arith, e));
  inputs_kept = λ j e. refl;
})
free_nodes-IsFreed (suc fuel) m ((a, i) ∷ xs) c ((x, h, short), l) o k =
    let there : (a == null) ≡ false = ground (arith, c.0) in
    let given : (i == null) ≡ false = ground (arith, h.given) in
    rw (there, load_node-some a (node i (first xs)) m c.0 c.1, given, h.at, there, c.1)
      (Returns-mono
        (free_nodes-IsFreed fuel (without m a i) xs (Chain-write m.nodes xs a none c.2 c.3)
          (Live-frame m (without m a i) xs (λ j k. write_away m.inputs i none j (other j k)) l)
          (λ j. omega (arith, o j)) (omega (arith, k)))
        λ (u, m') g. record {
          nodes_gone = λ b e. elim (Bool-cases (has b xs)) [
            | inl old ↦ g.nodes_gone b old
            | inr old ↦ g.nodes_kept b old ∙ write_here m.nodes a none b (ground (arith, e, old))
          ];
          nodes_kept = λ b e.
              let no = neither (b == a) (has b xs) e in
              g.nodes_kept b no.1 ∙ write_away m.nodes a none b no.0;
          inputs_gone = λ j e. elim (Bool-cases (j == i)) [
            | inl same ↦
                g.inputs_kept j (ap (λ (p : Ptr). uses p xs) ((==_iff j i).0 same) ∙ alone)
                ∙ write_here m.inputs i none j same
            | inr differs ↦ g.inputs_gone j (ground (arith, e, differs))
          ];
          inputs_kept = λ j e.
              let differs : (j == i) ≡ false = ground (arith, e) in
              g.inputs_kept j (omega (arith, e)) ∙ write_away m.inputs i none j differs;
        })
  where
    alone : uses i xs ≡ 0
    alone = ground (arith, o i)

    other : (j : Ptr) → 0 < uses j xs → (j == i) ≡ false
    other j k = elim (Bool-cases (j == i)) [
      | inr e ↦ e
      | inl e ↦ absurd (omega (arith, k, alone, ap (λ (p : Ptr). uses p xs) ((==_iff j i).0 e)))
    ]

uses-append : (j : Ptr) (xs ys : Cells) → uses j (xs ++ ys) ≡ uses j xs + uses j ys
uses-append j [] ys = omega arith
uses-append j ((a, i) ∷ xs) ys = omega (arith, uses-append j xs ys)

-- An input is not in a ring, or it is in memory.
used-Holds :
    (m : Memory) (j : Ptr) (xs : Cells) → Live m xs → (uses j xs ≡ 0) ⊎ ((x : Input) × Holds m j x)
used-Holds m j [] l = inl refl
used-Holds m j ((a, i) ∷ xs) ((x, h, short), l) = elim (Bool-cases (i == j)) [
  | inl e ↦ inr (x, subst (λ p. Holds m p x) ((==_iff i j).0 e) h)
  | inr e ↦ elim (used-Holds m j xs l) [
    | inl none_there ↦ inl (rw e (omega (arith, none_there)))
    | inr there ↦ inr there
  ]
]

last_freed : (h l c : Bool) → c ≡ (h || l) → c ≡ true → l ≡ false → h ≡ true
last_freed true l c e k n = refl
last_freed false l c e k n = let no : false ≡ true = sym n ∙ sym e ∙ k in absurd cc

-- One ring after the other.
both-IsFreed :
    (m m1 m2 : Memory) (hs ls : Cells)
    → IsFreed m hs m1
    → IsFreed m1 ls m2
    → IsFreed m (hs ++ ls) m2
both-IsFreed m m1 m2 hs ls g h = record {
  nodes_gone = λ b e. elim (Bool-cases (has b ls)) [
    | inl low ↦ h.nodes_gone b low
    | inr not_low ↦
        h.nodes_kept b not_low
        ∙ g.nodes_gone b
            (last_freed (has b hs) (has b ls) (has b (hs ++ ls)) (has-append b hs ls) e not_low)
  ];
  nodes_kept = λ b e.
      let no = neither (has b hs) (has b ls) (sym (has-append b hs ls) ∙ e) in
      h.nodes_kept b no.1 ∙ g.nodes_kept b no.0;
  inputs_gone = λ j k. elim (zero_or_more (uses j ls)) [
    | inr low ↦ h.inputs_gone j low
    | inl out ↦ h.inputs_kept j out ∙ g.inputs_gone j (omega (arith, uses-append j hs ls, k, out))
  ];
  inputs_kept = λ j k.
      h.inputs_kept j (omega (arith, uses-append j hs ls, k))
      ∙ g.inputs_kept j (omega (arith, uses-append j hs ls, k));
}

-- On a queue of two rings in memory, whose inputs are in memory and have different strings,
-- `input_queue_fini` ends without a fault: it frees every node of the rings and every input that is
-- queued, each of them once, and leaves all other nodes and inputs as they are.
pub input_queue_fini-IsFreed :
    (m : Memory) (q : InputQueue) (s : Rings)
    → IsSound m q s
    → Returns (λ (u, m'). IsFreed m (s.high ++ s.low) m') (input_queue_fini (some q) m)
unfolding input_queue_fini
input_queue_fini-IsFreed m q s v = rw v.rings.high.head (
    continue-Returns
      (free_nodes-IsFreed (q.high_p.len + 1) m s.high v.rings.high.chain v.high
        (λ j. omega (arith, once j)) (omega (arith, v.rings.high.len)))
      λ u m1 g. rw v.rings.low.head (
        Returns-mono
          (free_nodes-IsFreed (q.low_p.len + 1) m1 s.low
            (Chain-frame m.nodes m1.nodes s.low (λ b e. g.nodes_kept b (apart b e))
              v.rings.low.chain)
            (Live-frame m m1 s.low (λ j k. g.inputs_kept j (omega (arith, once j, k))) v.low)
            (λ j. omega (arith, once j)) (omega (arith, v.rings.low.len)))
          λ (u2, m2) h. both-IsFreed m m1 m2 s.high s.low g h))
  where
    by_text : (j : Ptr) (x : Input) → Holds m j x → queued j s ≤ 1
    by_text j x h =
        omega (arith, uses-like m j x s.high h, uses-like m j x s.low h, v.distinct x.str)

    once : (j : Ptr) → queued j s ≤ 1
    once j = elim (used-Holds m j s.high v.high) [
      | inr (x, h) ↦ by_text j x h
      | inl e ↦ elim (used-Holds m j s.low v.low) [
        | inr (x, h) ↦ by_text j x h
        | inl e' ↦ omega (arith, e, e')
      ]
    ]

    apart : (b : Ptr) → has b s.low ≡ true → has b s.high ≡ false
    apart b e = elim (Bool-cases (has b s.high)) [
      | inr out ↦ out
      | inl in_high ↦ let no : true ≡ false = sym e ∙ v.rings.apart b in_high in absurd cc
    ]
