-- ===== src/InputQueue/Ops.antt =====
-- The operations on one queue, as operations on the list of its nodes.
use coverage_guided_fuzzer.Prelude.{
  ◌+◌, ◌≡◌, ◌≢◌, refl, sym, ◌∙◌, ◌⊎◌, inl, inr, true, false, Option, none, some, [], ◌∷◌, ◌++◌,
  ◌==◌, ==_iff, length, length-append, arith, Bool-cases, Returns, returns,
}
use mathlib.Core.Path.{subst}
use mathlib.Core.List.{append_assoc}
use coverage_guided_fuzzer.Memory.{Ptr, null, Node, node, Memory, write, set_next}
use coverage_guided_fuzzer.InputQueue.{Queue, is_empty, attach}
use coverage_guided_fuzzer.InputQueue.Chain.{
  Cells, first, last, has, Chain, IsQueue, Attached, has-append, last-snoc, first-append,
  snoc-cases, link-Chain, set_next-some,
}

last_node :
    (h : Ptr → Option Node) (ys : Cells) (t j : Ptr)
    → Chain h (ys ++ (t, j) ∷ [])
    → (t ≢ null) × (h t ≡ some (node j null))
last_node h [] t j c = (c.0, c.1)
last_node h ((a, i) ∷ ys) t j c = last_node h ys t j c.3

-- An address that holds no node is in no chain.
pub unused :
    (h : Ptr → Option Node) (xs : Cells) (p : Ptr) → h p ≡ none → Chain h xs → has p xs ≡ false
unused h [] p e c = refl
unused h ((a, i) ∷ xs) p e c = elim (Bool-cases (p == a)) [
  | inl s ↦ let same : p ≡ a = (==_iff p a).0 s in let held = c.1 in cc
  | inr s ↦ rw s (unused h xs p e c.3)
]

module _ (m : Memory) (q : Queue) (f i : Ptr) (ne : f ≢ null)
    (alone : m.nodes f ≡ some (node i null)) where
  attach_empty : IsQueue m q [] → Returns (Attached m [] f i) (attach q f m)
  unfolding attach
  attach_empty v =
      let len = v.len in
      let empty : is_empty q ≡ true = ground arith in
      rw empty (
        returns (record {
          queue = record {
            chain = (ne, alone, refl, tt);
            head = refl;
            tail = refl;
            len = omega arith;
          };
          inputs = refl;
          spared = λ a e. refl;
        }))

  attach_snoc :
      (ys : Cells) (t j : Ptr)
      → has f (ys ++ (t, j) ∷ []) ≡ false
      → IsQueue m q (ys ++ (t, j) ∷ [])
      → Returns (Attached m (ys ++ (t, j) ∷ []) f i) (attach q f m)
  unfolding attach
  attach_snoc ys t j out v =
      rw (busy, linked)
        (returns (record {
          queue = record { chain = chain; head = head; tail = tail; len = len };
          inputs = refl;
          spared = spared;
        }))
    where
      h' : Ptr → Option Node
      h' = write m.nodes t (some (node j f))

      busy : is_empty q ≡ false
      busy = ground (arith, v.len, length-append ys ((t, j) ∷ []))

      linked : set_next q.tail f m ≡ some (tt, record m { nodes = h' })
      linked =
          let tail : q.tail ≡ t = v.tail ∙ last-snoc ys t j in
          let (held, at_t) = last_node m.nodes ys t j v.chain in
          rw tail (set_next-some t f (node j null) m held at_t)

      chain : Chain h' ((ys ++ (t, j) ∷ []) ++ (f, i) ∷ [])
      chain =
          rw (append_assoc ys ((t, j) ∷ []) ((f, i) ∷ []))
            (link-Chain m.nodes ys t j f i ne alone out v.chain)

      head : q.head ≡ first ((ys ++ (t, j) ∷ []) ++ (f, i) ∷ [])
      head = v.head ∙ first-append ys t j ((f, i) ∷ [])

      tail : f ≡ last ((ys ++ (t, j) ∷ []) ++ (f, i) ∷ [])
      tail = sym (last-snoc (ys ++ (t, j) ∷ []) f i)

      len : q.len + 1 ≡ length ((ys ++ (t, j) ∷ []) ++ (f, i) ∷ [])
      len = omega (arith, v.len, length-append (ys ++ (t, j) ∷ []) ((f, i) ∷ []))

      spared : (a : Ptr) → has a (ys ++ (t, j) ∷ []) ≡ false → h' a ≡ m.nodes a
      spared a e = unfold write in ground (arith, e, has-append a ys ((t, j) ∷ []))

  -- The node goes to the end of the queue, and nothing else changes but the old end's link.
  pub attach-Attached :
      (xs : Cells) → has f xs ≡ false → IsQueue m q xs → Returns (Attached m xs f i) (attach q f m)
  attach-Attached xs out v = go (snoc-cases xs)
    where
      go :
          (xs ≡ []) ⊎ ((ys : Cells) × (t : Ptr) × (j : Ptr) × (xs ≡ ys ++ (t, j) ∷ []))
          → Returns (Attached m xs f i) (attach q f m)
      go (inl e) =
          subst (λ (zs : Cells). Returns (Attached m zs f i) (attach q f m)) (sym e)
            (attach_empty (subst (IsQueue m q) e v))
      go (inr (ys, t, j, e)) =
          subst (λ (zs : Cells). Returns (Attached m zs f i) (attach q f m)) (sym e)
            (attach_snoc ys t j (subst (λ (zs : Cells). has f zs ≡ false) e out)
              (subst (IsQueue m q) e v))
