-- ===== src/InputQueue/Moves.antt =====
-- `helpr_enqueue_node` and the rotation of `dequeue_input` on one queue.
use coverage_guided_fuzzer.Prelude.{
  ◌-◌, ◌≡◌, ◌≢◌, refl, sym, ◌∙◌, false, Option, none, some, [], ◌∷◌, ◌++◌, ◌==◌, if◌then◌else◌,
  arith, Returns, returns, Returns-mono,
}
use mathlib.Core.Path.{subst}
use coverage_guided_fuzzer.Memory.{
  Ptr, null, Node, node, Memory, write, load_node, set_next, continue-Returns,
}
use coverage_guided_fuzzer.InputQueue.{Queue, queue, attach, helpr_enqueue_node, rotate}
use coverage_guided_fuzzer.InputQueue.Chain.{
  Cells, first, last, has, Chain, IsQueue, Attached, Chain-write, load_node-some, set_next-some,
}
use coverage_guided_fuzzer.InputQueue.Ops.{unused, attach-Attached}

-- A command's effect on one queue: its new nodes, the inputs as they were, and every address
-- outside `changed` as it was.
pub record Moved (m : Memory) (changed xs : Cells) (q : Queue) (m' : Memory) : Type 0 where
  pub queue : IsQueue m' q xs
  pub inputs : m'.inputs ≡ m.inputs
  pub spared : (a : Ptr) → has a changed ≡ false → m'.nodes a ≡ m.nodes a

-- With a fresh node from malloc the input goes to the end of the queue.
pub enqueue-Moved :
    (m : Memory) (q : Queue) (xs : Cells) (fresh i : Ptr)
    → IsQueue m q xs
    → fresh ≢ null
    → m.nodes fresh ≡ none
    → Returns
        (λ (q', m'). Moved m ((fresh, i) ∷ xs) (xs ++ (fresh, i) ∷ []) q' m')
        (helpr_enqueue_node fresh q i m)
unfolding helpr_enqueue_node
enqueue-Moved m q xs fresh i v ne free = rw given (
    Returns-mono
      (attach-Attached m1 q fresh i ne (unfold write in ground arith) xs out (record {
        chain = Chain-write m.nodes xs fresh (some (node i null)) out v.chain;
        head = v.head;
        tail = v.tail;
        len = v.len;
      }))
      λ (q', m') w. record {
        queue = w.queue;
        inputs = w.inputs;
        spared = λ a e. w.spared a (ground (arith, e)) ∙ (unfold write in ground (arith, e));
      })
  where
    given : (fresh == null) ≡ false
    given = ground arith

    out : has fresh xs ≡ false
    out = unused m.nodes xs fresh free v.chain

    m1 : Memory
    m1 = record m { nodes = write m.nodes fresh (some (node i null)) }

-- The tail pointer after the head has left.
tail_rest :
    (h : Ptr → Option Node) (r i t : Ptr) (ys : Cells)
    → Chain h ys
    → t ≡ last ((r, i) ∷ ys)
    → (if first ys == null then null else t) ≡ last ys
tail_rest h r i t [] c e = refl
tail_rest h r i t ((a, j) ∷ ys) c e = ground (arith, c.0)

-- The head of the queue goes to its end and its input is returned.
pub rotate-Moved :
    (m : Memory) (q : Queue) (r i : Ptr) (ys : Cells)
    → IsQueue m q ((r, i) ∷ ys)
    → Returns
        (λ ((j, q'), m'). (j ≡ i) × Moved m ((r, i) ∷ ys) (ys ++ (r, i) ∷ []) q' m')
        (rotate q m)
unfolding rotate
rotate-Moved m q r i ys v =
    rw (loaded, unlinked)
      (continue-Returns
        (subst (λ (f : Ptr). Returns (Attached m1 ys r i) (attach q1 f m1)) (sym v.head)
          (attach-Attached m1 q1 r i held (unfold write in ground arith) ys apart rest))
        λ q' m' w. returns (
          refl,
          record {
            queue = w.queue;
            inputs = w.inputs;
            spared = λ a e. w.spared a (ground (arith, e)) ∙ (unfold write in ground (arith, e));
          },
        ))
  where
    held : r ≢ null
    held = v.chain.0

    apart : has r ys ≡ false
    apart = v.chain.2

    m1 : Memory
    m1 = record m { nodes = write m.nodes r (some (node i null)) }

    q1 : Queue
    q1 = queue (first ys) (if first ys == null then null else q.tail) (q.len - 1)

    loaded : load_node q.head m ≡ some (node i (first ys), m)
    loaded = rw v.head (load_node-some r (node i (first ys)) m held v.chain.1)

    unlinked : set_next q.head null m ≡ some (tt, m1)
    unlinked = rw v.head (set_next-some r null (node i (first ys)) m held v.chain.1)

    rest : IsQueue m1 q1 ys
    rest = record {
      chain = Chain-write m.nodes ys r (some (node i null)) apart v.chain.3;
      head = refl;
      tail = tail_rest m.nodes r i q.tail ys v.chain.3 v.tail;
      len = omega (arith, v.len);
    }
