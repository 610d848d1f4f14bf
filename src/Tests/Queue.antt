-- ===== src/Tests/Queue.antt =====
-- The input queue with one input of high priority and one of low priority.
use coverage_guided_fuzzer.Prelude.{ℕ, ◌≡◌, refl, none, some, List, [], ◌∷◌, ◌++◌, arith, Returns}
use coverage_guided_fuzzer.Prelude.Text.{codes}
use coverage_guided_fuzzer.CoverageMap.{same_bytes}
use coverage_guided_fuzzer.Input.{Input}
use coverage_guided_fuzzer.Memory.{null, node, Memory, write}
use coverage_guided_fuzzer.InputQueue.{queue, InputQueue, dequeue_input, enqueue_high_prio_input}
use coverage_guided_fuzzer.InputQueue.{enqueue_low_prio_input}
use coverage_guided_fuzzer.InputQueue.LowPriority.{enqueue_low_refines}
use coverage_guided_fuzzer.InputQueue.Turns.{dequeues, dequeues_reach_low}
use coverage_guided_fuzzer.InputQueue.Spec.{Rings, spec_dequeue, serve, next_turn}
use coverage_guided_fuzzer.InputQueue.Refine.{IsInputQueue, Gives, rings, dequeue_refines}
use coverage_guided_fuzzer.InputQueue.Duplicates.{
  Holds, Strings, none_left, one_more, enqueue_high_duplicate, enqueue_high_refines,
}

abbrev seed : List ℕ → Input
seed s = record { str = s; len = 2; state = 0 }

-- Nodes 10 and 20 are queued, with inputs 100 and 200; inputs 300 and 400 are not queued yet.
abbrev memory : Memory
memory = record {
  nodes = write (write (λ _. none) 10 (some (node 100 null))) 20 (some (node 200 null));
  inputs =
      write
        (write
          (write (write (λ _. none) 100 (some (seed (codes "ab")))) 200 (some (seed (codes "cd"))))
          300 (some (seed (codes "cd"))))
        400 (some (seed (codes "ef")));
}

abbrev input_queue : InputQueue
input_queue = record { high_p = queue 10 10 1; low_p = queue 20 20 1; deq_cycle_ind = 9 }

abbrev two_rings : Rings
two_rings = rings ((10, 100) ∷ []) ((20, 200) ∷ []) 9

input_queue-IsInputQueue : IsInputQueue memory input_queue two_rings
unfolding write
input_queue-IsInputQueue = record {
  high = record { chain = (omega arith, refl, refl, tt); head = refl; tail = refl; len = refl };
  low = record { chain = (omega arith, refl, refl, tt); head = refl; tail = refl; len = refl };
  apart = λ a inside. ground (arith, inside);
  turn = refl;
}

high-Strings : Strings memory two_rings.high (codes "ab" ∷ [])
unfolding write
high-Strings = one_more (seed (codes "ab")) (record { given = omega arith; at = refl }) none_left

low-Strings : Strings memory two_rings.low (codes "cd" ∷ [])
unfolding write
low-Strings = one_more (seed (codes "cd")) (record { given = omega arith; at = refl }) none_left

again-Holds : Holds memory 300 (seed (codes "cd"))
unfolding write
again-Holds = record { given = omega arith; at = refl }

new-Holds : Holds memory 400 (seed (codes "ef"))
unfolding write
new-Holds = record { given = omega arith; at = refl }

unused_30 : memory.nodes 30 ≡ none
unfolding write
unused_30 = refl

-- The tenth turn is the low ring's.
dequeue_refines_example :
    Returns
      (Gives memory (spec_dequeue two_rings).0 (spec_dequeue two_rings).1)
      (dequeue_input (some input_queue) memory)
dequeue_refines_example = dequeue_refines memory input_queue two_rings input_queue-IsInputQueue

-- With the low ring's turn next, its only input is given at once.
dequeues_reach_low_example :
    Returns (λ ((i, q'), m'). i ≡ 200) (dequeues 1 null (some input_queue) memory)
dequeues_reach_low_example =
    dequeues_reach_low memory input_queue 9 20 200 (10, 100) [] [] [] null input_queue-IsInputQueue
      (omega arith)

served : (spec_dequeue two_rings).0 ≡ 200
unfolding spec_dequeue serve next_turn
served = refl

enqueue_high_duplicate_example :
    enqueue_high_prio_input 30 (some input_queue) 300 memory
    ≡ some (some input_queue, record memory { inputs = write memory.inputs 300 none })
unfolding same_bytes
enqueue_high_duplicate_example =
    enqueue_high_duplicate memory input_queue two_rings (codes "ab" ∷ []) (codes "cd" ∷ []) 300
      (seed (codes "cd")) input_queue-IsInputQueue high-Strings low-Strings again-Holds 30 refl

enqueue_high_refines_example :
    Returns
      (λ (oq, m').
        (q' : InputQueue) × (oq ≡ some q')
        × IsInputQueue m' q' (record two_rings { high = two_rings.high ++ (30, 400) ∷ [] })
        × (m'.inputs ≡ memory.inputs))
      (enqueue_high_prio_input 30 (some input_queue) 400 memory)
unfolding same_bytes
enqueue_high_refines_example =
    enqueue_high_refines memory input_queue two_rings (codes "ab" ∷ []) (codes "cd" ∷ []) 400
      (seed (codes "ef")) input_queue-IsInputQueue high-Strings low-Strings new-Holds 30
      (omega arith) unused_30 refl

enqueue_low_refines_example :
    Returns
      (λ (oq, m').
        (q' : InputQueue) × (oq ≡ some q')
        × IsInputQueue m' q' (record two_rings { low = two_rings.low ++ (30, 400) ∷ [] })
        × (m'.inputs ≡ memory.inputs))
      (enqueue_low_prio_input 30 (some input_queue) 400 memory)
unfolding same_bytes
enqueue_low_refines_example =
    enqueue_low_refines memory input_queue two_rings (codes "ab" ∷ []) (codes "cd" ∷ []) 400
      (seed (codes "ef")) input_queue-IsInputQueue high-Strings low-Strings new-Holds 30
      (omega arith) unused_30 refl
