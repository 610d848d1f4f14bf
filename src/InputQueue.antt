-- ===== src/InputQueue.antt =====
-- The input queue of fuzzer/src/input_queue.c, over the heap of `Memory`. A `struct queue` is a value
-- and a function that updates one returns it. A NULL queue is `none`.
pub mod Chain
pub mod Spec
pub mod Turns
pub mod Ops
pub mod Moves
pub mod Refine
pub mod Duplicates
pub mod LowPriority
pub mod Distinct
pub mod Sound
pub mod Finish
use coverage_guided_fuzzer.Prelude.{
  ℕ, zero, suc, ◌+◌, ◌-◌, ◌%◌, Bool, true, false, ◌&&◌, Option, none, some, List, ltb, ◌==◌,
  if◌then◌else◌,
}
use coverage_guided_fuzzer.CoverageMap.{same_bytes}
use coverage_guided_fuzzer.Memory.{
  Ptr, null, node, Cmd, pure, write, ◌>>=◌, ◌>>◌, load_node, store_node, set_next, load_str,
  free_input,
}

-- `struct queue`. `len` counts nodes in memory, so it does not wrap.
pub record Queue : Type 0 where
  pub head : Ptr
  pub tail : Ptr
  pub len : ℕ

abbrev pub queue : Ptr → Ptr → ℕ → Queue
queue h t n = record { head = h; tail = t; len = n }

-- `struct input_queue`
pub record InputQueue : Type 0 where
  pub high_p : Queue
  pub low_p : Queue
  pub deq_cycle_ind : ℕ

abbrev pub is_empty : Queue → Bool
is_empty q = q.len == 0

-- The end of `helpr_enqueue_node` and of `dequeue_input`: a node whose next is NULL goes to the tail.
unfoldable pub attach : Queue → Ptr → Cmd Queue
attach q n =
    if is_empty q
    then pure (queue n n (q.len + 1))
    else do set_next q.tail n; pure (queue q.head n (q.len + 1))

-- `helpr_enqueue_node`; `fresh` is what malloc returns.
unfoldable pub helpr_enqueue_node : Ptr → Queue → Ptr → Cmd Queue
helpr_enqueue_node fresh q input =
    if fresh == null then pure q else do store_node fresh (node input null); attach q fresh

-- One loop of `helpr_inp_is_duplicate`, on fuel.
unfoldable pub find_str : ℕ → Ptr → List ℕ → Cmd Bool
find_str zero cur target = λ _. none
find_str (suc fuel) cur target =
    let round = (do
      n ← load_node cur
      cur_inp ← load_str n.input
      if same_bytes target cur_inp then pure true else find_str fuel n.next target) in
    if cur == null then pure false else round

-- `helpr_inp_is_duplicate`: each loop has a round for each node and one more.
unfoldable pub helpr_inp_is_duplicate : InputQueue → Ptr → Cmd Bool
helpr_inp_is_duplicate q input = do
  target_inp ← load_str input
  in_high ← find_str (q.high_p.len + 1) q.high_p.head target_inp
  if in_high then pure true else find_str (q.low_p.len + 1) q.low_p.head target_inp

-- `input_queue_init`, with malloc's answer.
unfoldable pub input_queue_init : Bool → Option InputQueue
input_queue_init granted =
    if granted
    then some (record { high_p = queue null null 0; low_p = queue null null 0; deq_cycle_ind = 0 })
    else none

abbrev pub enqueue_high : Ptr → InputQueue → Ptr → Cmd InputQueue
enqueue_high fresh q input = do
  twice ← helpr_inp_is_duplicate q input
  if twice
      then (do free_input input; pure q)
      else (do high ← helpr_enqueue_node fresh q.high_p input; pure (record q { high_p = high }))

abbrev pub enqueue_low : Ptr → InputQueue → Ptr → Cmd InputQueue
enqueue_low fresh q input = do
  twice ← helpr_inp_is_duplicate q input
  if twice
      then (do free_input input; pure q)
      else (do low ← helpr_enqueue_node fresh q.low_p input; pure (record q { low_p = low }))

-- `enqueue_high_prio_input`
unfoldable pub enqueue_high_prio_input : Ptr → Option InputQueue → Ptr → Cmd (Option InputQueue)
enqueue_high_prio_input fresh none input = pure none
enqueue_high_prio_input fresh (some q) input =
    if input == null then pure (some q) else do q' ← enqueue_high fresh q input; pure (some q')

-- `enqueue_low_prio_input`
unfoldable pub enqueue_low_prio_input : Ptr → Option InputQueue → Ptr → Cmd (Option InputQueue)
enqueue_low_prio_input fresh none input = pure none
enqueue_low_prio_input fresh (some q) input =
    if input == null then pure (some q) else do q' ← enqueue_low fresh q input; pure (some q')

-- `dequeue_input` once the queue is chosen: the head goes to the tail, and its input is returned.
unfoldable pub rotate : Queue → Cmd (Ptr × Queue)
rotate q = do
  res ← load_node q.head
  let tail : Ptr = if res.next == null then null else q.tail
  set_next q.head null
  q' ← attach (queue res.next tail (q.len - 1)) q.head
  pure (res.input, q')

-- Whether the turn is the high queue's: nine turns of ten, and each turn that the other cannot take.
unfoldable pub from_high : InputQueue → Bool
from_high q =
    if ltb q.deq_cycle_ind 9
    then (if is_empty q.high_p then false else true)
    else if is_empty q.low_p
    then true
    else false

-- `dequeue_input`
unfoldable pub dequeue_input : Option InputQueue → Cmd (Ptr × Option InputQueue)
dequeue_input none = pure (null, none)
dequeue_input (some q) =
    let next : ℕ = (q.deq_cycle_ind + 1) % 10 in
    if is_empty q.high_p && is_empty q.low_p
    then pure (null, some q)
    else if from_high q
    then (do
      (i, high) ← rotate q.high_p
      pure (i, some (record q { high_p = high; deq_cycle_ind = next })))
    else (do
      (i, low) ← rotate q.low_p
      pure (i, some (record q { low_p = low; deq_cycle_ind = next })))

-- `SAFEFREE` of a node
abbrev free_node : Ptr → Cmd (Unit {0})
free_node p m = if p == null then some (tt, m) else elim (m.nodes p) [
  | none ↦ none
  | some n ↦ some (tt, record m { nodes = write m.nodes p none })
]

-- One loop of `input_queue_fini`, on fuel.
unfoldable pub free_nodes : ℕ → Ptr → Cmd (Unit {0})
free_nodes zero cur = λ _. none
free_nodes (suc fuel) cur =
    let round = (do n ← load_node cur; free_input n.input; free_node cur; free_nodes fuel n.next) in
    if cur == null then pure tt else round

-- `input_queue_fini`: each loop has a round for each node and one more.
unfoldable pub input_queue_fini : Option InputQueue → Cmd (Unit {0})
input_queue_fini none = pure tt
input_queue_fini (some q) = do
  free_nodes (q.high_p.len + 1) q.high_p.head
  free_nodes (q.low_p.len + 1) q.low_p.head
