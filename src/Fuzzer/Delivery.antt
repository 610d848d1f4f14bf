-- ===== src/Fuzzer/Delivery.antt =====
-- What one round of the dispatch loop of run_fuzzer sends, and to which runner.
use coverage_guided_fuzzer.Prelude.{
  ◌+◌, ◌≡◌, ◌≢◌, refl, sym, ap, ◌∙◌, inl, inr, Bool, true, false, some, Option, List, [], ◌∷◌, ◌++◌,
  ◌==◌, ==_iff, arith, Bool-cases, Returns, returns, Returns-bind, Returns-mono, Returns-else,
}
use mathlib.Core.Path.{subst}
use mathlib.Core.Option.{some-injective}
use coverage_guided_fuzzer.Prelude.Int.{pos}
use coverage_guided_fuzzer.Input.{Input, make_input}
use coverage_guided_fuzzer.Mutator.Total.{stepped}
use coverage_guided_fuzzer.Memory.{Ptr, null, Node, Memory, write}
use coverage_guided_fuzzer.InputQueue.{InputQueue}
use coverage_guided_fuzzer.InputQueue.Spec.{Rings, spec_dequeue}
use coverage_guided_fuzzer.InputQueue.Refine.{IsInputQueue, IsQueue-frame}
use coverage_guided_fuzzer.InputQueue.Duplicates.{Holds}
use coverage_guided_fuzzer.InputQueue.Sound.{IsShort}
use coverage_guided_fuzzer.RunnerPool.{Runners, runners_submit_input}
use coverage_guided_fuzzer.RunnerPool.Lanes.{lanes, IsRunners}
use coverage_guided_fuzzer.RunnerPool.Lanes.Submit.{Submitted, received, submit_refines}
use coverage_guided_fuzzer.Fuzzer.{State, Allocator, next_input, grants_at, prepare, dispatch_one}
use coverage_guided_fuzzer.Fuzzer.Owned.{IsOwned, dequeued}
use coverage_guided_fuzzer.Fuzzer.Prepare.{next_input-Made}

-- For the input `y`, `z` is what is sent.
abbrev pub IsNext : Input → Ptr → Input → Type 0
IsNext y new z =
    (next_input (grants_at new) (some y) ≡ some (some z, some (stepped y)))
    × IsShort z
    × (y.state ≡ 0 → z.str ≡ y.str)

copied :
    (new : Ptr) (y z : Input) (t : Option Input)
    → new ≢ null
    → next_input (grants_at new) (some y) ≡ some (some z, t)
    → y.state ≡ 0
    → z.str ≡ y.str
unfolding next_input make_input
copied new y z t ne e first =
    let given : (new == null) ≡ false = ground (arith, ne) in
    let first_time : (y.state == 0) ≡ true = ground (arith, first) in
    let same = rw (first_time, given) at e in
    let made =
      some-injective _ _
        (ap (λ (o : Option Input × Option Input). o.0) (some-injective _ _ same)) in
    ap (λ (o : Input). o.str) (sym made)

next : (new : Ptr) (y : Input) → IsShort y → new ≢ null → (z : Input) × IsNext y new z
next new y short ne =
    let (o, e, made) = next_input-Made new y short in
    elim made [
      | inl (is_none, is_null) ↦ absurd (ne is_null)
      | inr (there, (z, is_some, k)) ↦
          let sends = e ∙ ap (λ (t : Option Input). some (t, some (stepped y))) is_some in
          (z, (sends, k, copied new y z (some (stepped y)) ne sends))
    ]

abbrev StoredAt : Memory → Ptr → Input → Ptr → Ptr × Memory → Type 0
StoredAt m i y new (p, m1) =
    (p ≡ new)
    × (m1.nodes ≡ m.nodes)
    × ((z : Input) × IsNext y new z
        × (m1.inputs ≡ write (write m.inputs i (some (stepped y))) new (some z)))

prepare-StoredAt :
    (alloc : Allocator) (m : Memory) (i : Ptr) (y : Input) (new : Ptr)
    → Holds m i y
    → IsShort y
    → alloc.input_at m ≡ new
    → new ≢ null
    → Returns (StoredAt m i y new) (prepare alloc i m)
unfolding prepare
prepare-StoredAt alloc m i y new held short at ne =
    let (z, sends) = next new y short ne in
    rw (held.at, at, sends.0) (returns (refl, refl, (z, sends, refl)))

IsInputQueue-frame :
    (m m1 : Memory) (q : InputQueue) (s : Rings)
    → m1.nodes ≡ m.nodes
    → IsInputQueue m q s
    → IsInputQueue m1 q s
IsInputQueue-frame m m1 q s nodes w =
    let same : (a : Ptr) → m1.nodes a ≡ m.nodes a =
      λ a. ap (λ (h : Ptr → Option Node). h a) nodes in
    record {
      high = IsQueue-frame m m1 q.high_p s.high (λ a inside. same a) w.high;
      low = IsQueue-frame m m1 q.low_p s.low (λ a inside. same a) w.low;
      apart = w.apart;
      turn = w.turn;
    }

-- The first ready runner gets the new input.
abbrev pub Delivered :
    State
    → Rings
    → List Ptr
    → List Ptr
    → List Ptr
    → List Ptr
    → Ptr
    → Input
    → Ptr
    → Bool × State
    → Type 0
Delivered f s p r a d x y new (more, f') =
    (more ≡ true)
    × (f'.jobs_sent ≡ f.jobs_sent + 1)
    × (f'.active_inputs ≡ write f.active_inputs x (some new))
    × ((rs : Runners) × (f'.runners ≡ some rs) × IsRunners rs (lanes p r (a ++ x ∷ []) d))
    × ((q : InputQueue) × (f'.queue ≡ some q) × IsInputQueue f'.memory q (spec_dequeue s).1)
    × ((z : Input) × IsNext y new z
        × (f'.memory.inputs
            ≡ write (write f.memory.inputs (spec_dequeue s).0 (some (stepped y))) new (some z)))

-- Take a state in which each input is in one place, with a runner ready, where the queue's turn is an
-- input `y` and malloc gives an address for a new input, to which the writes succeed. Then a round of
-- the dispatch loop ends without a fault and goes on. It stores at that address what `next_input`
-- makes of `y`, a well-formed input of at most 1024 bytes, with the string of `y` if that is in state
-- 0; it steps the state of `y` and writes to no other input; it gives the new input to the first ready
-- runner, which becomes the last active one, in a pool that stays well-formed; it counts one job more
-- as sent, and leaves the queue as the specification of a dequeue does.
pub dispatch_one-delivers :
    (alloc : Allocator) (sent : Ptr → Bool) (f : State) (q : InputQueue) (s : Rings) (rs : Runners)
    (p r a d : List Ptr) (x new : Ptr) (y : Input)
    → IsOwned f q s rs (lanes p (x ∷ r) a d)
    → Holds f.memory (spec_dequeue s).0 y
    → IsShort y
    → ((m : Memory) → m.inputs ≡ f.memory.inputs → alloc.input_at m ≡ new)
    → new ≢ null
    → sent new ≡ true
    → Returns (Delivered f s p r a d x y new) (dispatch_one alloc sent f)
unfolding dispatch_one
dispatch_one-delivers alloc sent f q s rs p r a d x new y v held short malloc ne goes =
    Returns-bind (dequeued f q s rs _ v) λ ((j, oq), m) (is_i, (q', is_some, w), same).
      let not_null : (j == null) ≡ false = elim (Bool-cases (j == null)) [
        | inl e ↦ absurd (held.given (sym is_i ∙ (==_iff j null).0 e))
        | inr e ↦ e
      ] in
      let there : Holds m j y = record {
        given = λ n. held.given (sym is_i ∙ n);
        at =
            ap m.inputs is_i ∙ ap (λ (h : Ptr → Option Input). h (spec_dequeue s).0) same ∙ held.at;
      } in
      Returns-else _ _ not_null (
        Returns-bind (prepare-StoredAt alloc m j y new there short (malloc m same) ne)
          λ (to_send, m1) (is_new, nodes, (z, is_next, inputs)).
            Returns-bind (submitted to_send is_new) λ (res, ors, h') (res_is, pool, h_is).
              rw res_is (
                returns (
                  refl,
                  refl,
                  h_is,
                  pool,
                  (q', is_some, IsInputQueue-frame m m1 q' (spec_dequeue s).1 nodes w),
                  (
                    z,
                    is_next,
                    inputs
                        ∙ ap
                            (λ (h : Ptr → Option Input).
                              write (write h j (some (stepped y))) new (some z))
                            same
                        ∙ ap
                            (λ (k : Ptr).
                              write (write f.memory.inputs k (some (stepped y))) new (some z))
                            is_i,
                  ),
                )))
  where
    submitted :
        (to_send : Ptr)
        → to_send ≡ new
        → Returns
            (Submitted (pos 0, lanes p r (a ++ x ∷ []) d, write f.active_inputs x (some new)))
            (runners_submit_input (sent to_send) f.runners to_send f.active_inputs)
    submitted to_send is_new =
        let got : received (sent to_send) to_send ≡ true = rw (is_new, goes) (ground (arith, ne)) in
        rw v.runners_is (
          Returns-mono
            (submit_refines (sent to_send) rs (lanes p (x ∷ r) a d) to_send f.active_inputs v.pool)
            λ o out.
              subst
                (λ k.
                  Submitted (pos 0, lanes p r (a ++ x ∷ []) d, write f.active_inputs x (some k)) o)
                is_new (rw got at out))
