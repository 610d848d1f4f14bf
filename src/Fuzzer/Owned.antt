-- ===== src/Fuzzer/Owned.antt =====
-- Who has which input: the invariant of the loop of run_fuzzer.
use mathlib.Core.Path.{subst}
use coverage_guided_fuzzer.Prelude.{ℕ, ◌+◌, ◌<◌, ◌≡◌, ◌≢◌, ap, ◌∙◌, sym, some, Returns}
use coverage_guided_fuzzer.Input.{Input}
use coverage_guided_fuzzer.Memory.{Ptr, Memory}
use coverage_guided_fuzzer.InputQueue.{InputQueue, dequeue_input}
use coverage_guided_fuzzer.InputQueue.Spec.{Rings, spec_dequeue}
use coverage_guided_fuzzer.InputQueue.Refine.{Gives, dequeue_refines}
use coverage_guided_fuzzer.InputQueue.Duplicates.{Holds}
use coverage_guided_fuzzer.InputQueue.Sound.{queued, IsShort, IsSound, Others, Holds-frame}
use coverage_guided_fuzzer.RunnerPool.{Inputs, Runners}
use coverage_guided_fuzzer.RunnerPool.Lanes.{AreHeld, Lanes, IsRunners, times}
use coverage_guided_fuzzer.Fuzzer.{State}

-- How often a runner is active or done.
abbrev pub busy : Ptr → Lanes → ℕ
busy r l = times r l.active + times r l.done

-- The runner tests an input in memory that is not queued.
abbrev pub Tests : Memory → Inputs → Rings → Ptr → Type 0
Tests m h s r =
    (i : Ptr) × (x : Input) × (h r ≡ some i) × Holds m i x × IsShort x × (queued i s ≡ 0)

-- The runners that are active or done test inputs, each another one.
pub record IsTesting (m : Memory) (h : Inputs) (s : Rings) (l : Lanes) : Type 0 where
  pub tested : (r : Ptr) → 0 < busy r l → Tests m h s r
  pub apart : (r r' : Ptr) → 0 < busy r l → 0 < busy r' l → r ≢ r' → h r ≢ h r'

-- The state has a sound queue, a well-formed pool, and inputs that are each in one place.
pub record IsOwned (f : State) (q : InputQueue) (s : Rings) (rs : Runners) (l : Lanes)
    : Type 0 where
  pub queue_is : f.queue ≡ some q
  pub runners_is : f.runners ≡ some rs
  pub sound : IsSound f.memory q s
  pub pool : IsRunners rs l
  pub testing : IsTesting f.memory f.active_inputs s l
  pub held : AreHeld f.active_inputs l.pool

-- One input may change, which no runner tests that is busy afterwards.
pub IsTesting-frame :
    (m m' : Memory) (h : Inputs) (s s' : Rings) (l l' : Lanes) (i : Ptr)
    → Others m s i m' s'
    → ((r : Ptr) → 0 < busy r l' → (0 < busy r l) × (h r ≢ some i))
    → IsTesting m h s l
    → IsTesting m' h s' l'
IsTesting-frame m m' h s s' l l' i same still t = record {
  tested = λ r k.
      let (j, x, at, held, short, out) = t.tested r (still r k).0 in
      let ne : j ≢ i = λ e. (still r k).1 (at ∙ ap some e) in
      (j, x, at, Holds-frame m m' j x (same j ne).0 held, short, (same j ne).1 ∙ out);
  apart = λ r r' k k'. t.apart r r' (still r k).0 (still r' k').0;
}

-- The queue of such a state is dequeued as its specification says.
pub dequeued :
    (f : State) (q : InputQueue) (s : Rings) (rs : Runners) (l : Lanes)
    → IsOwned f q s rs l
    → Returns
        (Gives f.memory (spec_dequeue s).0 (spec_dequeue s).1)
        (dequeue_input f.queue f.memory)
dequeued f q s rs l v =
    subst
      (λ o.
        Returns (Gives f.memory (spec_dequeue s).0 (spec_dequeue s).1) (dequeue_input o f.memory))
      (sym v.queue_is) (dequeue_refines f.memory q s v.sound.rings)
