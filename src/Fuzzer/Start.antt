-- ===== src/Fuzzer/Start.antt =====
-- run_fuzzer before its loop: the seeds are read.
use coverage_guided_fuzzer.RunnerPool.Lanes.{AreHeld}
use coverage_guided_fuzzer.Prelude.{
  ℕ, ◌≤◌, ◌≡◌, refl, sym, ap, ◌∙◌, inl, inr, true, Option, none, some, List, [], ◌∷◌, ◌==◌, ==_refl,
  ==_iff, length, arith, IsBytes, Bool-cases, Returns, returns, Returns-bind, Returns-mono, ◌>>=◌,
}
use coverage_guided_fuzzer.Prelude.Text.{IsText}
use coverage_guided_fuzzer.Input.{Input, make_input}
use coverage_guided_fuzzer.CoverageMap.{CoverageMap}
use coverage_guided_fuzzer.Mutator.Positions.{max_inp_len}
use coverage_guided_fuzzer.Memory.{Ptr, Memory, write}
use coverage_guided_fuzzer.InputQueue.{InputQueue, input_queue_init, enqueue_high_prio_input}
use coverage_guided_fuzzer.InputQueue.Spec.{Rings}
use coverage_guided_fuzzer.InputQueue.Refine.{rings}
use coverage_guided_fuzzer.InputQueue.Sound.{IsSound, enqueue_high-IsKept}
use coverage_guided_fuzzer.RunnerPool.{Inputs, Runners}
use coverage_guided_fuzzer.RunnerPool.Lanes.{lanes, IsRunners}
use coverage_guided_fuzzer.Fuzzer.{State, Allocator, Answers, grants_at, store_input, fuzzer_loop}
use coverage_guided_fuzzer.Fuzzer.Seeds.{line_text, read_seeds, start}
use coverage_guided_fuzzer.Fuzzer.Prepare.{NoneLost, IsNew, Made, make_input-Made}
use coverage_guided_fuzzer.Fuzzer.Moved.{IsSound-moved, queued-none}
use coverage_guided_fuzzer.Fuzzer.Results.{IsMalloc}
use coverage_guided_fuzzer.Fuzzer.Round.{AllLow, IsRun, fuzzer_loop-IsRun}

-- Lines of bytes, whose strings have at most MAX_INP_LEN.
abbrev pub AreShort : List (List ℕ) → Type 0
AreShort [] = Unit {0}
AreShort (line ∷ lines) = IsBytes line × (length (line_text line) ≤ max_inp_len) × AreShort lines

line_text-IsText : (line : List ℕ) → IsBytes line → IsText (line_text line)
unfolding line_text
line_text-IsText [] v = tt
line_text-IsText (b ∷ []) v = elim (Bool-cases (b == 10)) [
  | inl e ↦ rw e tt
  | inr e ↦ elim (Bool-cases (b == 0)) [
    | inl z ↦ rw (e, z) tt
    | inr z ↦ rw (e, z) (ground (arith, z), v.0, tt)
  ]
]
line_text-IsText (b ∷ c ∷ rest) v = elim (Bool-cases (b == 0)) [
  | inl z ↦ rw z tt
  | inr z ↦ rw z (ground (arith, z), v.0, line_text-IsText (c ∷ rest) v.1)
]

added-NoneLost :
    (m : Memory) (p : Ptr) (y : Input)
    → m.inputs p ≡ none
    → NoneLost m (record m { inputs = write m.inputs p (some y) })
unfolding write
added-NoneLost m p y free j z h k = (z, record { given = h.given; at = kept }, k, refl)
  where
    kept : write m.inputs p (some y) j ≡ some z
    kept = elim (Bool-cases (j == p)) [
      | inl e ↦
          let no : none ≡ some z = sym free ∙ ap m.inputs (sym ((==_iff j p).0 e)) ∙ h.at in cc
      | inr e ↦ rw e h.at
    ]

abbrev Holding : Option InputQueue × Memory → Type 0
Holding (oq, m) = (q : InputQueue) × (s : Rings) × (oq ≡ some q) × IsSound m q s

module _ (alloc : Allocator) (nodes : IsMalloc alloc)
    (inputs : (m : Memory) → IsNew m (alloc.input_at m)) where
  -- One seed, if malloc has given it an input or not.
  seed-Holding :
      (o : Option Input) (q : InputQueue) (s : Rings) (m : Memory)
      → Made (alloc.input_at m) o
      → IsSound m q s
      → let (inp, m1) = store_input (alloc.input_at m) o m in
        Returns Holding (enqueue_high_prio_input (alloc.node_at m1) (some q) inp m1)
  unfolding enqueue_high_prio_input write
  seed-Holding o q s m (inl (e, n)) v = rw e (returns (q, s, refl, v))
  seed-Holding o q s m (inr (ne, (y, e, k))) v = rw e (
      Returns-mono
        (enqueue_high-IsKept m1 q s p y (IsSound-moved m m1 q s (added-NoneLost m p y free) refl v)
          (record { given = ne; at = stored }) k (alloc.node_at m1) (nodes m1)
          (queued-none m q s p v free))
        λ (oq, m') (q', s', is_some, sound, same). (q', s', is_some, sound))
    where
      p : Ptr
      p = alloc.input_at m

      m1 : Memory
      m1 = record m { inputs = write m.inputs p (some y) }

      free : m.inputs p ≡ none
      free = elim (inputs m) [ inl n ↦ absurd (ne n) | inr (there, f) ↦ f ]

      stored : write m.inputs p (some y) p ≡ some y
      stored = rw (==_refl p) refl

  read_seeds-Holding :
      (lines : List (List ℕ)) (q : InputQueue) (s : Rings) (m : Memory)
      → AreShort lines
      → IsSound m q s
      → Returns Holding (read_seeds alloc lines (some q) m)
  unfolding read_seeds
  read_seeds-Holding [] q s m short v = returns (q, s, refl, v)
  read_seeds-Holding (line ∷ lines) q s m (bytes, le, short) v =
      Returns-bind
        (seed-Holding (make_input (grants_at (alloc.input_at m)) (some (line_text line))) q s m
          (make_input-Made (alloc.input_at m) (line_text line) (line_text-IsText line bytes) le) v)
        λ (oq, m') (q', s', is_some, w). rw is_some (read_seeds-Holding lines q' s' m' short w)

-- The state before the first round.
pub start-IsRun :
    (alloc : Allocator) (target_total : ℕ) (lines : List (List ℕ)) (c : CoverageMap) (rs : Runners)
    (pool ready : List Ptr) (h : Inputs) (m : Memory)
    → IsMalloc alloc
    → ((m : Memory) → IsNew m (alloc.input_at m))
    → AreShort lines
    → IsRunners rs (lanes pool ready [] [])
    → AreHeld h pool
    → Returns
        (λ o. (f : State) × (o ≡ some f) × IsRun target_total f)
        (start alloc (input_queue_init true) (some c) (some rs) lines h m)
unfolding start input_queue_init
start-IsRun alloc target_total lines c rs pool ready h m nodes inputs short v held =
    Returns-bind
      (read_seeds-Holding alloc nodes inputs lines _ (rings [] [] 0) m short (record {
        rings = record {
          high = record { chain = tt; head = refl; tail = refl; len = refl };
          low = record { chain = tt; head = refl; tail = refl; len = refl };
          apart = λ a e. refl;
          turn = refl;
        };
        high = tt;
        low = tt;
        distinct = λ t. omega arith;
      }))
      λ (oq, m') (q, s, is_some, w). returns (
        _,
        refl,
        (
          q,
          s,
          rs,
          lanes pool ready [] [],
          record {
            queue_is = is_some;
            runners_is = refl;
            held = held;
            sound = w;
            pool = v;
            testing = record {
              tested = λ r k. absurd (omega (arith, k));
              apart = λ r r' k k'. absurd (omega (arith, k));
            };
          },
          omega arith,
          omega arith,
        ),
      )

-- With a malloc that answers NULL or memory that is not in use, runners whose descriptors are below
-- FD_SETSIZE in every round, a seed file whose lines have strings of at most 1024 bytes, and a
-- well-formed pool in memory whose runners are neither active nor done, run_fuzzer reads its seeds and
-- goes through any number of rounds without a fault, whatever signals come and whatever the system
-- calls, the runners and malloc answer: no array is left, no input is used after it was freed or freed
-- twice, and no fuel runs out. After these rounds each queued input is in memory, well formed and of
-- at most 1024 bytes, with a string that no other has; so is the input of each runner that is active
-- or done, which is neither queued nor another runner's; the pool is well-formed and its runners are
-- those in memory; the jobs received and those of active and done runners are together no more than
-- were sent, and no more are sent than asked for.
pub fuzzer_loop-safe :
    (alloc : Allocator) (target_total : ℕ) (as' : List Answers) (lines : List (List ℕ))
    (c : CoverageMap) (rs : Runners) (pool ready : List Ptr) (h : Inputs) (m : Memory)
    → IsMalloc alloc
    → ((m : Memory) → IsNew m (alloc.input_at m))
    → AreShort lines
    → IsRunners rs (lanes pool ready [] [])
    → AreHeld h pool
    → AllLow as'
    → Returns (IsRun target_total) (
        start alloc (input_queue_init true) (some c) (some rs) lines h m >>= λ o.
        o >>= fuzzer_loop alloc target_total as')
fuzzer_loop-safe alloc target_total as' lines c rs pool ready h m nodes inputs short v held low =
    Returns-bind
      (start-IsRun alloc target_total lines c rs pool ready h m nodes inputs short v held)
      λ o (f, is_f, run). rw is_f (fuzzer_loop-IsRun alloc target_total as' f nodes inputs low run)
