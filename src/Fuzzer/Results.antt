-- ===== src/Fuzzer/Results.antt =====
-- The loop of run_fuzzer over the finished jobs.
use coverage_guided_fuzzer.Prelude.{
  ℕ, zero, suc, ◌+◌, ◌<◌, ◌≡◌, ◌≢◌, refl, sym, ap, ◌∙◌, ◌⊎◌, inl, inr, Bool, Bool-cases, Option,
  if◌then◌else◌, true, false, some, List, [], ◌∷◌, ◌++◌, ◌==◌, length, arith, Returns, returns,
  Returns-bind, Returns-mono, Returns-if, ◌>>=◌,
}
use mathlib.Core.List.{append-nil}
use mathlib.Core.Path.{subst}
use coverage_guided_fuzzer.Prelude.Int.{ℤ, pos, negsuc}
use coverage_guided_fuzzer.Input.{Input}
use coverage_guided_fuzzer.CoverageMap.{
  Priority, no_prio, low_prio, high_prio, CoverageMap, coverage_map_add,
}
use coverage_guided_fuzzer.Memory.{Ptr, null, Memory, free_input}
use coverage_guided_fuzzer.InputQueue.{InputQueue}
use coverage_guided_fuzzer.InputQueue.Spec.{Rings}
use coverage_guided_fuzzer.InputQueue.Duplicates.{Holds}
use coverage_guided_fuzzer.InputQueue.Sound.{
  queued, IsShort, IsSound, IsFree, IsKept, freed-IsKept, left-IsKept, enqueue_high-IsKept,
  enqueue_low-IsKept, is_freed,
}
use coverage_guided_fuzzer.Fuzzer.Owned.{busy, IsTesting, IsOwned, IsTesting-frame}
use coverage_guided_fuzzer.RunnerPool.Lanes.{AreHeld}
use coverage_guided_fuzzer.RunnerPool.{
  Inputs, Runners, runners_has_done_jobs, runners_process_result,
}
use coverage_guided_fuzzer.RunnerPool.Lanes.{Lanes, lanes, times, times-head, head_is_runner}
use coverage_guided_fuzzer.RunnerPool.Remove.{snoc_append}
use coverage_guided_fuzzer.RunnerPool.Lanes.Submit.{Gives, process_result_refines}
use coverage_guided_fuzzer.Fuzzer.{
  State, Allocator, Report, holds, handle_valid, handle_result, process_results,
  runner_get_active_input,
}

-- malloc answers each request for a node with NULL or an address that holds none.
abbrev pub IsMalloc : Allocator → Type 0
IsMalloc alloc = (m : Memory) → IsFree m (alloc.node_at m)

Priority-cases : (p : Priority) → (p ≡ no_prio) ⊎ ((p ≡ low_prio) ⊎ (p ≡ high_prio))
Priority-cases no_prio = inl refl
Priority-cases low_prio = inr (inl refl)
Priority-cases high_prio = inr (inr refl)

abbrev is_valid : ℤ → Bool
is_valid (pos n) = n == 0
is_valid (negsuc n) = false

-- The coverage map after one result: the coverage of a run that ended normally is added.
abbrev pub learn : Report → Option CoverageMap → Option CoverageMap
learn r c = if is_valid r.state then (coverage_map_add r.granted c (some r.coverage)).1 else c

-- The coverage map after the results of these runners, in order.
abbrev pub learned : (Ptr → Report) → List Ptr → Option CoverageMap → Option CoverageMap
learned report [] c = c
learned report (x ∷ xs) c = learned report xs (learn (report x) c)

-- What a result does to the rest of the state.
abbrev IsHandled : State → Rings → Ptr → Option CoverageMap → State → Type 0
IsHandled f s i c f' =
    IsKept f.memory s i (f'.queue, f'.memory)
    × (f'.runners ≡ f.runners)
    × (f'.active_inputs ≡ f.active_inputs)
    × (f'.jobs_received ≡ f.jobs_received)
    × (f'.jobs_sent ≡ f.jobs_sent)
    × (f'.coverage_map ≡ c)

module _ (alloc : Allocator) (malloc : IsMalloc alloc) (f : State) (q : InputQueue) (s : Rings)
    (i : Ptr) (x : Input) (v : IsSound f.memory q s) (held : Holds f.memory i x) (short : IsShort x)
    (out : queued i s ≡ 0) where
  abbrev here : State
  here = record f { queue = some q }

  handle_valid-IsHandled :
      (r : Report)
      → Returns
          (IsHandled here s i (coverage_map_add r.granted f.coverage_map (some r.coverage)).1)
          (handle_valid alloc r i here)
  unfolding handle_valid
  handle_valid-IsHandled r =
      elim (Priority-cases (coverage_map_add r.granted f.coverage_map (some r.coverage)).0) [
        | inl e ↦
            rw (e, handle_valid, is_freed f.memory q s i x v held short)
              (returns
                (freed-IsKept f.memory q s i x v held short out, refl, refl, refl, refl, refl))
        | inr (inl e) ↦
            rw (e, handle_valid)
              (Returns-bind
                (enqueue_low-IsKept f.memory q s i x v held short (alloc.node_at f.memory)
                  (malloc f.memory) out)
                λ (oq, m') k. returns (k, refl, refl, refl, refl, refl))
        | inr (inr e) ↦
            rw (e, handle_valid)
              (Returns-bind
                (enqueue_high-IsKept f.memory q s i x v held short (alloc.node_at f.memory)
                  (malloc f.memory) out)
                λ (oq, m') k. returns (k, refl, refl, refl, refl, refl))
      ]

  freed-IsHandled :
      Returns
        (IsHandled here s i f.coverage_map)
        (free_input i here.memory >>= λ (_, m). some (record here { memory = m }))
  freed-IsHandled =
      rw (is_freed f.memory q s i x v held short)
        (returns (freed-IsKept f.memory q s i x v held short out, refl, refl, refl, refl, refl))

  left-IsHandled : IsHandled here s i f.coverage_map here
  left-IsHandled = (left-IsKept f.memory q s i x v held short, refl, refl, refl, refl, refl)

  handle_result-IsHandled :
      (r : Report)
      → Returns (IsHandled here s i (learn r f.coverage_map)) (handle_result alloc r i here)
  unfolding handle_result
  handle_result-IsHandled r = by_state r.state
    where
      by_state :
          (state : ℤ)
          → let r' = record r { state = state } in
            Returns (IsHandled here s i (learn r' f.coverage_map)) (handle_result alloc r' i here)
      by_state (negsuc n) = returns left-IsHandled
      by_state (pos n) = elim (Bool-cases (n == 0)) [
        | inl e ↦ rw e (handle_valid-IsHandled (record r { state = pos n }))
        | inr e ↦ rw e (
            Returns-if (n == 1) freed-IsHandled
              (Returns-if (n == 2) freed-IsHandled (returns left-IsHandled)))
      ]

-- The jobs are received, and the runners are ready.
abbrev pub Received : Lanes → ℕ → ℕ → Option CoverageMap → State → Type 0
Received l received sent c f =
    ((q : InputQueue) × (s : Rings) × (rs : Runners) × IsOwned f q s rs l)
    × (f.jobs_received ≡ received)
    × (f.jobs_sent ≡ sent)
    × (f.coverage_map ≡ c)

module _ (alloc : Allocator) (malloc : IsMalloc alloc) (report : Ptr → Report) where
  handled :
      (f : State) (q : InputQueue) (s : Rings) (i : Ptr) (x : Input)
      → IsSound f.memory q s
      → Holds f.memory i x
      → IsShort x
      → queued i s ≡ 0
      → f.queue ≡ some q
      → (r : Report)
      → Returns (IsHandled f s i (learn r f.coverage_map)) (handle_result alloc r i f)
  handled f q s i x v held short out e r =
      subst (λ g. Returns (IsHandled g s i (learn r g.coverage_map)) (handle_result alloc r i g))
        (ap (λ o. record f { queue = o }) (sym e))
        (handle_result-IsHandled alloc malloc f q s i x v held short out r)

  tests :
      (r i : Ptr) (h : Inputs)
      → (r == null) ≡ false
      → h r ≡ some i
      → runner_get_active_input r h ≡ i
  unfolding runner_get_active_input
  tests r i h there at = rw (there, at) refl

  drain :
      (fuel : ℕ) (f : State) (q : InputQueue) (s : Rings) (rs : Runners) (p r a d : List Ptr)
      → IsOwned f q s rs (lanes p r a d)
      → length d < fuel
      → Returns
          (Received
            (lanes p (r ++ d) a [])
            (f.jobs_received + length d)
            f.jobs_sent
            (learned report d f.coverage_map))
          (process_results alloc report fuel f)
  unfolding process_results runners_has_done_jobs
  drain zero f q s rs p r a d v k = absurd (omega arith)
  drain (suc fuel) f q s rs p r a [] v k =
      let none_done : holds (runners_has_done_jobs f.runners) ≡ false =
        rw v.runners_is (ground (arith, v.pool.done.count)) in
      rw (none_done, append-nil r) (returns ((q, s, rs, v), omega arith, refl, refl))
  drain (suc fuel) f q s rs p r a (x ∷ d) v k =
      let (i, y, at, held, short, out) = v.testing.tested x here_busy in
      let some_done : holds (runners_has_done_jobs f.runners) ≡ true =
        rw v.runners_is (ground (arith, v.pool.done.count)) in
      let first_done : Returns (Gives (lanes p (r ++ x ∷ []) a d) x)
          (runners_process_result f.runners) =
        rw v.runners_is (process_result_refines rs (lanes p r a (x ∷ d)) v.pool) in
      let there : (x == null) ≡ false =
        head_is_runner x d (times null r + times null a)
          (omega (arith, v.pool.once null, v.pool.no_null)) in
      rw some_done (
        Returns-bind first_done λ (runner, ors) (is_x, (rs', is_some, w)).
          rw (is_x, tests x i f.active_inputs there at)
            (Returns-bind
              (handled (record f { runners = ors }) q s i y v.sound held short out v.queue_is
                (report x))
              λ f'
                  ((q', s', queue_is, sound, same), e_runners, e_inputs, e_received, e_sent, e_map).
                Returns-mono
                  (drain fuel (record f' { jobs_received = f'.jobs_received + 1 }) q' s' rs' p
                    (r ++ x ∷ []) a d
                    (record {
                      queue_is = queue_is;
                      runners_is = e_runners ∙ is_some;
                      sound = sound;
                      pool = w;
                      testing =
                          subst (λ h. IsTesting f'.memory h s' l') (sym e_inputs)
                            (IsTesting-frame f.memory f'.memory f.active_inputs s s'
                              (lanes p r a (x ∷ d)) l' i same
                              (λ y k. (omega (arith, k), others y k at)) v.testing);
                      held = subst (λ h. AreHeld h p) (sym e_inputs) v.held;
                    })
                    (omega (arith, k)))
                  λ g (loaded, n, m, c). (
                    rw (snoc_append r x d) at loaded,
                    n ∙ omega (arith, e_received),
                    m ∙ e_sent,
                    c ∙ ap (learned report d) e_map,
                  )))
    where
      l' : Lanes
      l' = lanes p (r ++ x ∷ []) a d

      here_busy : 0 < busy x (lanes p r a (x ∷ d))
      here_busy = omega (arith, times-head x d)

      others :
          {i : Ptr} (y : Ptr)
          → 0 < busy y l'
          → f.active_inputs x ≡ some i
          → f.active_inputs y ≢ some i
      others y k at e = v.testing.apart y x (omega (arith, k)) here_busy differs (e ∙ sym at)
        where
          differs : y ≢ x
          differs same = absurd (
              omega (
                arith,
                k,
                v.pool.once x,
                v.pool.distinct x,
                times-head x d,
                ap (λ (o : Ptr). busy o l') same,
              ))

-- In a state with a sound queue and a well-formed pool, whose active and done runners test distinct
-- inputs in memory that are not queued, and with a malloc that answers NULL or a node that is not in
-- use, the loop over the finished jobs ends without a fault, whatever the runners report: every runner
-- that was done is ready, behind those that were, as many jobs more are received, none is sent,
-- the coverage of the results that are VALID is added to the coverage map, in order, and the queue is
-- sound again and the pool well-formed.
pub process_results-Received :
    (alloc : Allocator) (report : Ptr → Report) (f : State) (q : InputQueue) (s : Rings)
    (rs : Runners) (l : Lanes)
    → IsMalloc alloc
    → IsOwned f q s rs l
    → Returns
        (Received
          (record l { ready = l.ready ++ l.done; done = [] })
          (f.jobs_received + length l.done)
          f.jobs_sent
          (learned report l.done f.coverage_map))
        (process_results alloc report (rs.done.count + 1) f)
process_results-Received alloc report f q s rs l malloc v =
    drain alloc malloc report (rs.done.count + 1) f q s rs l.pool l.ready l.active l.done v
      (omega (arith, v.pool.done.count))
