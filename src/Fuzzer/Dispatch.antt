-- ===== src/Fuzzer/Dispatch.antt =====
-- The loop of run_fuzzer that sends inputs to the runners that are ready.
use coverage_guided_fuzzer.Prelude.{
  ℕ, zero, suc, ◌+◌, ◌<◌, ◌≤◌, ◌≡◌, refl, sym, ap, ◌∙◌, ◌⊎◌, inl, inr, Bool, true, false, ◌&&◌,
  Option, ◌==◌, ltb, length, arith, Bool-cases, Returns, returns, Returns-bind, Returns-mono, ◌>>=◌,
}
use mathlib.Core.Path.{subst}
use coverage_guided_fuzzer.Input.{Input}
use coverage_guided_fuzzer.Memory.{Ptr, null, Memory}
use coverage_guided_fuzzer.InputQueue.{InputQueue}
use coverage_guided_fuzzer.InputQueue.Spec.{Rings, spec_dequeue}
use coverage_guided_fuzzer.InputQueue.Sound.{Holds-frame}
use coverage_guided_fuzzer.RunnerPool.{Runners, runners_has_ready_jobs}
use coverage_guided_fuzzer.RunnerPool.Lanes.{Lanes}
use coverage_guided_fuzzer.RunnerPool.Lanes.Submit.{received}
use coverage_guided_fuzzer.Fuzzer.{State, Allocator, holds, prepare, dispatch_one, dispatch}
use coverage_guided_fuzzer.Fuzzer.Owned.{IsOwned, dequeued}
use coverage_guided_fuzzer.Fuzzer.Prepare.{InMemory, NoneLost, IsNew, prepare-Prepared}
use coverage_guided_fuzzer.Fuzzer.Moved.{
  still-InMemory, Live-moved, like-moved, IsTesting-moved, IsSound-moved, queued-none, untested,
  serve-Served,
}
use coverage_guided_fuzzer.Fuzzer.Submission.{Sent, submit_prepared, submit_prepared-Sent}

module _ (alloc : Allocator) (sent : Ptr → Bool) where
  chosen-Sent :
      (f : State) (q : InputQueue) (s : Rings) (rs : Runners) (l : Lanes) (inp : Ptr)
      → ((m : Memory) → IsNew m (alloc.input_at m))
      → IsOwned f q s rs l
      → InMemory f.memory inp
      → Returns (Sent f l) (
          prepare alloc inp f.memory >>= λ (to_send, m1).
          submit_prepared sent (record f { memory = m1 }) to_send)
  chosen-Sent f q s rs l inp malloc v (x, held, short) =
      Returns-bind (prepare-Prepared f.memory inp x held short alloc (malloc f.memory))
        λ (to_send, m1) (keep, nodes, new).
          submit_prepared-Sent sent (record f { memory = m1 }) q s rs l.pool l.ready l.active l.done
            to_send
            (record {
              queue_is = v.queue_is;
              runners_is = v.runners_is;
              sound = IsSound-moved f.memory m1 q s keep nodes v.sound;
              pool = v.pool;
              testing =
                  IsTesting-moved f.memory m1 f.active_inputs s s l l keep (λ j. refl) (λ r k. k)
                    v.testing;
              held = v.held;
            })
            (elim new [
              | inl n ↦ inl n
              | inr (mem, free) ↦ inr (
                mem,
                queued-none f.memory q s to_send v.sound free,
                λ y k. untested f.memory f.active_inputs s l to_send y v.testing free k,
              )
            ])

  dispatch_one-Sent :
      (f : State) (q : InputQueue) (s : Rings) (rs : Runners) (l : Lanes)
      → ((m : Memory) → IsNew m (alloc.input_at m))
      → IsOwned f q s rs l
      → Returns (Sent f l) (dispatch_one alloc sent f)
  unfolding dispatch_one spec_dequeue
  dispatch_one-Sent f q s rs l malloc v =
      Returns-bind (dequeued f q s rs l v) λ ((j, oq), m) (is_i, (q', is_some, w), same).
        let (served, high, low, kept, texts) =
          serve-Served f.memory (ltb s.turn 9) s.high s.low v.sound.high v.sound.low in
        let keep : NoneLost f.memory m = λ k x held short. (
          x,
          Holds-frame f.memory m k x (ap (λ (h : Ptr → Option Input). h k) same) held,
          short,
          refl,
        ) in
        let owned : IsOwned (record f { queue = oq; memory = m }) q' (spec_dequeue s).1 rs l =
          record {
            queue_is = is_some;
            runners_is = v.runners_is;
            sound = record {
              rings = w;
              high = Live-moved f.memory m _ keep high;
              low = Live-moved f.memory m _ keep low;
              distinct = λ t. omega (
                arith,
                v.sound.distinct t,
                texts t,
                like-moved f.memory m t (spec_dequeue s).1.high keep high,
                like-moved f.memory m t (spec_dequeue s).1.low keep low,
              );
            };
            pool = v.pool;
            testing =
                IsTesting-moved f.memory m f.active_inputs s _ l l keep kept (λ r k. k) v.testing;
            held = v.held;
          } in
        elim (Bool-cases (j == null)) [
          | inl e ↦ rw e (
              returns
                ((q', _, rs, l, owned, omega arith, λ no. absurd cc), refl, omega arith, refl))
          | inr e ↦ rw e (
              chosen-Sent (record f { queue = oq; memory = m }) q' _ rs l j malloc owned
                (live j served is_i keep e))
        ]
    where
      live :
          {m : Memory} {i : Ptr} (j : Ptr)
          → (i ≡ null) ⊎ InMemory f.memory i
          → j ≡ i
          → NoneLost f.memory m
          → (j == null) ≡ false
          → InMemory m j
      live j (inl n) same keep e = let is_null = same ∙ n in absurd (ground (arith, e, is_null))
      live {m} j (inr k) same keep e =
          still-InMemory f.memory m j keep (subst (InMemory f.memory) (sym same) k)

  -- The rounds of the loop, on enough fuel.
  abbrev pub All : ℕ → State → Lanes → State → Type 0
  All target_total f l f' =
      ((q : InputQueue) × (s : Rings) × (rs : Runners) × (l' : Lanes) × IsOwned f' q s rs l'
        × (length l'.active + length l'.done + f.jobs_sent
            ≡ length l.active + length l.done + f'.jobs_sent))
      × (f'.jobs_received ≡ f.jobs_received)
      × (f.jobs_sent ≤ target_total → f'.jobs_sent ≤ target_total)
      × (f'.coverage_map ≡ f.coverage_map)

  pub dispatch-All :
      (target_total fuel : ℕ) (f : State) (q : InputQueue) (s : Rings) (rs : Runners) (l : Lanes)
      → ((m : Memory) → IsNew m (alloc.input_at m))
      → IsOwned f q s rs l
      → length l.ready < fuel
      → Returns (All target_total f l) (dispatch alloc sent target_total fuel f)
  unfolding dispatch
  dispatch-All target_total zero f q s rs l malloc v k = absurd (omega arith)
  dispatch-All target_total (suc fuel) f q s rs l malloc v k =
      elim (Bool-cases (holds (runners_has_ready_jobs f.runners) && ltb f.jobs_sent target_total)) [
        | inr e ↦ rw e (returns ((q, s, rs, l, v, refl), refl, λ le. le, refl))
        | inl e ↦ rw e (
            Returns-bind (dispatch_one-Sent f q s rs l malloc v)
              λ (more, f') ((q', s', rs', l', w, sizes, fewer), received, sent_by, map).
                elim (Bool-cases more) [
                  | inr last ↦ rw last (
                      returns (
                        (q', s', rs', l', w, sizes),
                        received,
                        λ le. omega (arith, below f e, sent_by),
                        map,
                      ))
                  | inl goes ↦ rw goes (
                      Returns-mono
                        (dispatch-All target_total fuel f' q' s' rs' l' malloc w
                          (omega (arith, fewer goes, k)))
                        λ g ((q2, s2, rs2, l2, w2, sizes2), received2, bound, map2). (
                          (q2, s2, rs2, l2, w2, omega (arith, sizes, sizes2)),
                          received2 ∙ received,
                          λ le. bound (omega (arith, below f e, sent_by)),
                          map2 ∙ map,
                        ))
                ])
      ]
    where
      right : (a b : Bool) → (a && b) ≡ true → b ≡ true
      right true b e = e
      right false b e = let no : false ≡ true = e in absurd cc

      below :
          (f : State)
          → (holds (runners_has_ready_jobs f.runners) && ltb f.jobs_sent target_total) ≡ true
          → f.jobs_sent < target_total
      below f e =
          let less =
            right (holds (runners_has_ready_jobs f.runners)) (ltb f.jobs_sent target_total) e in
          ground (arith, less)
