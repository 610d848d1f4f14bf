-- ===== src/Fuzzer/Signals.antt =====
-- The reactions of run_fuzzer to SIGUSR1 and SIGCHLD.
use coverage_guided_fuzzer.Prelude.{
  ℕ, ◌+◌, ◌<◌, ◌≡◌, ◌≤◌, refl, sym, ◌∙◌, inl, inr, true, Bool, Option, some, List, [], ◌∷◌, ltb,
  ◌==◌, length, length-append, arith, Bool-cases, Returns, returns, Returns-mono, Returns-if,
  Returns-bind,
}
use mathlib.Core.Path.{subst}
use coverage_guided_fuzzer.Prelude.Int.{ℤ, pos, negsuc}
use coverage_guided_fuzzer.Memory.{Ptr}
use coverage_guided_fuzzer.RunnerPool.{Runners, Inputs, runners_check_if_jobs_done, runners_reap}
use coverage_guided_fuzzer.RunnerPool.Lanes.{Lanes, IsRunners, times, times-append}
use coverage_guided_fuzzer.RunnerPool.Lanes.Sweep.{
  chosen, others, spec_check, Checked, AreLow, active-set_fds, check_refines,
}
use coverage_guided_fuzzer.RunnerPool.Lanes.Reap.{dead, IsReaped, Reaped, reap_refines}
use coverage_guided_fuzzer.InputQueue.{InputQueue}
use coverage_guided_fuzzer.InputQueue.Spec.{Rings}
use coverage_guided_fuzzer.Fuzzer.{State, Answers, on_sigusr1, on_sigchld}
use coverage_guided_fuzzer.Fuzzer.Owned.{busy, IsTesting, IsOwned}
use coverage_guided_fuzzer.RunnerPool.Lanes.{AreHeld}

times-others :
    (r : Ptr) (isset : Ptr → Bool) (xs : List Ptr)
    → times r (others isset xs) + times r (chosen isset xs) ≡ times r xs
times-others r isset [] = refl
times-others r isset (x ∷ xs) = elim (Bool-cases (isset x)) [
  | inl e ↦ rw e (omega (arith, times-others r isset xs))
  | inr e ↦ rw e (omega (arith, times-others r isset xs))
]

length-others :
    (isset : Ptr → Bool) (xs : List Ptr)
    → length (others isset xs) + length (chosen isset xs) ≡ length xs
length-others isset [] = refl
length-others isset (x ∷ xs) = elim (Bool-cases (isset x)) [
  | inl e ↦ rw e (omega (arith, length-others isset xs))
  | inr e ↦ rw e (omega (arith, length-others isset xs))
]

check-busy : (isset : Ptr → Bool) (l : Lanes) (r : Ptr) → busy r (spec_check isset l) ≡ busy r l
check-busy isset l r =
    omega (arith, times-others r isset l.active, times-append r l.done (chosen isset l.active))

-- The same runners are busy.
abbrev SameBusy : Lanes → Option Runners → Type 0
SameBusy l ors =
    (l' : Lanes) × Checked l' ors
    × ((r : Ptr) → busy r l' ≡ busy r l)
    × (length l'.active + length l'.done ≡ length l.active + length l.done)
    × (l'.pool ≡ l.pool)

check-SameBusy :
    (fd : Ptr → ℕ) (z : ℤ) (isset : Ptr → Bool) (rs : Runners) (l : Lanes)
    → AreLow fd l.active
    → IsRunners rs l
    → Returns (SameBusy l) (runners_check_if_jobs_done fd z isset (some rs))
unfolding runners_check_if_jobs_done
check-SameBusy fd (negsuc n) isset rs l low v = elim (Bool-cases (rs.active.count == 0)) [
  | inl e ↦ rw e (returns (l, (rs, refl, v), λ r. refl, refl, refl))
  | inr e ↦ rw (e, active-set_fds fd rs l v low) (returns (l, (rs, refl, v), λ r. refl, refl, refl))
]
check-SameBusy fd (pos n) isset rs l low v = elim (Bool-cases (ltb 0 n)) [
  | inl e ↦ Returns-mono (check_refines fd n isset rs l (ground (arith, e)) low v) λ ors w. (
    spec_check isset l,
    w,
    check-busy isset l,
    omega (arith, length-others isset l.active, length-append l.done (chosen isset l.active)),
    refl,
  )
  | inr e ↦ elim (Bool-cases (rs.active.count == 0)) [
    | inl c ↦ rw c (returns (l, (rs, refl, v), λ r. refl, refl, refl))
    | inr c ↦
        rw (c, active-set_fds fd rs l v low, e) (returns (l, (rs, refl, v), λ r. refl, refl, refl))
  ]
]

-- The state is owned, with at most so many runners busy, and the rest is as it was.
abbrev pub Reacted : State → ℕ → State → Type 0
Reacted f busy_count f' =
    ((q : InputQueue) × (s : Rings) × (rs : Runners) × (l : Lanes) × IsOwned f' q s rs l
      × (length l.active + length l.done ≤ busy_count))
    × (f'.jobs_received ≡ f.jobs_received)
    × (f'.jobs_sent ≡ f.jobs_sent)

module _ (f : State) (q : InputQueue) (s : Rings) (rs : Runners) (l : Lanes)
    (v : IsOwned f q s rs l) where
  abbrev few : ℕ
  few = length l.active + length l.done

  unchanged :
      (h : Inputs) (l' : Lanes)
      → ((r : Ptr) → 0 < busy r l' → (0 < busy r l) × (h r ≡ f.active_inputs r))
      → IsTesting f.memory h s l'
  unchanged h l' still = record {
    tested = λ r k.
        let (i, x, at, held, short, out) = v.testing.tested r (still r k).0 in
        (i, x, (still r k).1 ∙ at, held, short, out);
    apart = λ r r' k k' ne e.
        v.testing.apart r r' (still r k).0 (still r' k').0 ne
          (sym (still r k).1 ∙ e ∙ (still r' k').1);
  }

  pub on_sigusr1-Reacted :
      (a : Answers) → AreLow a.descriptor l.active → Returns (Reacted f few) (on_sigusr1 a f)
  unfolding on_sigusr1
  on_sigusr1-Reacted a low =
      Returns-if f.sigusr1_seen
        (Returns-bind
          (subst
            (λ o.
              Returns (SameBusy l) (runners_check_if_jobs_done a.descriptor a.selected a.isset o))
            (sym v.runners_is) (check-SameBusy a.descriptor a.selected a.isset rs l low v.pool))
          λ ors (l', (rs', is_some, w), same, sizes, same_pool). returns (
            (
              q,
              s,
              rs',
              l',
              record {
                queue_is = v.queue_is;
                runners_is = is_some;
                sound = v.sound;
                pool = w;
                testing = unchanged f.active_inputs l' (λ r k. (omega (arith, same r, k), refl));
                held = subst (λ p. AreHeld f.active_inputs p) (sym same_pool) v.held;
              },
              omega (arith, sizes),
            ),
            refl,
            refl,
          ))
        (returns ((q, s, rs, l, v, omega arith), refl, refl))

  -- What SIGUSR1 leaves when select finds results: these lanes, and nothing else that is new.
  abbrev pub Found : (Ptr → Bool) → State → Type 0
  Found isset f' =
      ((rs' : Runners) × IsOwned f' q s rs' (spec_check isset l))
      × (f'.jobs_received ≡ f.jobs_received)
      × (f'.shutdown_req ≡ f.shutdown_req)
      × (f'.coverage_map ≡ f.coverage_map)

  pub on_sigusr1-Found :
      (a : Answers) (n : ℕ)
      → AreLow a.descriptor l.active
      → f.sigusr1_seen ≡ true
      → a.selected ≡ pos n
      → 0 < n
      → Returns (Found a.isset) (on_sigusr1 a f)
  unfolding on_sigusr1
  on_sigusr1-Found a n low seen is_n positive =
      rw (seen, is_n, v.runners_is)
        (Returns-bind (check_refines a.descriptor n a.isset rs l positive low v.pool)
          λ ors (rs', is_some, w). returns (
            (
              rs',
              record {
                queue_is = v.queue_is;
                runners_is = is_some;
                sound = v.sound;
                pool = w;
                testing =
                    unchanged f.active_inputs (spec_check a.isset l)
                      (λ r k. (omega (arith, check-busy a.isset l r, k), refl));
                held = v.held;
              },
            ),
            refl,
            refl,
            refl,
          ))

  pub on_sigchld-Reacted : (a : Answers) → Returns (Reacted f few) (on_sigchld a f)
  unfolding on_sigchld
  on_sigchld-Reacted a =
      Returns-if f.sigchld_seen
        (Returns-bind reaped λ (ret, ors, h') (res, (rs', l', is_some, w, g)). returns (
          (
            q,
            s,
            rs',
            l',
            record {
              queue_is = v.queue_is;
              runners_is = is_some;
              sound = v.sound;
              pool = w;
              testing = unchanged h' l' (λ r k. elim (Bool-cases (dead a.wait r)) [
                | inl e ↦ absurd (omega (arith, w.once r, g.gone r e, k))
                | inr e ↦ (omega (arith, g.active r e, g.done r e, k), g.inputs r e)
              ]);
              held = reaped_held h' l' g;
            },
            g.fewer,
          ),
          refl,
          refl,
        ))
        (returns ((q, s, rs, l, v, omega arith), refl, refl))
    where
      reaped_held :
          (h' : Inputs) (l' : Lanes) → IsReaped a.wait l f.active_inputs l' h' → AreHeld h' l'.pool
      reaped_held h' l' g = record {
        alive = λ r k. elim (Bool-cases (dead a.wait r)) [
          | inl e ↦ absurd (omega (arith, g.gone r e, k))
          | inr e ↦
              let (i, at) = v.held.alive r (omega (arith, g.pool r e, k)) in (i, g.inputs r e ∙ at)
        ];
        gone = λ r k. elim (Bool-cases (dead a.wait r)) [
          | inl e ↦ g.freed r e (v.held.gone r)
          | inr e ↦ g.inputs r e ∙ v.held.gone r (omega (arith, g.pool r e, k))
        ];
      }

      reaped :
          Returns (Reaped a.wait l f.active_inputs) (runners_reap a.wait f.runners f.active_inputs)
      reaped =
          subst
            (λ o. Returns (Reaped a.wait l f.active_inputs) (runners_reap a.wait o f.active_inputs))
            (sym v.runners_is) (reap_refines a.wait rs l f.active_inputs v.pool)
