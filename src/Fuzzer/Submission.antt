-- ===== src/Fuzzer/Submission.antt =====
-- An input that is submitted to a runner, and freed if it was not sent.
use coverage_guided_fuzzer.Prelude.{
  ap, ◌+◌, ◌<◌, ◌≤◌, ◌≡◌, ◌≢◌, refl, sym, ◌∙◌, ◌⊎◌, inl, inr, Bool, true, false, some, Option, List,
  [], ◌∷◌, ◌++◌, ◌==◌, ==_iff, if◌then◌else◌, length, length-append, arith, Bool-cases, Returns,
  returns, Returns-bind, ◌>>=◌,
}
use mathlib.Core.Path.{subst}
use coverage_guided_fuzzer.Memory.{Ptr, null, Memory, write, free_input}
use coverage_guided_fuzzer.InputQueue.{InputQueue}
use coverage_guided_fuzzer.InputQueue.Spec.{Rings}
use coverage_guided_fuzzer.InputQueue.Sound.{queued, IsSound, freed-IsKept, is_freed}
use coverage_guided_fuzzer.RunnerPool.{Inputs, Runners, runners_submit_input}
use coverage_guided_fuzzer.RunnerPool.Lanes.{
  Lanes, lanes, times, times-head, times-append, IsRunners,
}
use coverage_guided_fuzzer.RunnerPool.Lanes.Submit.{
  spec_submit, Submitted, received, submit_refines,
}
use coverage_guided_fuzzer.Fuzzer.{State, holds}
use coverage_guided_fuzzer.Fuzzer.Owned.{busy, IsTesting, IsOwned, IsTesting-frame}
use coverage_guided_fuzzer.RunnerPool.Lanes.{AreHeld}
use coverage_guided_fuzzer.Fuzzer.Prepare.{InMemory}
use coverage_guided_fuzzer.Fuzzer.Moved.{IsTesting-moved}

-- A round of the loop keeps the state owned; one more runner is busy exactly if one more job is sent.
-- If it goes on, one runner less is ready.
abbrev pub Sent : State → Lanes → Bool × State → Type 0
Sent f l (more, f') =
    ((q : InputQueue) × (s : Rings) × (rs : Runners) × (l' : Lanes) × IsOwned f' q s rs l'
      × (length l'.active + length l'.done + f.jobs_sent
          ≡ length l.active + length l.done + f'.jobs_sent)
      × (more ≡ true → length l'.ready < length l.ready))
    × (f'.jobs_received ≡ f.jobs_received)
    × (f'.jobs_sent ≤ f.jobs_sent + 1)
    × (f'.coverage_map ≡ f.coverage_map)

received-not_null : (b : Bool) (p : Ptr) → received b p ≡ true → p ≢ null
received-not_null true p e n = absurd (ground (arith, e, n))
received-not_null false p e n = let no : false ≡ true = e in absurd cc

-- The new input that a runner gets.
module _ (m : Memory) (h : Inputs) (s : Rings) (l l' : Lanes) (r p : Ptr) (t : IsTesting m h s l)
    (new : InMemory m p) (out : queued p s ≡ 0) (fresh : (y : Ptr) → 0 < busy y l → h y ≢ some p)
    (grown : (y : Ptr) → busy y l' ≡ (if r == y then 1 else 0) + busy y l) where
  abbrev given : Inputs
  given = write h r (some p)

  here : (y : Ptr) → (y == r) ≡ true → given y ≡ some p
  unfolding write
  here y e = rw e refl

  there : (y : Ptr) → (y == r) ≡ false → given y ≡ h y
  unfolding write
  there y e = rw e refl

  still : (y : Ptr) → (y == r) ≡ false → 0 < busy y l' → 0 < busy y l
  still y e k = ground (arith, e, k, grown y)

  given-IsTesting : IsTesting m given s l'
  given-IsTesting = record {
    tested = λ y k. elim (Bool-cases (y == r)) [
      | inl e ↦ let (x, held, short) = new in (p, x, here y e, held, short, out)
      | inr e ↦
          let (j, x, at, held, short, apart) = t.tested y (still y e k) in
          (j, x, there y e ∙ at, held, short, apart)
    ];
    apart = λ y z k k' ne e. elim (Bool-cases (y == r)) [
      | inl a ↦ elim (Bool-cases (z == r)) [
        | inl b ↦ ne ((==_iff y r).0 a ∙ sym ((==_iff z r).0 b))
        | inr b ↦ fresh z (still z b k') (sym (there z b) ∙ sym e ∙ here y a)
      ]
      | inr a ↦ elim (Bool-cases (z == r)) [
        | inl b ↦ fresh y (still y a k) (sym (there y a) ∙ e ∙ here z b)
        | inr b ↦ t.apart y z (still y a k) (still z b k') ne (sym (there y a) ∙ e ∙ there z b)
      ]
    ];
  }

given-AreHeld :
    (h : Inputs) (pool : List Ptr) (r p : Ptr)
    → AreHeld h pool
    → 0 < times r pool
    → AreHeld (write h r (some p)) pool
unfolding write
given-AreHeld h pool r p v k = record {
  alive = λ y j. elim (Bool-cases (y == r)) [ inl e ↦ (p, rw e refl) | inr e ↦ rw e (v.alive y j) ];
  gone = λ y j. elim (Bool-cases (y == r)) [
    | inl e ↦ absurd (omega (arith, j, k, ap (λ (o : Ptr). times o pool) ((==_iff y r).0 e)))
    | inr e ↦ rw e (v.gone y j)
  ];
}

-- An input in memory that is neither queued nor tested.
abbrev pub IsSpare : State → Rings → Lanes → Ptr → Type 0
IsSpare f s l p =
    InMemory f.memory p × (queued p s ≡ 0) × ((y : Ptr) → 0 < busy y l → f.active_inputs y ≢ some p)

-- An input that was not sent is freed.
module _ (f : State) (q : InputQueue) (s : Rings) (rs : Runners) (l : Lanes) (p : Ptr)
    (v : IsOwned f q s rs l) (new : (p ≡ null) ⊎ IsSpare f s l p) where
  abbrev Dropped : Unit {0} × Memory → Type 0
  Dropped (u, m) =
      (s' : Rings) × (q' : InputQueue) × (some q ≡ some q')
      × IsSound m q' s'
      × IsTesting m f.active_inputs s' l

  free_input-Dropped : Returns Dropped (free_input p f.memory)
  unfolding free_input
  free_input-Dropped = elim new [
    | inl n ↦ rw n (returns (s, q, refl, v.sound, v.testing))
    | inr ((x, held, short), out, fresh) ↦
        let (q', s', is_some, sound, same) = freed-IsKept f.memory q s p x v.sound held short out in
        rw (is_freed f.memory q s p x v.sound held short) (
          returns (
            s',
            q',
            is_some,
            sound,
            IsTesting-frame f.memory _ f.active_inputs s s' l l p same (λ y k. (k, fresh y k))
                v.testing,
          ))
  ]

module _ (sent : Ptr → Bool) where
  -- The end of a round: the new input is submitted, and freed if it was not sent.
  abbrev pub submit_prepared : State → Ptr → Option (Bool × State)
  submit_prepared f to_send = do
    (res, rs, h) ← runners_submit_input (sent to_send) f.runners to_send f.active_inputs
    let f2 : State = record f { runners = rs; active_inputs = h }
    let dropped = (do
      (_, m2) ← free_input to_send f.memory
      some (false, record f2 { memory = m2 }))
    if holds res then dropped else some (true, record f2 { jobs_sent = f2.jobs_sent + 1 })

  abbrev drop_input : State → Ptr → Option (Bool × State)
  drop_input f to_send = do
    (_, m2) ← free_input to_send f.memory
    some (false, record f { memory = m2 })

  drop_input-Sent :
      (f : State) (q : InputQueue) (s : Rings) (rs : Runners) (l l' : Lanes) (to_send : Ptr)
      → IsOwned f q s rs l'
      → (to_send ≡ null) ⊎ IsSpare f s l' to_send
      → length l'.active + length l'.done ≡ length l.active + length l.done
      → Returns (Sent f l) (drop_input f to_send)
  drop_input-Sent f q s rs l l' to_send v new same =
      Returns-bind (free_input-Dropped f q s rs l' to_send v new)
        λ (u, m2) (s', q', is_some, sound, testing). returns (
          (
            q',
            s',
            rs,
            l',
            record {
              queue_is = v.queue_is ∙ is_some;
              runners_is = v.runners_is;
              sound = sound;
              pool = v.pool;
              testing = testing;
              held = v.held;
            },
            omega (arith, same),
            λ e. let no : false ≡ true = e in absurd cc,
          ),
          refl,
          omega arith,
          refl,
        )

  submitted :
      (f : State) (q : InputQueue) (s : Rings) (rs : Runners) (l : Lanes) (to_send : Ptr)
      → IsOwned f q s rs l
      → Returns
          (Submitted (spec_submit (received (sent to_send) to_send) l to_send f.active_inputs))
          (runners_submit_input (sent to_send) f.runners to_send f.active_inputs)
  submitted f q s rs l to_send v =
      subst
        (λ o.
          Returns
            (Submitted (spec_submit (received (sent to_send) to_send) l to_send f.active_inputs))
            (runners_submit_input (sent to_send) o to_send f.active_inputs))
        (sym v.runners_is) (submit_refines (sent to_send) rs l to_send f.active_inputs v.pool)

  again :
      (f : State) (q : InputQueue) (s : Rings) (rs : Runners) {l : Lanes} (l' : Lanes)
      (rs' : Runners) (ors : Option Runners)
      → IsOwned f q s rs l
      → ors ≡ some rs'
      → IsRunners rs' l'
      → IsTesting f.memory f.active_inputs s l'
      → AreHeld f.active_inputs l'.pool
      → IsOwned (record f { runners = ors }) q s rs' l'
  again f q s rs l' rs' ors v is_some w t h = record {
    queue_is = v.queue_is;
    runners_is = is_some;
    sound = v.sound;
    pool = w;
    testing = t;
    held = h;
  }

  pub submit_prepared-Sent :
      (f : State) (q : InputQueue) (s : Rings) (rs : Runners) (p r a d : List Ptr) (to_send : Ptr)
      → IsOwned f q s rs (lanes p r a d)
      → (to_send ≡ null) ⊎ IsSpare f s (lanes p r a d) to_send
      → Returns (Sent f (lanes p r a d)) (submit_prepared f to_send)
  submit_prepared-Sent f q s rs p [] a d to_send v new =
      Returns-bind (submitted f q s rs (lanes p [] a d) to_send v)
        λ (res, ors, h') (res_is, (rs', is_some, w), h_is).
          rw (res_is, h_is)
            (drop_input-Sent (record f { runners = ors }) q s rs' (lanes p [] a d) (lanes p [] a d)
              to_send (again f q s rs (lanes p [] a d) rs' ors v is_some w v.testing v.held) new
              refl)
  submit_prepared-Sent f q s rs p (x ∷ r) a d to_send v new =
      Returns-bind (submitted f q s rs (lanes p (x ∷ r) a d) to_send v) λ (res, ors, h') out.
        elim (Bool-cases (received (sent to_send) to_send)) [
          | inl e ↦
              let (res_is, (rs', is_some, w), h_is) = rw e at out in
              let spare : IsSpare f s (lanes p (x ∷ r) a d) to_send = elim new [
                | inl n ↦ absurd (received-not_null (sent to_send) to_send e n)
                | inr k ↦ k
              ] in
              let (mem, unqueued, fresh) = spare in
              rw (res_is, h_is)
                (returns (
                  (
                    q,
                    s,
                    rs',
                    lanes p r (a ++ x ∷ []) d,
                    record {
                      queue_is = v.queue_is;
                      runners_is = is_some;
                      sound = v.sound;
                      pool = w;
                      testing =
                          given-IsTesting f.memory f.active_inputs s (lanes p (x ∷ r) a d)
                            (lanes p r (a ++ x ∷ []) d) x to_send v.testing mem unqueued fresh
                            (λ y. omega (arith, times-append y a (x ∷ [])));
                      held =
                          given-AreHeld f.active_inputs p x to_send v.held
                            (omega (arith, v.pool.once x, times-head x r));
                    },
                    omega (arith, length-append a (x ∷ [])),
                    λ more. omega arith,
                  ),
                  refl,
                  omega arith,
                  refl,
                ))
          | inr e ↦
              let (res_is, (rs', is_some, w), h_is) = rw e at out in
              rw (res_is, h_is)
                (drop_input-Sent (record f { runners = ors }) q s rs' (lanes p (x ∷ r) a d)
                  (lanes p r a d) to_send
                  (again f q s rs (lanes p r a d) rs' ors v is_some w
                    (IsTesting-moved f.memory f.memory f.active_inputs s s (lanes p (x ∷ r) a d)
                      (lanes p r a d) (λ j y k k'. (y, k, k', refl)) (λ j. refl) (λ y k. k)
                      v.testing)
                    v.held)
                  new refl)
        ]
