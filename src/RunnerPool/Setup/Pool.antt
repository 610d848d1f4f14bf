-- ===== src/RunnerPool/Setup/Pool.antt =====
-- What `runners_init` sets up, and what `runners_fini` leaves.
use coverage_guided_fuzzer.RunnerPool.{set_elem}
use coverage_guided_fuzzer.RunnerPool.{put}
use coverage_guided_fuzzer.RunnerPool.Lanes.{head_is_runner}
use coverage_guided_fuzzer.Prelude.{zero_or_more, ◌⊎◌}
use coverage_guided_fuzzer.RunnerPool.Lanes.{times-head}
use mathlib.Core.List.{append-nil, append_assoc}
use mathlib.Core.Path.{subst}
use coverage_guided_fuzzer.Prelude.{
  ℕ, zero, suc, ◌+◌, ◌<◌, ◌≤◌, ◌≡◌, ◌≢◌, refl, sym, ap, ◌∙◌, inl, inr, Bool, true, false, none,
  some, List, [], ◌∷◌, ◌++◌, ◌==◌, ==_iff, get_elem?, length, length-append, length-replicate,
  replicate, if◌then◌else◌, arith, Bool-cases, Returns, returns, Returns-bind,
}
use coverage_guided_fuzzer.Memory.{Ptr, null, write}
use coverage_guided_fuzzer.RunnerPool.{Slots, Runners, Inputs}
use coverage_guided_fuzzer.RunnerPool.Setup.{
  Callocs, calloc_array, start_runners, runners_init, free_runner, free_runners, runners_fini,
}
use coverage_guided_fuzzer.RunnerPool.Remove.{
  IsSlots, put-snoc, get_elem?-append, snoc_append, length-snoc,
}
use coverage_guided_fuzzer.RunnerPool.Lanes.{Lanes, lanes, times, times-append, AreHeld, IsRunners}

-- The arrays are granted.
abbrev pub grants : Bool → Callocs
grants object = record { object = object; pool = true; ready = true; active = true; done = true }

-- `runner_init` returns NULL or a runner that it has not returned before.
abbrev pub AreNew : (ℕ → Ptr) → Type 0
AreNew made = (i j : ℕ) → j < i → made i ≢ null → made i ≢ made j

-- The runners so far: `i` rounds are done.
record IsStarted (made : ℕ → Ptr) (i : ℕ) (rs : Runners) (h : Inputs) (xs : List Ptr) : Type 0 where
  pub pool : IsRunners rs (lanes xs xs [] [])
  pub held : AreHeld h xs
  pub few : length xs ≤ i
  pub from : (r : Ptr) → 0 < times r xs → (j : ℕ) × (j < i) × (made j ≡ r)

-- The runners that `n` calls of runner_init from the i-th on return, in order; NULL is none.
abbrev pub made_runners : (ℕ → Ptr) → ℕ → ℕ → List Ptr
made_runners made zero i = []
made_runners made (suc n) i =
    let later = made_runners made n (suc i) in if made i == null then later else made i ∷ later

-- These runners are started, in a pool of the given size.
abbrev pub Started : ℕ → List Ptr → Runners × Inputs → Type 0
Started size xs (rs, h) = IsRunners rs (lanes xs xs [] []) × AreHeld h xs × (rs.total_jobs ≡ size)

times-single : (y x : Ptr) → times y (x ∷ []) ≤ 1
times-single y x = ground arith

added-AreHeld :
    (h : Inputs) (xs : List Ptr) (r : Ptr)
    → AreHeld h xs
    → AreHeld (write h r (some null)) (xs ++ r ∷ [])
unfolding write
added-AreHeld h xs r v = record {
  alive = λ y k. elim (Bool-cases (y == r)) [
    | inl e ↦ (null, rw e refl)
    | inr e ↦ rw e (v.alive y (ground (arith, k, e, times-append y xs (r ∷ []))))
  ];
  gone = λ y k. elim (Bool-cases (y == r)) [
    | inl e ↦ absurd (ground (arith, k, e, times-append y xs (r ∷ [])))
    | inr e ↦ rw e (v.gone y (omega (arith, k, times-append y xs (r ∷ []))))
  ];
}

module _ (made : ℕ → Ptr) (size : ℕ) (new : AreNew made) where
  start_runners-Started :
      (n i : ℕ) (rs : Runners) (h : Inputs) (xs : List Ptr)
      → IsStarted made i rs h xs
      → rs.total_jobs ≡ size
      → i + n ≡ size
      → Returns (Started size (xs ++ made_runners made n i)) (start_runners made n i rs h)
  unfolding start_runners
  start_runners-Started zero i rs h xs v e k = rw (append-nil xs) (returns (v.pool, v.held, e))
  start_runners-Started (suc n) i rs h xs v e k = elim (Bool-cases (made i == null)) [
    | inl is_null ↦ rw is_null (
        start_runners-Started n (suc i) rs h xs
          (record {
            pool = v.pool;
            held = v.held;
            few = omega (arith, v.few);
            from = λ r there. let (j, lt, is) = v.from r there in (j, omega (arith, lt), is);
          })
          e (omega (arith, k)))
    | inr given ↦
        rw (given, sym (append_assoc xs (made i ∷ []) (made_runners made n (suc i))))
          (Returns-bind (put-snoc rs.total_jobs rs.pool xs (made i) v.pool.pool room) λ pool wp.
            Returns-bind (put-snoc rs.total_jobs rs.ready xs (made i) v.pool.ready room) λ ready wr.
              start_runners-Started n (suc i) _ _ (xs ++ made i ∷ [])
                (record {
                  pool = record {
                    pool = wp;
                    ready = wr;
                    active = v.pool.active;
                    done = v.pool.done;
                    room = omega (arith, room, length-append xs (made i ∷ []));
                    once = λ y. omega arith;
                    distinct = single given;
                    no_null =
                        ground (arith, given, v.pool.no_null, times-append null xs (made i ∷ []));
                  };
                  held = added-AreHeld h xs (made i) v.held;
                  few = omega (arith, v.few, length-append xs (made i ∷ []));
                  from = made_by;
                })
                e (omega (arith, k)))
  ]
    where
      room : length xs < rs.total_jobs
      room = omega (arith, v.few, e, k)

      unseen : made i ≢ null → times (made i) xs ≡ 0
      unseen ne = elim (zero_or_more (times (made i) xs)) [
        | inl none_there ↦ none_there
        | inr there ↦ let (j, lt, is) = v.from (made i) there in absurd (new i j lt ne (sym is))
      ]

      single : (made i == null) ≡ false → (y : Ptr) → times y (xs ++ made i ∷ []) ≤ 1
      single given y = elim (Bool-cases (made i == y)) [
        | inr e' ↦ ground (arith, e', v.pool.distinct y, times-append y xs (made i ∷ []))
        | inl e' ↦
            let same : times y xs ≡ times (made i) xs =
              ap (λ (p : Ptr). times p xs) (sym ((==_iff (made i) y).0 e')) in
            omega (
              arith,
              same,
              unseen (ground (arith, given)),
              times-append y xs (made i ∷ []),
              times-single y (made i),
            )
      ]

      made_by : (r : Ptr) → 0 < times r (xs ++ made i ∷ []) → (j : ℕ) × (j < suc i) × (made j ≡ r)
      made_by r there = elim (Bool-cases (made i == r)) [
        | inl e' ↦ (i, omega arith, (==_iff (made i) r).0 e')
        | inr e' ↦
            let (j, lt, is) =
              v.from r (ground (arith, there, e', times-append r xs (made i ∷ []))) in
            (j, omega (arith, lt), is)
      ]

calloc_array-IsSlots : (n : ℕ) → IsSlots n (calloc_array true n) []
unfolding calloc_array
calloc_array-IsSlots n = record {
  spare = replicate n null;
  cells = refl;
  count = refl;
  size_is = length-replicate n null;
}

-- When calloc grants its requests for the four arrays and for the object, and runner_init returns NULL
-- or a runner that it has not returned before, and no runner is in memory yet, `runners_init` stays
-- within its arrays and returns a well-formed pool: the pool and the runners that are ready are those
-- that its job_count calls of runner_init returned, in order, but for NULL; none is active or done, and
-- they are the runners in memory.
pub runners_init-Started :
    (made : ℕ → Ptr) (job_count : ℕ) (h : Inputs)
    → AreNew made
    → ((r : Ptr) → h r ≡ none)
    → Returns
        (λ (ors, h').
          let xs = made_runners made job_count 0 in
          (rs : Runners) × (ors ≡ some rs) × Started job_count xs (rs, h'))
        (runners_init (grants true) made job_count h)
unfolding runners_init
runners_init-Started made job_count h new unused =
    let empty = calloc_array-IsSlots job_count in
    Returns-bind
      (start_runners-Started made job_count new job_count 0 _ h []
        (record {
          pool = record {
            pool = empty;
            ready = empty;
            active = empty;
            done = empty;
            room = omega arith;
            once = λ y. omega arith;
            distinct = λ y. omega arith;
            no_null = refl;
          };
          held = record { alive = λ r k. absurd (omega (arith, k)); gone = λ r k. unused r };
          few = omega arith;
          from = λ r k. absurd (omega (arith, k));
        })
        refl (omega arith))
      λ (rs, h') started. returns (rs, refl, started)

-- When calloc grants `runners_init` its object but no array for the pool or for the ready runners, and
-- the first call of runner_init makes a runner, the code writes that runner through NULL.
pub runners_init-faults :
    (c : Callocs) (made : ℕ → Ptr) (job_count : ℕ) (h : Inputs)
    → c.object ≡ true
    → (c.pool ≡ false) ⊎ (c.ready ≡ false)
    → 0 < job_count
    → made 0 ≢ null
    → runners_init c made job_count h ≡ none
unfolding runners_init start_runners calloc_array put set_elem
runners_init-faults c made zero h e refused k given = absurd (omega arith)
runners_init-faults c made (suc n) h e refused k given =
    let there : (made 0 == null) ≡ false = ground (arith, given) in
    elim (Bool-cases c.pool) [
      | inr p ↦ rw (e, p, there) refl
      | inl p ↦ elim refused [
        | inl none_there ↦ let no : true ≡ false = sym p ∙ none_there in absurd cc
        | inr r ↦ rw (e, p, r, there) refl
      ]
    ]

freed-AreHeld :
    (h : Inputs) (x : Ptr) (xs : List Ptr)
    → times x xs ≡ 0
    → AreHeld h (x ∷ xs)
    → AreHeld (write h x none) xs
unfolding write
freed-AreHeld h x xs out v = record {
  alive = λ y k. elim (Bool-cases (y == x)) [
    | inl e ↦ absurd (omega (arith, k, out, ap (λ (p : Ptr). times p xs) ((==_iff y x).0 e)))
    | inr e ↦ rw e (v.alive y (omega (arith, k)))
  ];
  gone = λ y k. elim (Bool-cases (y == x)) [
    | inl e ↦ rw e refl
    | inr e ↦ rw e (v.gone y (ground (arith, k, e)))
  ];
}

free_runners-Freed :
    (size : ℕ) (s : Slots) (pre xs : List Ptr) (h : Inputs)
    → IsSlots size s (pre ++ xs)
    → AreHeld h xs
    → ((r : Ptr) → times r xs ≤ 1)
    → times null xs ≡ 0
    → Returns (λ h'. (r : Ptr) → h' r ≡ none) (free_runners (length xs) (length pre) s h)
unfolding free_runners free_runner
free_runners-Freed size s pre [] h v held once real = returns (λ r. held.gone r refl)
free_runners-Freed size s pre (x ∷ xs) h v held once real =
    let (i, at) = held.alive x (omega (arith, times-head x xs)) in
    let there : (x == null) ≡ false = head_is_runner x xs 0 (omega (arith, real)) in
    rw (cell, there, at, sym (length-snoc pre x))
      (free_runners-Freed size s (pre ++ x ∷ []) xs (write h x none) (rw (snoc_append pre x xs) v)
        (freed-AreHeld h x xs (omega (arith, once x, times-head x xs)) held)
        (λ r. omega (arith, once r)) (omega (arith, real)))
  where
    cell : get_elem? s.cells (length pre) ≡ some x
    cell = rw (v.cells, append_assoc pre (x ∷ xs) v.spare) (get_elem?-append pre x (xs ++ v.spare))

-- On a well-formed pool whose runners are those in memory, `runners_fini` stays within its array and
-- frees every runner, each of them once.
pub runners_fini-Freed :
    (rs : Runners) (l : Lanes) (h : Inputs)
    → IsRunners rs l
    → AreHeld h l.pool
    → Returns (λ h'. (r : Ptr) → h' r ≡ none) (runners_fini (some rs) h)
unfolding runners_fini
runners_fini-Freed rs l h v held =
    subst (λ n. Returns (λ h'. (r : Ptr) → h' r ≡ none) (free_runners n 0 rs.pool h))
      (sym v.pool.count)
      (free_runners-Freed rs.total_jobs rs.pool [] l.pool h v.pool held v.distinct v.no_null)
