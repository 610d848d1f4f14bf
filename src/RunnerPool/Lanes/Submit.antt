-- ===== src/RunnerPool/Lanes/Submit.antt =====
-- `runners_submit_input` and `runners_process_result` on the lists of runners.
use coverage_guided_fuzzer.Prelude.{
  ℕ, ◌+◌, ◌≡◌, refl, inl, inr, Bool, true, false, ◌&&◌, not, Option, some, List, [], ◌∷◌, ◌++◌,
  ◌==◌, if◌then◌else◌, get_elem?, length-append, arith, Bool-cases, Returns, returns, Returns-bind,
  Returns-mono,
}
use coverage_guided_fuzzer.Prelude.Int.{ℤ, pos, negsuc}
use coverage_guided_fuzzer.Memory.{Ptr, null, write}
use coverage_guided_fuzzer.RunnerPool.{
  Slots, Runners, Inputs, runners_submit_input, submit, fuzzer_send_runner_input,
  runners_process_result,
}
use coverage_guided_fuzzer.RunnerPool.Remove.{IsSlots, remove_runner-erase, put-snoc}
use coverage_guided_fuzzer.RunnerPool.Lanes.{
  Lanes, lanes, times, in_lanes, IsRunners, times-append, times-head, erase-head, head_is_runner,
}

-- The first runner that is ready gets the input and becomes active. If it does not get the input,
-- it is no longer ready and does not become active either.
abbrev pub spec_submit : Bool → Lanes → Ptr → Inputs → ℤ × Lanes × Inputs
spec_submit received l input h = go l.ready
  where
    go : List Ptr → ℤ × Lanes × Inputs
    go [] = (negsuc 0, l, h)
    go (x ∷ rest) =
        if received
        then (pos 0, record l { ready = rest; active = l.active ++ x ∷ [] }, write h x (some input))
        else (negsuc 0, record l { ready = rest }, h)

-- The first runner that is done gives its result and becomes ready.
abbrev pub spec_result : Lanes → Ptr × Lanes
spec_result l = go l.done
  where
    go : List Ptr → Ptr × Lanes
    go [] = (null, l)
    go (x ∷ rest) = (x, record l { done = rest; ready = l.ready ++ x ∷ [] })

-- The cells of the array are the list's.
first_cell :
    (size : ℕ) (s : Slots) (x : Ptr) (xs : List Ptr)
    → IsSlots size s (x ∷ xs)
    → get_elem? s.cells 0 ≡ some x
first_cell size s x xs v = rw v.cells

busy :
    (size : ℕ) (s : Slots) (x : Ptr) (xs : List Ptr)
    → IsSlots size s (x ∷ xs)
    → (s.count == 0) ≡ false
busy size s x xs v = ground (arith, v.count)

abbrev pub Gives : Lanes → Ptr → Ptr × Option Runners → Type 0
Gives l runner (r, ors) = (r ≡ runner) × ((rs : Runners) × (ors ≡ some rs) × IsRunners rs l)

result-Gives :
    (rs : Runners) (p r a d : List Ptr)
    → IsRunners rs (lanes p r a d)
    → let (runner, l) = spec_result (lanes p r a d) in
      Returns (Gives l runner) (runners_process_result (some rs))
unfolding runners_process_result
result-Gives rs p r a [] v =
    let empty : (rs.done.count == 0) ≡ true = ground (arith, v.done.count) in
    rw empty (returns (refl, (rs, refl, v)))
result-Gives rs p r a (x ∷ d) v =
    rw (busy rs.total_jobs rs.done x d v.done, first_cell rs.total_jobs rs.done x d v.done)
      (Returns-bind (remove_runner-erase rs.total_jobs rs.done (x ∷ d) x v.done) λ done w.
        Returns-bind (put-snoc rs.total_jobs rs.ready r x v.ready (omega (arith, v.room)))
          λ ready u. returns (
            refl,
            (
              _,
              refl,
              record {
                pool = v.pool;
                ready = u;
                active = v.active;
                done = rw⁻¹ (erase-head x d) w;
                room = omega (arith, v.room, length-append r (x ∷ []));
                once = λ y. omega (arith, v.once y, times-append y r (x ∷ []));
                distinct = v.distinct;
                no_null = v.no_null;
              },
            ),
          ))

-- On a well-formed pool `runners_process_result` stays within its arrays, returns the first runner
-- that is done (NULL if there is none), makes it ready, and leaves the pool well-formed.
pub process_result_refines :
    (rs : Runners) (l : Lanes)
    → IsRunners rs l
    → Returns (Gives (spec_result l).1 (spec_result l).0) (runners_process_result (some rs))
process_result_refines rs l v = result-Gives rs l.pool l.ready l.active l.done v

abbrev pub Submitted : ℤ × Lanes × Inputs → ℤ × Option Runners × Inputs → Type 0
Submitted (res, l, h) (res', ors, h') =
    (res' ≡ res) × ((rs : Runners) × (ors ≡ some rs) × IsRunners rs l) × (h' ≡ h)

-- The runner gets the input if it is not NULL and both writes succeed.
abbrev pub received : Bool → Ptr → Bool
received sent input = sent && not (input == null)

send-received :
    (sent : Bool) (x input : Ptr) (h : Inputs)
    → (x == null) ≡ false
    → fuzzer_send_runner_input sent x input h
      ≡ (if received sent input then (pos 0, write h x (some input)) else (negsuc 0, h))
unfolding fuzzer_send_runner_input
send-received true x input h there = elim (Bool-cases (input == null)) [
  | inl e ↦ rw (there, e)
  | inr e ↦ rw (there, e)
]
send-received false x input h there = elim (Bool-cases (input == null)) [
  | inl e ↦ rw (there, e)
  | inr e ↦ rw (there, e)
]

abbrev Sent : ℤ × Lanes × Inputs → ℤ × Runners × Inputs → Type 0
Sent (res, l, h) (res', rs, h') = (res' ≡ res) × IsRunners rs l × (h' ≡ h)

submit-Sent :
    (sent : Bool) (rs : Runners) (p r a d : List Ptr) (x input : Ptr) (h : Inputs)
    → IsRunners rs (lanes p (x ∷ r) a d)
    → Returns
        (Sent (spec_submit (received sent input) (lanes p (x ∷ r) a d) input h))
        (submit sent rs input h)
unfolding submit
submit-Sent sent rs p r a d x input h v =
    rw (first_cell rs.total_jobs rs.ready x r v.ready, send-received sent x input h there)
      (Returns-bind (remove_runner-erase rs.total_jobs rs.ready (x ∷ r) x v.ready) λ ready w.
        elim (Bool-cases (received sent input)) [
          | inl e ↦ rw e (
              Returns-bind (put-snoc rs.total_jobs rs.active a x v.active (omega (arith, v.room)))
                λ active u. returns (
                  refl,
                  record {
                    pool = v.pool;
                    ready = rw⁻¹ (erase-head x r) w;
                    active = u;
                    done = v.done;
                    room = omega (arith, v.room, length-append a (x ∷ []));
                    once = λ y. omega (arith, v.once y, times-append y a (x ∷ []));
                    distinct = v.distinct;
                    no_null = v.no_null;
                  },
                  refl,
                ))
          | inr e ↦ rw e (
              returns (
                refl,
                record {
                  pool = v.pool;
                  ready = rw⁻¹ (erase-head x r) w;
                  active = v.active;
                  done = v.done;
                  room = omega (arith, v.room);
                  once = λ y. omega (arith, v.once y);
                  distinct = v.distinct;
                  no_null = v.no_null;
                },
                refl,
              ))
        ])
  where
    there : (x == null) ≡ false
    there = head_is_runner x r (times null a + times null d) (omega (arith, v.once null, v.no_null))

submit-Submitted :
    (sent : Bool) (rs : Runners) (p r a d : List Ptr) (input : Ptr) (h : Inputs)
    → IsRunners rs (lanes p r a d)
    → Returns
        (Submitted (spec_submit (received sent input) (lanes p r a d) input h))
        (runners_submit_input sent (some rs) input h)
unfolding runners_submit_input
submit-Submitted sent rs p [] a d input h v =
    let empty : (rs.ready.count == 0) ≡ true = ground (arith, v.ready.count) in
    rw empty (returns (refl, (rs, refl, v), refl))
submit-Submitted sent rs p (x ∷ r) a d input h v = rw (busy rs.total_jobs rs.ready x r v.ready) (
    Returns-bind (submit-Sent sent rs p r a d x input h v)
      λ (res, rs', h') (e, w, same). returns (e, (rs', refl, w), same))

-- On a well-formed pool `runners_submit_input` stays within its arrays, gives the input to the first
-- runner that is ready and makes it active, if the input is not NULL and the writes to the pipe
-- succeed; otherwise, or if no runner is ready, it returns -1. The pool stays well-formed.
pub submit_refines :
    (sent : Bool) (rs : Runners) (l : Lanes) (input : Ptr) (h : Inputs)
    → IsRunners rs l
    → Returns
        (Submitted (spec_submit (received sent input) l input h))
        (runners_submit_input sent (some rs) input h)
submit_refines sent rs l input h v =
    submit-Submitted sent rs l.pool l.ready l.active l.done input h v

-- A runner that is in the pool, and neither ready, nor active, nor done.
abbrev pub Lost : Ptr → ℤ × Option Runners × Inputs → Type 0
Lost x (res, ors, h) =
    (res ≡ negsuc 0)
    × ((rs : Runners) × (l : Lanes) × (ors ≡ some rs)
        × IsRunners rs l
        × (in_lanes x l ≡ 0)
        × (times x l.pool ≡ 1))

-- On a well-formed pool with a runner that is ready, `runners_submit_input` with an input that is NULL
-- or that a write to the pipe refuses returns -1 and leaves the first ready runner in the pool but
-- neither ready, nor active, nor done.
pub submit-loses_runner :
    (sent : Bool) (rs : Runners) (p r a d : List Ptr) (x input : Ptr) (h : Inputs)
    → IsRunners rs (lanes p (x ∷ r) a d)
    → received sent input ≡ false
    → Returns (Lost x) (runners_submit_input sent (some rs) input h)
submit-loses_runner sent rs p r a d x input h v e =
    Returns-mono (submit_refines sent rs (lanes p (x ∷ r) a d) input h v) λ (res, ors, h') out.
      let (res_is, (rs', is_some, w), same) = rw e at out in
      (res_is, (rs', lanes p r a d, is_some, w, none_left, in_pool))
  where
    none_left : in_lanes x (lanes p r a d) ≡ 0
    none_left = omega (arith, v.once x, v.distinct x, times-head x r)

    in_pool : times x p ≡ 1
    in_pool = omega (arith, v.once x, v.distinct x, times-head x r)
