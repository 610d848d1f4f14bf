-- ===== src/RunnerPool/Lanes/Sweep.antt =====
-- `runners_check_if_jobs_done` on the lists of runners.
use mathlib.Core.List.{append-nil, append_assoc}
use coverage_guided_fuzzer.Prelude.{
  ℕ, zero, suc, ◌+◌, ◌<◌, ◌≡◌, refl, sym, ap, ◌∙◌, inl, inr, Bool, true, false, Option, some, List,
  [], ◌∷◌, ◌++◌, ◌==◌, ==_iff, ltb, if◌then◌else◌, get_elem?, length, length-append, arith,
  Bool-cases, Returns, returns, Returns-bind,
}
use coverage_guided_fuzzer.Prelude.Int.{pos}
use coverage_guided_fuzzer.Memory.{Ptr}
use coverage_guided_fuzzer.RunnerPool.{
  Slots, Runners, fd_setsize, set_fds, sweep, runners_check_if_jobs_done,
}
use coverage_guided_fuzzer.RunnerPool.Remove.{
  IsSlots, erase, remove_runner-erase, put-snoc, get_elem?-append, snoc_append, length-snoc,
}
use coverage_guided_fuzzer.RunnerPool.Lanes.{
  Lanes, lanes, IsRunners, times, times-append, times-head,
}

-- The runners that have a result, and the others, in order.
abbrev pub chosen : (Ptr → Bool) → List Ptr → List Ptr
chosen isset [] = []
chosen isset (x ∷ xs) = if isset x then x ∷ chosen isset xs else chosen isset xs

abbrev pub others : (Ptr → Bool) → List Ptr → List Ptr
others isset [] = []
others isset (x ∷ xs) = if isset x then others isset xs else x ∷ others isset xs

abbrev pub spec_check : (Ptr → Bool) → Lanes → Lanes
spec_check isset l = record l {
  active = others isset l.active;
  done = l.done ++ chosen isset l.active;
}

-- Cells that the loop has passed by.
abbrev pub NoneSet : (Ptr → Bool) → List Ptr → Type 0
NoneSet isset [] = Unit {0}
NoneSet isset (x ∷ xs) = (isset x ≡ false) × NoneSet isset xs

pub NoneSet-snoc :
    (isset : Ptr → Bool) (xs : List Ptr) (x : Ptr)
    → NoneSet isset xs
    → isset x ≡ false
    → NoneSet isset (xs ++ x ∷ [])
NoneSet-snoc isset [] x n e = (e, tt)
NoneSet-snoc isset (a ∷ xs) x n e = (n.0, NoneSet-snoc isset xs x n.1 e)

-- The runner that is removed is the one that the loop stands at.
pub erase-passed :
    (isset : Ptr → Bool) (pre : List Ptr) (x : Ptr) (post : List Ptr)
    → NoneSet isset pre
    → isset x ≡ true
    → erase x (pre ++ (x ∷ post)) ≡ pre ++ post
erase-passed isset [] x post n e = ground arith
erase-passed isset (a ∷ pre) x post n e = elim (Bool-cases (a == x)) [
  | inl same ↦
      let eq : a ≡ x = (==_iff a x).0 same in
      let no : true ≡ false = sym e ∙ sym (ap isset eq) ∙ n.0 in cc
  | inr differs ↦ rw differs (ap (λ (ys : List Ptr). a ∷ ys) (erase-passed isset pre x post n.1 e))
]

module _ (isset : Ptr → Bool) (p r : List Ptr) where
  abbrev Swept : List Ptr → List Ptr → Runners → Type 0
  Swept a d rs = IsRunners rs (lanes p r a d)

  sweep-Swept :
      (fuel : ℕ) (rs : Runners) (pre xs d : List Ptr)
      → Swept (pre ++ xs) d rs
      → NoneSet isset pre
      → length xs < fuel
      → Returns
          (Swept (pre ++ others isset xs) (d ++ chosen isset xs))
          (sweep isset fuel (length pre) rs)
  unfolding sweep
  sweep-Swept zero rs pre xs d v n h = absurd (omega arith)
  sweep-Swept (suc fuel) rs pre [] d v n h =
      let past : ltb (length pre) rs.active.count ≡ false =
        ground (arith, v.active.count, length-append pre []) in
      rw past (rw (append-nil d) (returns v))
  sweep-Swept (suc fuel) rs pre (x ∷ xs) d v n h =
      let inside : ltb (length pre) rs.active.count ≡ true =
        ground (arith, v.active.count, length-append pre (x ∷ xs)) in
      let cell : get_elem? rs.active.cells (length pre) ≡ some x =
        rw (v.active.cells, append_assoc pre (x ∷ xs) v.active.spare)
          (get_elem?-append pre x (xs ++ v.active.spare)) in
      elim (Bool-cases (isset x)) [
        | inl e ↦
            rw (inside, cell, e, sym (snoc_append d x (chosen isset xs)))
              (Returns-bind
                (remove_runner-erase rs.total_jobs rs.active (pre ++ (x ∷ xs)) x v.active)
                λ active w.
                  Returns-bind
                    (put-snoc rs.total_jobs rs.done d x v.done
                      (omega (arith, v.room, length-append pre (x ∷ xs))))
                    λ done u.
                      sweep-Swept fuel _ pre xs (d ++ x ∷ [])
                        (record {
                          pool = v.pool;
                          ready = v.ready;
                          active = rw⁻¹ (erase-passed isset pre x xs n e) w;
                          done = u;
                          room = omega (
                            arith,
                            v.room,
                            length-append pre (x ∷ xs),
                            length-append pre xs,
                            length-append d (x ∷ []),
                          );
                          once = λ y. omega (
                            arith,
                            v.once y,
                            times-append y pre (x ∷ xs),
                            times-append y pre xs,
                            times-append y d (x ∷ []),
                          );
                          distinct = v.distinct;
                          no_null = v.no_null;
                        })
                        n (omega (arith, h)))
        | inr e ↦
            rw (inside, cell, e, sym (length-snoc pre x), sym (snoc_append pre x (others isset xs)))
              (sweep-Swept fuel rs (pre ++ x ∷ []) xs d (rw (snoc_append pre x xs) v)
                (NoneSet-snoc isset pre x n e) (omega (arith, h)))
      ]

-- The descriptors of these runners fit into an fd_set.
abbrev pub AreLow : (Ptr → ℕ) → List Ptr → Type 0
AreLow fd xs = (r : Ptr) → 0 < times r xs → fd r < fd_setsize

slots-set_fds :
    (fd : Ptr → ℕ) (size : ℕ) (s : Slots) (pre xs : List Ptr)
    → IsSlots size s (pre ++ xs)
    → AreLow fd xs
    → set_fds fd (length xs) (length pre) s ≡ some tt
unfolding set_fds
slots-set_fds fd size s pre [] v low = refl
slots-set_fds fd size s pre (x ∷ xs) v low =
    let cell : get_elem? s.cells (length pre) ≡ some x =
      rw (v.cells, append_assoc pre (x ∷ xs) v.spare) (get_elem?-append pre x (xs ++ v.spare)) in
    let fits : ltb (fd x) fd_setsize ≡ true =
      ground (arith, low x (omega (arith, times-head x xs))) in
    rw (cell, fits, sym (length-snoc pre x))
      (slots-set_fds fd size s (pre ++ x ∷ []) xs (rw (snoc_append pre x xs) v)
        (λ r k. low r (omega (arith, k))))

pub active-set_fds :
    (fd : Ptr → ℕ) (rs : Runners) (l : Lanes)
    → IsRunners rs l
    → AreLow fd l.active
    → set_fds fd rs.active.count 0 rs.active ≡ some tt
active-set_fds fd rs l v low =
    ap (λ n. set_fds fd n 0 rs.active) v.active.count
    ∙ slots-set_fds fd rs.total_jobs rs.active [] l.active v.active low

abbrev pub Checked : Lanes → Option Runners → Type 0
Checked l ors = (rs : Runners) × (ors ≡ some rs) × IsRunners rs l

lanes-Checked :
    (fd : Ptr → ℕ) (n : ℕ) (isset : Ptr → Bool) (rs : Runners) (p r a d : List Ptr)
    → 0 < n
    → AreLow fd a
    → IsRunners rs (lanes p r a d)
    → Returns
        (Checked (spec_check isset (lanes p r a d)))
        (runners_check_if_jobs_done fd (pos n) isset (some rs))
unfolding runners_check_if_jobs_done
lanes-Checked fd n isset rs p r [] d h low v =
    let empty : (rs.active.count == 0) ≡ true = ground (arith, v.active.count) in
    rw (empty, append-nil d) (returns (rs, refl, v))
lanes-Checked fd n isset rs p r (x ∷ a) d h low v =
    let busy : (rs.active.count == 0) ≡ false = ground (arith, v.active.count) in
    let positive : ltb 0 n ≡ true = ground (arith, h) in
    rw (busy, active-set_fds fd rs (lanes p r (x ∷ a) d) v low, positive)
      (Returns-bind
        (sweep-Swept isset p r (rs.active.count + 1) rs [] (x ∷ a) d v tt
          (omega (arith, v.active.count)))
        λ rs' w. returns (rs', refl, w))

-- On a well-formed pool whose active runners have descriptors below FD_SETSIZE, and with a positive
-- answer of select, `runners_check_if_jobs_done` ends, stays
-- within its arrays, and makes the active runners whose pipe is set done, in their order; the others
-- stay active, in their order. The pool stays well-formed.
pub check_refines :
    (fd : Ptr → ℕ) (n : ℕ) (isset : Ptr → Bool) (rs : Runners) (l : Lanes)
    → 0 < n
    → AreLow fd l.active
    → IsRunners rs l
    → Returns (Checked (spec_check isset l)) (runners_check_if_jobs_done fd (pos n) isset (some rs))
check_refines fd n isset rs l h low v =
    lanes-Checked fd n isset rs l.pool l.ready l.active l.done h low v
