-- ===== src/RunnerPool/Lanes/Bury.antt =====
-- The removals of `runners_reap`: a runner leaves the four lists.
use coverage_guided_fuzzer.Prelude.{
  ◌-◌, ◌≤◌, ◌≡◌, inl, inr, List, [], ◌∷◌, ◌==◌, ==_iff, if◌then◌else◌, length, arith, Bool-cases,
  Returns, returns, Returns-bind,
}
use coverage_guided_fuzzer.Memory.{Ptr, null}
use coverage_guided_fuzzer.RunnerPool.{Runners, bury}
use coverage_guided_fuzzer.RunnerPool.Remove.{erase, remove_runner-erase}
use coverage_guided_fuzzer.RunnerPool.Lanes.{Lanes, lanes, times, in_lanes, IsRunners}

pub times-erase :
    (y x : Ptr) (xs : List Ptr) → times y (erase x xs) ≡ times y xs - (if x == y then 1 else 0)
times-erase y x [] = ground arith
times-erase y x (a ∷ xs) = elim (Bool-cases (a == x)) [
  | inl e ↦ let same : a ≡ x = (==_iff a x).0 e in rw e (ground (arith, same))
  | inr e ↦ rw e (ground (arith, times-erase y x xs, e))
]

pub length-erase : (x : Ptr) (xs : List Ptr) → length (erase x xs) ≤ length xs
length-erase x [] = omega arith
length-erase x (a ∷ xs) = elim (Bool-cases (a == x)) [
  | inl e ↦ rw e (omega arith)
  | inr e ↦ rw e (omega (arith, length-erase x xs))
]

abbrev pub buried : Lanes → Ptr → Lanes
buried l x = lanes (erase x l.pool) (erase x l.ready) (erase x l.active) (erase x l.done)

pub bury-IsRunners :
    (rs : Runners) (l : Lanes) (x : Ptr)
    → IsRunners rs l
    → times x l.pool ≡ 1
    → Returns (λ rs'. IsRunners rs' (buried l x)) (bury rs x)
unfolding bury
bury-IsRunners rs l x v one =
    Returns-bind (remove_runner-erase rs.total_jobs rs.ready l.ready x v.ready) λ ready wr.
      Returns-bind (remove_runner-erase rs.total_jobs rs.active l.active x v.active) λ active wa.
        Returns-bind (remove_runner-erase rs.total_jobs rs.done l.done x v.done) λ done wd.
          Returns-bind (remove_runner-erase rs.total_jobs rs.pool l.pool x v.pool) λ pool wp.
            returns (record {
              pool = wp;
              ready = wr;
              active = wa;
              done = wd;
              room = omega (
                arith,
                v.room,
                length-erase x l.ready,
                length-erase x l.active,
                length-erase x l.done,
              );
              once = once;
              distinct = λ y. omega (arith, v.distinct y, times-erase y x l.pool);
              no_null = omega (arith, v.no_null, times-erase null x l.pool);
            })
  where
    once : (y : Ptr) → in_lanes y (buried l x) ≤ times y (erase x l.pool)
    once y = elim (Bool-cases (x == y)) [
      | inl e ↦
          let same : x ≡ y = (==_iff x y).0 e in
          ground (
            arith,
            e,
            v.once y,
            v.distinct y,
            times-erase y x l.ready,
            times-erase y x l.active,
            times-erase y x l.done,
            times-erase y x l.pool,
          )
      | inr e ↦ ground (
        arith,
        e,
        v.once y,
        times-erase y x l.ready,
        times-erase y x l.active,
        times-erase y x l.done,
        times-erase y x l.pool,
      )
    ]
