-- ===== src/RunnerPool/Lanes.antt =====
-- The pool as four lists of runners, and what its operations do to them.
pub mod Submit
pub mod Sweep
pub mod Bury
pub mod Reap
use coverage_guided_fuzzer.Prelude.{none}
use coverage_guided_fuzzer.Prelude.{some}
use coverage_guided_fuzzer.Prelude.{
  ℕ, zero, suc, ◌+◌, ◌≤◌, ◌<◌, ◌≡◌, refl, sym, ap, ◌∙◌, inl, inr, Bool, true, false, List, [], ◌∷◌,
  ◌++◌, ◌==◌, ==_refl, if◌then◌else◌, length, length-append, arith, Bool-cases,
}
use coverage_guided_fuzzer.Memory.{Ptr, null}
use coverage_guided_fuzzer.RunnerPool.{Slots, Runners, Inputs}
use coverage_guided_fuzzer.RunnerPool.Remove.{erase, IsSlots}

pub record Lanes : Type 0 where
  pub pool : List Ptr
  pub ready : List Ptr
  pub active : List Ptr
  pub done : List Ptr

abbrev pub lanes : List Ptr → List Ptr → List Ptr → List Ptr → Lanes
lanes p r a d = record { pool = p; ready = r; active = a; done = d }

-- How often a runner is in a list.
abbrev pub times : Ptr → List Ptr → ℕ
times r [] = 0
times r (x ∷ xs) = (if x == r then 1 else 0) + times r xs

abbrev pub in_lanes : Ptr → Lanes → ℕ
in_lanes r l = times r l.ready + times r l.active + times r l.done

abbrev pub lanes_len : Lanes → ℕ
lanes_len l = length l.ready + length l.active + length l.done

-- The four arrays hold these lists; no runner is twice in the pool; each runner that is ready,
-- active or done is in the pool, and in one of the three lists only; they have room for all.
pub record IsRunners (rs : Runners) (l : Lanes) : Type 0 where
  pub pool : IsSlots rs.total_jobs rs.pool l.pool
  pub ready : IsSlots rs.total_jobs rs.ready l.ready
  pub active : IsSlots rs.total_jobs rs.active l.active
  pub done : IsSlots rs.total_jobs rs.done l.done
  pub room : lanes_len l ≤ rs.total_jobs
  pub once : (r : Ptr) → in_lanes r l ≤ times r l.pool
  pub distinct : (r : Ptr) → times r l.pool ≤ 1
  pub no_null : times null l.pool ≡ 0

-- The runners of the pool are in memory, and no other is.
pub record AreHeld (h : Inputs) (pool : List Ptr) : Type 0 where
  pub alive : (r : Ptr) → 0 < times r pool → (i : Ptr) × (h r ≡ some i)
  pub gone : (r : Ptr) → times r pool ≡ 0 → h r ≡ none

pub times-append : (r : Ptr) (xs ys : List Ptr) → times r (xs ++ ys) ≡ times r xs + times r ys
times-append r [] ys = omega arith
times-append r (x ∷ xs) ys = omega (arith, times-append r xs ys)

pub times-head : (x : Ptr) (xs : List Ptr) → times x (x ∷ xs) ≡ 1 + times x xs
times-head x xs = rw (==_refl x) refl

pub erase-head : (x : Ptr) (xs : List Ptr) → erase x (x ∷ xs) ≡ xs
erase-head x xs = rw (==_refl x)

-- The first runner of a list is not NULL if the list is within the pool.
pub head_is_runner :
    (x : Ptr) (xs : List Ptr) (n : ℕ) → times null (x ∷ xs) + n ≤ 0 → (x == null) ≡ false
head_is_runner x xs n h = elim (Bool-cases (x == null)) [
  | inl e ↦ absurd (ground (arith, h, e))
  | inr e ↦ e
]
