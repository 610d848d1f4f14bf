-- ===== src/RunnerPool/Lanes/Reap.antt =====
-- `runners_reap` on the lists of runners.
use mathlib.Core.List.{append-nil, append_assoc}
use coverage_guided_fuzzer.Prelude.{
  ℕ, zero, suc, ◌+◌, ◌<◌, ◌≤◌, ◌≡◌, refl, sym, ap, ◌∙◌, ◌⊎◌, inl, inr, Bool, true, false, Option,
  none, some, List, [], ◌∷◌, ◌++◌, ◌==◌, ==_iff, ltb, if◌then◌else◌, get_elem?, length,
  length-append, arith, Bool-cases, if_same, Returns, returns, Returns-bind, Returns-mono,
}
use coverage_guided_fuzzer.Prelude.Int.{ℤ, pos, negsuc}
use coverage_guided_fuzzer.Memory.{Ptr, write}
use coverage_guided_fuzzer.RunnerPool.{
  Runners, Inputs, Wait, reaped, failed, running, reap_from, runners_reap,
}
use coverage_guided_fuzzer.RunnerPool.Remove.{erase, get_elem?-append, snoc_append, length-snoc}
use coverage_guided_fuzzer.RunnerPool.Lanes.Bury.{times-erase, length-erase, bury-IsRunners}
use coverage_guided_fuzzer.RunnerPool.Lanes.Sweep.{NoneSet, NoneSet-snoc, erase-passed}
use coverage_guided_fuzzer.RunnerPool.Lanes.{Lanes, lanes, times, IsRunners, times-append}

abbrev pub dead : (Ptr → Wait) → Ptr → Bool
dead wait r = elim (wait r) [ reaped ↦ true | failed ↦ false | running ↦ false ]

abbrev fails : (Ptr → Wait) → Ptr → Bool
fails wait r = elim (wait r) [ reaped ↦ false | failed ↦ true | running ↦ false ]

abbrev pub some_failed : (Ptr → Wait) → List Ptr → Bool
some_failed wait [] = false
some_failed wait (x ∷ xs) = if fails wait x then true else some_failed wait xs

Wait-cases : (w : Wait) → (w ≡ reaped) ⊎ ((w ≡ failed) ⊎ (w ≡ running))
Wait-cases reaped = inl refl
Wait-cases failed = inr (inl refl)
Wait-cases running = inr (inr refl)

-- The runners whose processes have ended are gone, and the others are where they were, with their
-- active inputs.
pub record IsReaped (wait : Ptr → Wait) (l : Lanes) (h : Inputs) (l' : Lanes) (h' : Inputs)
    : Type 0 where
  pub gone : (r : Ptr) → dead wait r ≡ true → times r l'.pool ≡ 0
  pub pool : (r : Ptr) → dead wait r ≡ false → times r l'.pool ≡ times r l.pool
  pub ready : (r : Ptr) → dead wait r ≡ false → times r l'.ready ≡ times r l.ready
  pub active : (r : Ptr) → dead wait r ≡ false → times r l'.active ≡ times r l.active
  pub done : (r : Ptr) → dead wait r ≡ false → times r l'.done ≡ times r l.done
  pub freed : (r : Ptr) → dead wait r ≡ true → (times r l.pool ≡ 0 → h r ≡ none) → h' r ≡ none
  pub inputs : (r : Ptr) → dead wait r ≡ false → h' r ≡ h r
  pub fewer : length l'.active + length l'.done ≤ length l.active + length l.done

spared :
    (wait : Ptr → Wait) (x r : Ptr) (xs : List Ptr)
    → dead wait x ≡ true
    → dead wait r ≡ false
    → times r (erase x xs) ≡ times r xs
spared wait x r xs e n = elim (Bool-cases (x == r)) [
  | inl same ↦
      let no : true ≡ false = sym e ∙ ap (λ (k : Ptr). dead wait k) ((==_iff x r).0 same) ∙ n in cc
  | inr differs ↦ ground (arith, times-erase r x xs, differs)
]

untouched :
    (wait : Ptr → Wait) (x r : Ptr) (h : Inputs)
    → dead wait x ≡ true
    → dead wait r ≡ false
    → write h x none r ≡ h r
unfolding write
untouched wait x r h e n = elim (Bool-cases (r == x)) [
  | inl same ↦
      let no : true ≡ false =
        sym e ∙ ap (λ (k : Ptr). dead wait k) (sym ((==_iff r x).0 same)) ∙ n in
      cc
  | inr differs ↦ rw differs refl
]

freed_now :
    (h : Inputs) (x y : Ptr) (ys zs : List Ptr)
    → (times y ys ≡ 0 → h y ≡ none)
    → erase x ys ≡ zs
    → times y zs ≡ 0
    → write h x none y ≡ none
unfolding write
freed_now h x y ys zs out e k = elim (Bool-cases (y == x)) [
  | inl same ↦ rw same refl
  | inr differs ↦
      let other : (x == y) ≡ false = ground (arith, differs) in
      let kept : times y ys ≡ times y zs =
        ground (arith, times-erase y x ys, other, ap (λ (l : List Ptr). times y l) e) in
      rw differs (out (kept ∙ k))
]

none_dead :
    (wait : Ptr → Wait) (r : Ptr) (xs : List Ptr)
    → NoneSet (λ k. dead wait k) xs
    → dead wait r ≡ true
    → times r xs ≡ 0
none_dead wait r [] n e = refl
none_dead wait r (a ∷ xs) n e = elim (Bool-cases (a == r)) [
  | inl same ↦
      let no : true ≡ false =
        sym e ∙ ap (λ (k : Ptr). dead wait k) (sym ((==_iff a r).0 same)) ∙ n.0 in
      cc
  | inr differs ↦ ground (arith, none_dead wait r xs n.1 e, differs)
]

module _ (wait : Ptr → Wait) where
  abbrev Left : Lanes → Inputs → ℤ → ℤ × Runners × Inputs → Type 0
  Left l h ret (ret', rs, h') =
      (ret' ≡ ret) × ((l' : Lanes) × IsRunners rs l' × IsReaped wait l h l' h')

  reap-Left :
      (fuel : ℕ) (rs : Runners) (pre xs r a d : List Ptr) (ret : ℤ) (h : Inputs)
      → IsRunners rs (lanes (pre ++ xs) r a d)
      → NoneSet (λ k. dead wait k) pre
      → length xs < fuel
      → Returns
          (Left (lanes (pre ++ xs) r a d) h (if some_failed wait xs then negsuc 0 else ret))
          (reap_from wait fuel (length pre) ret rs h)
  unfolding reap_from
  reap-Left zero rs pre xs r a d ret h v n k = absurd (omega arith)
  reap-Left (suc fuel) rs pre [] r a d ret h v n k =
      let past : ltb (length pre) rs.pool.count ≡ false =
        ground (arith, v.pool.count, length-append pre []) in
      rw past (
        returns (
          refl,
          (
            lanes (pre ++ []) r a d,
            v,
            record {
              gone = λ y e. rw (append-nil pre) (none_dead wait y pre n e);
              pool = λ y e. refl;
              ready = λ y e. refl;
              active = λ y e. refl;
              done = λ y e. refl;
              freed = λ y e out. out (rw (append-nil pre) (none_dead wait y pre n e));
              inputs = λ y e. refl;
              fewer = omega arith;
            },
          ),
        ))
  reap-Left (suc fuel) rs pre (x ∷ xs) r a d ret h v n k = elim (Wait-cases (wait x)) [
    | inl e ↦
        let ended : dead wait x ≡ true = rw (e, dead) in
        let fine : fails wait x ≡ false = rw (e, fails) in
        let passed = erase-passed (λ y. dead wait y) pre x xs n ended in
        rw (inside, cell, e, fine)
          (Returns-bind (bury-IsRunners rs (lanes (pre ++ (x ∷ xs)) r a d) x v one) λ rs' w.
            Returns-mono
              (reap-Left fuel rs' pre xs (erase x r) (erase x a) (erase x d) ret (write h x none)
                (rw⁻¹ passed w) n (omega (arith, k)))
              λ out (same, (l', u, g)). (
                same,
                (
                  l',
                  u,
                  record {
                    gone = g.gone;
                    pool = λ y alive.
                        g.pool y alive
                        ∙ ap (λ (ys : List Ptr). times y ys) (sym passed)
                        ∙ spared wait x y (pre ++ (x ∷ xs)) ended alive;
                    ready = λ y alive. g.ready y alive ∙ spared wait x y r ended alive;
                    active = λ y alive. g.active y alive ∙ spared wait x y a ended alive;
                    done = λ y alive. g.done y alive ∙ spared wait x y d ended alive;
                    freed = λ y e out.
                        g.freed y e (freed_now h x y (pre ++ (x ∷ xs)) (pre ++ xs) out passed);
                    inputs = λ y alive. g.inputs y alive ∙ untouched wait x y h ended alive;
                    fewer = omega (arith, g.fewer, length-erase x a, length-erase x d);
                  },
                ),
              ))
    | inr (inl e) ↦
        let alive : dead wait x ≡ false = rw (e, dead) in
        let failing : fails wait x ≡ true = rw (e, fails) in
        rw (inside, cell, e, failing, sym (length-snoc pre x), sym (snoc_append pre x xs))
          (rw (if_same (some_failed wait xs)) at (
            reap-Left fuel rs (pre ++ x ∷ []) xs r a d (negsuc 0) h (rw (snoc_append pre x xs) v)
              (NoneSet-snoc (λ y. dead wait y) pre x n alive) (omega (arith, k))))
    | inr (inr e) ↦
        let alive : dead wait x ≡ false = rw (e, dead) in
        let fine : fails wait x ≡ false = rw (e, fails) in
        rw (inside, cell, e, fine, sym (length-snoc pre x), sym (snoc_append pre x xs))
          (reap-Left fuel rs (pre ++ x ∷ []) xs r a d ret h (rw (snoc_append pre x xs) v)
            (NoneSet-snoc (λ y. dead wait y) pre x n alive) (omega (arith, k)))
  ]
    where
      inside : ltb (length pre) rs.pool.count ≡ true
      inside = ground (arith, v.pool.count, length-append pre (x ∷ xs))

      cell : get_elem? rs.pool.cells (length pre) ≡ some x
      cell =
          rw (v.pool.cells, append_assoc pre (x ∷ xs) v.pool.spare)
            (get_elem?-append pre x (xs ++ v.pool.spare))

      here : times x (x ∷ xs) ≡ 1 + times x xs
      here = ground arith

      one : times x (pre ++ (x ∷ xs)) ≡ 1
      one = omega (arith, v.distinct x, times-append x pre (x ∷ xs), here)

abbrev pub Reaped : (Ptr → Wait) → Lanes → Inputs → ℤ × Option Runners × Inputs → Type 0
Reaped wait l h (ret, ors, h') =
    (ret ≡ (if some_failed wait l.pool then negsuc 0 else pos 0))
    × ((rs : Runners) × (l' : Lanes) × (ors ≡ some rs) × IsRunners rs l' × IsReaped wait l h l' h')

-- On a well-formed pool `runners_reap` ends and stays within its arrays, whatever waitpid answers for
-- each runner of the pool; it returns -1 exactly if one of the answers is a failure. The pool stays
-- well-formed; it has lost the runners whose processes were reaped, and every other runner is as often
-- in the pool, ready, active and done as it was, with the same active input.
pub reap_refines :
    (wait : Ptr → Wait) (rs : Runners) (l : Lanes) (h : Inputs)
    → IsRunners rs l
    → Returns (Reaped wait l h) (runners_reap wait (some rs) h)
unfolding runners_reap
reap_refines wait rs l h v =
    Returns-bind
      (reap-Left wait (rs.pool.count + 1) rs [] l.pool l.ready l.active l.done (pos 0) h v tt
        (omega (arith, v.pool.count)))
      λ (ret, rs', h') (same, (l', u, g)). returns (same, (rs', l', refl, u, g))
