-- ===== src/Runner/Heard.antt =====
-- What the runner process does with the signals that come while the target runs.
use coverage_guided_fuzzer.Prelude.{
  ℕ, ◌≡◌, refl, sym, ap, ◌∙◌, inl, inr, Bool, true, false, not, ◌&&◌, ◌||◌, Option, none, some,
  List, [], ◌∷◌, ◌++◌, ◌==◌, if◌then◌else◌, arith, Bool-cases,
}
use mathlib.Core.Path.{subst}
use mathlib.Core.List.{append-nil}
use coverage_guided_fuzzer.Prelude.Int.{ℤ, negsuc}
use coverage_guided_fuzzer.Pipe.{RunnerState}
use coverage_guided_fuzzer.Runner.{WaitStatus, final_status}
use coverage_guided_fuzzer.Runner.Wait.{
  Flags, Kill, positive, helpr_runner_sighandler, delivered, wait_loop, await_target,
}

abbrev pub is_termination : ℕ → Bool
is_termination n = (n == 15) || (n == 2) || (n == 1)

abbrev pub any_of : (ℕ → Bool) → List ℕ → Bool
any_of p [] = false
any_of p (n ∷ ns) = p n || any_of p ns

-- Each signal to terminate kills the target, and each alarm is passed on.
abbrev pub kills_for : ℤ → List ℕ → List Kill
kills_for pid [] = []
kills_for pid (n ∷ ns) =
    let later = kills_for pid ns in
    if is_termination n then (pid, 9) ∷ later else if n == 14 then (pid, 14) ∷ later else later

-- The signals up to the sigsuspend that ends the wait.
abbrev pub until_end : List (List ℕ) → List ℕ
until_end [] = []
until_end (ns ∷ wakes) =
    let later = until_end wakes in
    if any_of (λ n. (n == 17) || is_termination n) ns then ns else ns ++ later

-- If there is a target to pass them to.
unfoldable pub killed : ℤ → List ℕ → List Kill
killed pid ns = if positive pid then kills_for pid ns else []

-- The flags and the calls of kill after these signals.
record Heard (f : Flags) (ns : List ℕ) (r : Flags × List Kill) : Type 0 where
  sigterm_is : r.0.sigterm_seen ≡ (f.sigterm_seen || any_of is_termination ns)
  sigalrm_is : r.0.sigalrm_seen ≡ (f.sigalrm_seen || any_of (λ n. n == 14) ns)
  sigchld_is : r.0.sigchld_seen ≡ (f.sigchld_seen || any_of (λ n. n == 17) ns)
  pid_is : r.0.current_target_pid ≡ f.current_target_pid
  kills : r.1 ≡ killed f.current_target_pid ns

any-append : (p : ℕ → Bool) (ns ms : List ℕ) → any_of p (ns ++ ms) ≡ (any_of p ns || any_of p ms)
any-append p [] ms = refl
any-append p (n ∷ ns) ms = ground (arith, any-append p ns ms)

kills-append :
    (pid : ℤ) (ns ms : List ℕ) → kills_for pid (ns ++ ms) ≡ kills_for pid ns ++ kills_for pid ms
kills-append pid [] ms = refl
kills-append pid (n ∷ ns) ms = elim (Bool-cases (is_termination n)) [
  | inl e ↦ rw (e, kills-append pid ns ms) refl
  | inr e ↦ elim (Bool-cases (n == 14)) [
    | inl a ↦ rw (e, a, kills-append pid ns ms) refl
    | inr a ↦ rw (e, a, kills-append pid ns ms) refl
  ]
]

killed-append : (pid : ℤ) (ns ms : List ℕ) → killed pid (ns ++ ms) ≡ killed pid ns ++ killed pid ms
unfolding killed
killed-append pid ns ms = elim (Bool-cases (positive pid)) [
  | inl e ↦ rw e (kills-append pid ns ms)
  | inr e ↦ rw e refl
]

none-Heard : (f : Flags) → Heard f [] (f, [])
unfolding killed
none-Heard f = record {
  sigterm_is = ground arith;
  sigalrm_is = ground arith;
  sigchld_is = ground arith;
  pid_is = refl;
  kills = ground arith;
}

both-Heard :
    (f f1 f2 : Flags) (ns ms : List ℕ) (ks ks' : List Kill)
    → Heard f ns (f1, ks)
    → Heard f1 ms (f2, ks')
    → Heard f (ns ++ ms) (f2, ks ++ ks')
both-Heard f f1 f2 ns ms ks ks' v w = record {
  sigterm_is = ground (arith, v.sigterm_is, w.sigterm_is, any-append is_termination ns ms);
  sigalrm_is = ground (arith, v.sigalrm_is, w.sigalrm_is, any-append (λ n. n == 14) ns ms);
  sigchld_is = ground (arith, v.sigchld_is, w.sigchld_is, any-append (λ n. n == 17) ns ms);
  pid_is = w.pid_is ∙ v.pid_is;
  kills =
      let a : ks ≡ killed f.current_target_pid ns = v.kills in
      let b : ks' ≡ killed f1.current_target_pid ms = w.kills in
      let c : f1.current_target_pid ≡ f.current_target_pid = v.pid_is in
      let d = killed-append f.current_target_pid ns ms in cc;
}

sighandler-Heard : (n : ℕ) (f : Flags) → Heard f (n ∷ []) (helpr_runner_sighandler n f)
unfolding helpr_runner_sighandler killed
sighandler-Heard n f = elim (Bool-cases (is_termination n)) [
  | inl e ↦ record {
    sigterm_is = ground (arith, e);
    sigalrm_is = ground (arith, e);
    sigchld_is = ground (arith, e);
    pid_is = rw e refl;
    kills = rw e refl;
  }
  | inr e ↦ elim (Bool-cases (n == 14)) [
    | inl a ↦ record {
      sigterm_is = ground (arith, e, a);
      sigalrm_is = ground (arith, e, a);
      sigchld_is = ground (arith, e, a);
      pid_is = rw (e, a) refl;
      kills = rw (e, a) refl;
    }
    | inr a ↦ record {
      sigterm_is = ground (arith, e, a);
      sigalrm_is = ground (arith, e, a);
      sigchld_is = ground (arith, e, a);
      pid_is = ground (arith, e, a);
      kills = ground (arith, e, a);
    }
  ]
]

delivered-Heard : (ns : List ℕ) (f : Flags) → Heard f ns (delivered ns f)
unfolding delivered
delivered-Heard [] f = none-Heard f
delivered-Heard (n ∷ ns) f =
    let (f1, kills) = helpr_runner_sighandler n f in
    both-Heard f f1 (delivered ns f1).0 (n ∷ []) ns kills (delivered ns f1).1 (sighandler-Heard n f)
      (delivered-Heard ns f1)

wait_stops :
    (wakes : List (List ℕ)) (f : Flags)
    → (f.sigchld_seen || f.sigterm_seen) ≡ true
    → wait_loop wakes f ≡ (f, [])
unfolding wait_loop
wait_stops [] f h = refl
wait_stops (ns ∷ wakes) f h =
    let stop : (not f.sigchld_seen && not f.sigterm_seen) ≡ false = ground (arith, h) in
    let (f1, kills) = delivered ns f in
    ap
      (λ (b : Bool).
        if b then ((wait_loop wakes f1).0, kills ++ (wait_loop wakes f1).1) else (f, []))
      stop

any_or : (p r : ℕ → Bool) (ns : List ℕ) → any_of (λ n. p n || r n) ns ≡ (any_of p ns || any_of r ns)
any_or p r [] = refl
any_or p r (n ∷ ns) = ground (arith, any_or p r ns)

wait-Heard :
    (wakes : List (List ℕ)) (f : Flags)
    → f.sigchld_seen ≡ false
    → f.sigterm_seen ≡ false
    → Heard f (until_end wakes) (wait_loop wakes f)
unfolding wait_loop
wait-Heard [] f c t = none-Heard f
wait-Heard (ns ∷ wakes) f c t =
    let (f1, kills) = delivered ns f in
    let first : Heard f ns (f1, kills) = delivered-Heard ns f in
    let either = any_or (λ n. n == 17) is_termination ns in
    let goes : (not f.sigchld_seen && not f.sigterm_seen) ≡ true = ground (arith, c, t) in
    subst
      (λ b.
        Heard f (until_end (ns ∷ wakes))
          (if b then ((wait_loop wakes f1).0, kills ++ (wait_loop wakes f1).1) else (f, [])))
      (sym goes)
      (elim (Bool-cases (any_of (λ n. (n == 17) || is_termination n) ns)) [
        | inl e ↦
            let over : (f1.sigchld_seen || f1.sigterm_seen) ≡ true =
              ground (arith, first.sigchld_is, first.sigterm_is, either, e) in
            rw (e, wait_stops wakes f1 over, append-nil kills) first
        | inr e ↦ rw e (
            both-Heard f f1 (wait_loop wakes f1).0 ns (until_end wakes) kills (wait_loop wakes f1).1
              first
              (wait-Heard wakes f1 (ground (arith, first.sigchld_is, either, e, c))
                (ground (arith, first.sigterm_is, either, e, t))))
      ])

-- What is known of a target after its run, from the signals up to the end of the wait: the report,
-- that a signal to terminate was seen, and the calls of kill.
abbrev pub Awaited : ℤ → List ℕ → WaitStatus → Option (RunnerState × ℤ) × Flags × List Kill → Type 0
Awaited pid ns status (report, f, kills) =
    (report ≡ (
      if any_of (λ n. n == 17) ns
      then some (final_status (any_of (λ n. n == 14) ns) status)
      else none))
    × (f.sigterm_seen ≡ any_of is_termination ns)
    × (kills ≡ killed pid ns)

ended :
    (pid : ℤ) (ns : List ℕ) (status : WaitStatus) (f1 : Flags) (kills : List Kill)
    → f1.sigchld_seen ≡ any_of (λ n. n == 17) ns
    → f1.sigalrm_seen ≡ any_of (λ n. n == 14) ns
    → f1.sigterm_seen ≡ any_of is_termination ns
    → kills ≡ killed pid ns
    → Awaited pid ns status (
        if f1.sigchld_seen
        then (
          some (final_status f1.sigalrm_seen status),
          record f1 { current_target_pid = negsuc 0 },
          kills,
        )
        else (none, f1, kills))
ended pid ns status f1 kills chld alrm term killed_are = elim (Bool-cases f1.sigchld_seen) [
  | inl e ↦
      let came : any_of (λ n. n == 17) ns ≡ true = sym chld ∙ e in
      rw (e, came, alrm) (refl, term, killed_are)
  | inr e ↦
      let never : any_of (λ n. n == 17) ns ≡ false = sym chld ∙ e in
      rw (e, never) (refl, term, killed_are)
]

-- A runner that has seen no signal to terminate waits up to the first sigsuspend that delivers SIGCHLD
-- or such a signal, whatever order the signals come in. It reports the target exactly if SIGCHLD came
-- by then, as timed out only if SIGALRM did too; each signal to terminate that came kills the target,
-- and each SIGALRM is passed on to it, unless there is no target because the fork failed; and the
-- runner goes on unless a signal to terminate came.
pub await_target-Awaited :
    (target_pid : ℤ) (wakes : List (List ℕ)) (wait_status : WaitStatus) (f : Flags)
    → f.sigterm_seen ≡ false
    → Awaited target_pid (until_end wakes) wait_status (await_target target_pid wakes wait_status f)
unfolding await_target
await_target-Awaited target_pid wakes wait_status f t =
    let f0 : Flags = record f {
      current_target_pid = target_pid;
      sigchld_seen = false;
      sigalrm_seen = false;
    } in
    let (f1, kills) = wait_loop wakes f0 in
    let h : Heard f0 (until_end wakes) (f1, kills) = wait-Heard wakes f0 refl t in
    ended target_pid (until_end wakes) wait_status f1 kills h.sigchld_is h.sigalrm_is
      (h.sigterm_is ∙ ground (arith, t)) h.kills
