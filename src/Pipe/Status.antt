-- ===== src/Pipe/Status.antt =====
-- A status goes through the pipe to the fuzzer.
use mathlib.Core.List.{append-nil}
use coverage_guided_fuzzer.Prelude.{
  ℕ, ◌+◌, ◌≤◌, ◌≡◌, refl, sym, ap, ◌∙◌, Bool, List, [], ◌++◌, if◌then◌else◌, length, length-append,
  take, drop, min, arith, Returns, returns, Returns-bind,
}
use coverage_guided_fuzzer.Prelude.Int.{ℤ, pos, negsuc, to_int}
use coverage_guided_fuzzer.Pipe.{
  Reply, to_ssize, moved, from_bytes, int_bytes, RunnerState, no_state, valid, crash, timeout,
  state_code, status_info, read_status, runner_alert_fuzzer, fuzzer_attempt_receive_status,
}
use coverage_guided_fuzzer.Pipe.Transfer.{Moves, write-Wrote}
use coverage_guided_fuzzer.Pipe.Bytes.{
  IsInt, to_int-int_bytes, length-int_bytes, take_front, drop_front,
}

-- What the fuzzer learns: a timeout leaves `*data` as it was.
abbrev pub reported : RunnerState → ℤ → ℤ → ℤ × ℤ
reported no_state x before = (state_code no_state, x)
reported valid x before = (state_code valid, x)
reported crash x before = (state_code crash, x)
reported timeout x before = (state_code timeout, before)

state_code-IsInt : (state : RunnerState) → IsInt (state_code state)
state_code-IsInt no_state = omega arith
state_code-IsInt valid = omega arith
state_code-IsInt crash = omega arith
state_code-IsInt timeout = omega arith

length-status_info : (state : RunnerState) (x : ℤ) → length (status_info state x) ≡ 8
length-status_info state x = omega (
  arith,
  length-append (int_bytes (state_code state)) (int_bytes x),
  length-int_bytes (state_code state),
  length-int_bytes x,
)

state_back :
    (state : RunnerState) (x : ℤ)
    → to_int (from_bytes (take 4 (status_info state x))) ≡ state_code state
state_back state x =
    ap (λ (bs : List ℕ). to_int (from_bytes bs))
      (take_front 4 (int_bytes (state_code state)) (int_bytes x)
        (length-int_bytes (state_code state)))
    ∙ to_int-int_bytes (state_code state) (state_code-IsInt state)

data_back :
    (state : RunnerState) (x : ℤ) → IsInt x → to_int (from_bytes (drop 4 (status_info state x))) ≡ x
data_back state x v =
    ap (λ (bs : List ℕ). to_int (from_bytes bs))
      (drop_front 4 (int_bytes (state_code state)) (int_bytes x)
        (length-int_bytes (state_code state)))
    ∙ to_int-int_bytes x v

decoded :
    (state : RunnerState) (x before : ℤ) (got : List ℕ)
    → to_int (from_bytes (take 4 got)) ≡ state_code state
    → to_int (from_bytes (drop 4 got)) ≡ x
    → read_status got before ≡ reported state x before
decoded no_state x before got e e' = rw (e, e')
decoded valid x before got e e' = rw (e, e')
decoded crash x before got e e' = rw (e, e')
decoded timeout x before got e e' = rw e

receive_status :
    (k : ℕ) (state : RunnerState) (x before : ℤ) (rest : List ℕ)
    → 8 ≤ k
    → IsInt x
    → fuzzer_attempt_receive_status (moved k) before (status_info state x ++ rest)
      ≡ (reported state x before, rest)
unfolding fuzzer_attempt_receive_status
receive_status k state x before rest h v =
    rw
      (
        eight,
        take_front 8 (status_info state x) rest size,
        drop_front 8 (status_info state x) rest size,
      )
      (ap (λ (r : ℤ × ℤ). (r, rest))
        (decoded state x before (status_info state x) (state_back state x) (data_back state x v)))
  where
    size : length (status_info state x) ≡ 8
    size = length-status_info state x

    eight : min k (min 8 (length (status_info state x ++ rest))) ≡ 8
    eight = omega (arith, h, size, length-append (status_info state x) rest)

-- A status goes through an empty pipe whole: however the kernel splits and interrupts the writes, if it
-- brings no error and moves a byte often enough, `runner_alert_fuzzer` ends and answers what kill does,
-- and a read of 8 bytes or more by `fuzzer_attempt_receive_status` gives the state that was sent, with
-- its data unless it is a timeout, and leaves the pipe empty.
pub receive-alert :
    (writes : List Reply) (killed : Bool) (k : ℕ) (state : RunnerState) (x before : ℤ)
    → Moves 8 writes
    → 8 ≤ k
    → IsInt x
    → Returns
        (λ (res, pipe, rs).
          (res ≡ (if killed then pos 0 else negsuc 0))
          × (fuzzer_attempt_receive_status (moved k) before pipe ≡ (reported state x before, [])))
        (runner_alert_fuzzer writes killed state x [])
unfolding runner_alert_fuzzer
receive-alert writes killed k state x before v h w =
    Returns-bind
      (write-Wrote writes 0 (status_info state x) [] 0 8 (omega (arith, length-status_info state x))
        v)
      λ (res, pipe, rs) (e, same, _).
        let eight : 0 + length (status_info state x) ≡ 8 =
          omega (arith, length-status_info state x) in
        let answer : res ≡ pos 8 = e ∙ ap to_ssize eight in
        rw answer (
          returns (
            refl,
            (ap (fuzzer_attempt_receive_status (moved k) before)
                  (same ∙ sym (append-nil (status_info state x)))
                ∙ receive_status k state x before [] h w),
          ))
