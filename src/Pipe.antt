-- ===== src/Pipe.antt =====
-- The pipes between the fuzzer and a runner, of fuzzer/src/runner.c: `helpr_write_wrap`,
-- `helpr_read_wrap`, and the messages that go through them. A pipe is the bytes in it. What the calls
-- of write and of read answer is a list of replies; where the list ends, the call waits for ever, and
-- the result is `none`.
pub mod Transfer
pub mod Bytes
pub mod Input
pub mod Status
use coverage_guided_fuzzer.Prelude.{
  ℕ, zero, suc, ◌+◌, ◌*◌, ◌-◌, ◌/◌, ◌%◌, ◌^◌, Bool, true, false, Option, none, some, List, [], ◌∷◌,
  ◌++◌, ltb, ◌==◌, if◌then◌else◌, length, take, drop, min, replicate, ◌>>=◌,
}
use coverage_guided_fuzzer.Prelude.Int.{ℤ, pos, negsuc, to_int}

-- EINTR, another error, or at most so many bytes moved.
pub data Reply : Type 0 where
  interrupted : Reply
  failed : Reply
  moved : ℕ → Reply

-- A size_t as a ssize_t.
abbrev pub to_ssize : ℕ → ℤ
to_ssize n = if ltb n (2 ^ 63) then pos n else negsuc (2 ^ 64 - n - 1)

-- `helpr_write_wrap` with `written` bytes written and `bs` left: the answer, the pipe, and the replies
-- to later calls.
unfoldable pub write_from : List Reply → ℕ → List ℕ → List ℕ → Option (ℤ × List ℕ × List Reply)
write_from replies written [] pipe = some (to_ssize written, pipe, replies)
write_from [] written (b ∷ bs) pipe = none
write_from (interrupted ∷ rs) written (b ∷ bs) pipe = write_from rs written (b ∷ bs) pipe
write_from (failed ∷ rs) written (b ∷ bs) pipe = some (negsuc 0, pipe, rs)
write_from (moved k ∷ rs) written (b ∷ bs) pipe =
    let n : ℕ = min k (length (b ∷ bs)) in
    write_from rs (written + n) (drop n (b ∷ bs)) (pipe ++ take n (b ∷ bs))

abbrev pub helpr_write_wrap : List Reply → List ℕ → List ℕ → Option (ℤ × List ℕ × List Reply)
helpr_write_wrap replies bs pipe = write_from replies 0 bs pipe

-- `helpr_read_wrap` with `got` read and `count` bytes to go: the answer, the bytes, the pipe and the
-- replies to later calls. A read that moves no byte is the end of the file.
unfoldable pub read_from :
    List Reply → List ℕ → ℕ → List ℕ → Option (ℤ × List ℕ × List ℕ × List Reply)
read_from replies got zero pipe = some (to_ssize (length got), got, pipe, replies)
read_from [] got (suc count) pipe = none
read_from (interrupted ∷ rs) got (suc count) pipe = read_from rs got (suc count) pipe
read_from (failed ∷ rs) got (suc count) pipe = some (negsuc 0, got, pipe, rs)
read_from (moved k ∷ rs) got (suc count) pipe =
    let n : ℕ = min k (min (suc count) (length pipe)) in
    let more = read_from rs (got ++ take n pipe) (suc count - n) (drop n pipe) in
    if n == 0 then some (to_ssize (length got), got, pipe, rs) else more

abbrev pub helpr_read_wrap : List Reply → ℕ → List ℕ → Option (ℤ × List ℕ × List ℕ × List Reply)
helpr_read_wrap replies count pipe = read_from replies [] count pipe

-- A number in memory: so many bytes, the lowest first.
abbrev pub to_bytes : ℕ → ℕ → List ℕ
to_bytes zero n = []
to_bytes (suc k) n = n % 256 ∷ to_bytes k (n / 256)

abbrev pub from_bytes : List ℕ → ℕ
from_bytes [] = 0
from_bytes (b ∷ bs) = b + 256 * from_bytes bs

abbrev is_minus_one : ℤ → Bool
is_minus_one (pos n) = false
is_minus_one (negsuc n) = n == 0

-- `<= 0`
abbrev not_positive : ℤ → Bool
not_positive (pos n) = n == 0
not_positive (negsuc n) = true

-- The writes of `fuzzer_send_runner_input` for a string of `len` bytes: whether they succeed.
unfoldable pub send_input : List Reply → ℕ → List ℕ → List ℕ → Option (Bool × List ℕ × List Reply)
send_input replies len str pipe = do
  (res, pipe', rs) ← helpr_write_wrap replies (to_bytes 8 len) pipe
  let body = (do
    (res', pipe'', rs') ← helpr_write_wrap rs (take len str) pipe'
    some (if is_minus_one res' then false else true, pipe'', rs'))
  if is_minus_one res
      then some (false, pipe', rs)
      else if len == 0
      then some (true, pipe', rs)
      else body

-- `runner_receive_fuzzer_input` after its pselect, with calloc's answer: the new buffer, `none` for
-- NULL. `len + 1` is a size_t; a read of more bytes than that writes past the buffer. A read that is
-- short leaves zeros in the buffer.
unfoldable pub receive_input :
    List Reply → Bool → List ℕ → Option (Option (List ℕ) × List ℕ × List Reply)
receive_input replies granted pipe = do
  (res, got, pipe', rs) ← helpr_read_wrap replies 8 pipe
  let len : ℕ = from_bytes got
  let size : ℕ = (len + 1) % 2 ^ 64
  let body = (do
    (res', str, pipe'', rs') ← helpr_read_wrap rs len pipe'
    let buffer = str ++ replicate (size - length str) 0
    let read = some (if not_positive res' then none else some buffer, pipe'', rs')
    if ltb size (length str) then none else read)
  if not_positive res
      then some (none, pipe', rs)
      else if granted
      then (if len == 0 then some (some (replicate size 0), pipe', rs) else body)
      else some (none, pipe', rs)

-- `RUNNER_STATE`, an int in memory.
pub data RunnerState : Type 0 where
  no_state valid crash timeout : RunnerState

abbrev pub state_code : RunnerState → ℤ
state_code no_state = negsuc 0
state_code valid = pos 0
state_code crash = pos 1
state_code timeout = pos 2

abbrev pub int_bytes : ℤ → List ℕ
int_bytes (pos n) = to_bytes 4 n
int_bytes (negsuc n) = to_bytes 4 (2 ^ 32 - n - 1)

-- `StatusInfo`
abbrev pub status_info : RunnerState → ℤ → List ℕ
status_info state xtra_data = int_bytes (state_code state) ++ int_bytes xtra_data

-- `runner_alert_fuzzer`, with the answer of kill.
unfoldable pub runner_alert_fuzzer :
    List Reply → Bool → RunnerState → ℤ → List ℕ → Option (ℤ × List ℕ × List Reply)
runner_alert_fuzzer replies killed state x pipe = do
  (res, pipe', rs) ← helpr_write_wrap replies (status_info state x) pipe
  some (if is_minus_one res then negsuc 0 else if killed then pos 0 else negsuc 0, pipe', rs)

-- The StatusInfo that 8 bytes hold.
abbrev read_status : List ℕ → ℤ → ℤ × ℤ
read_status got before =
    let state : ℤ = to_int (from_bytes (take 4 got)) in
    (state, if is_timeout state then before else to_int (from_bytes (drop 4 got)))
  where
    is_timeout : ℤ → Bool
    is_timeout (pos n) = n == 2
    is_timeout (negsuc n) = false

-- `fuzzer_attempt_receive_status`: one read, and `*data` before and after.
unfoldable pub fuzzer_attempt_receive_status : Reply → ℤ → List ℕ → (ℤ × ℤ) × List ℕ
fuzzer_attempt_receive_status interrupted before pipe = ((negsuc 0, before), pipe)
fuzzer_attempt_receive_status failed before pipe = ((negsuc 0, before), pipe)
fuzzer_attempt_receive_status (moved k) before pipe =
    let n : ℕ = min k (min 8 (length pipe)) in
    (if n == 8 then read_status (take n pipe) before else (negsuc 0, before), drop n pipe)
