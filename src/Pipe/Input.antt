-- ===== src/Pipe/Input.antt =====
-- An input goes through the pipe to the runner.
use mathlib.Core.List.{append-nil, append_assoc}
use coverage_guided_fuzzer.Prelude.{
  ℕ, ltb, ◌%◌, suc, ◌+◌, ◌-◌, ◌^◌, ◌<◌, ◌≡◌, refl, sym, ap, ◌∙◌, Bool, true, false, Option, some,
  List, [], ◌∷◌, ◌++◌, ◌==◌, length, length-append, take, arith, Returns, returns, Returns-bind,
  Returns-mono,
}
use coverage_guided_fuzzer.Prelude.Int.{pos}
use coverage_guided_fuzzer.Prelude.Text.{IsText, c_string, c_string-append}
use coverage_guided_fuzzer.Pipe.{
  Reply, to_ssize, read_from, to_bytes, from_bytes, send_input, receive_input,
}
use coverage_guided_fuzzer.Pipe.Transfer.{
  Moves, Moves-le, Took, to_ssize-small, write-Wrote, read_from-Took,
}
use coverage_guided_fuzzer.Pipe.Bytes.{from_bytes-to_bytes, length-to_bytes, take_front, drop_front}

-- The message of an input: its length as a size_t, and its bytes.
abbrev pub message : List ℕ → List ℕ
message str = to_bytes 8 (length str) ++ str

abbrev pub Sent : ℕ → List ℕ → Bool × List ℕ × List Reply → Type 0
Sent m pipe (ok, pipe', rs) = (ok ≡ true) × (pipe' ≡ pipe) × Moves m rs

pub send_input-Sent :
    (replies : List Reply) (str pipe : List ℕ) (m : ℕ)
    → length str < 2 ^ 63
    → Moves (8 + length str + m) replies
    → Returns (Sent m (pipe ++ message str)) (send_input replies (length str) str pipe)
unfolding send_input
send_input-Sent replies [] pipe m small v =
    Returns-bind (write-Wrote replies 0 (to_bytes 8 0) pipe m (8 + 0 + m) (omega arith) v)
      λ (res, pipe', rs) (e, same, w). rw e (returns (refl, same, w))
send_input-Sent replies (b ∷ bs) pipe m small v =
    let all : take (length (b ∷ bs)) (b ∷ bs) ≡ b ∷ bs =
      ap (λ (ys : List ℕ). take (length (b ∷ bs)) ys) (sym (append-nil (b ∷ bs)))
      ∙ take_front (length (b ∷ bs)) (b ∷ bs) [] refl in
    let some_bytes : (suc (length bs) == 0) ≡ false = ground arith in
    Returns-bind
      (write-Wrote replies 0 (to_bytes 8 (suc (length bs))) pipe (suc (length bs) + m)
        (8 + suc (length bs) + m) (omega arith) v)
      λ (res, pipe1, rs) (e, same, w).
        rw (e, some_bytes, all)
          (Returns-bind (write-Wrote rs 0 (b ∷ bs) pipe1 m (suc (length bs) + m) (omega arith) w)
            λ (res', pipe2, rs') (e', same', w').
              rw (e' ∙ to_ssize-small (0 + suc (length bs)) (omega (arith, small))) (
                returns (
                  refl,
                  (same'
                      ∙ ap (λ (ys : List ℕ). ys ++ (b ∷ bs)) same
                      ∙ append_assoc pipe (to_bytes 8 (suc (length bs))) (b ∷ bs)),
                  w',
                )))

abbrev pub Received : ℕ → List ℕ → List ℕ → Option (List ℕ) × List ℕ × List Reply → Type 0
Received m str rest (buffer, pipe, rs) =
    (buffer ≡ some (str ++ 0 ∷ [])) × (pipe ≡ rest) × Moves m rs

-- The size at the front of the pipe is read back.
size-Took :
    (replies : List Reply) (n m : ℕ) (rest : List ℕ)
    → n < 2 ^ 64
    → Moves (8 + m) replies
    → Returns
        (λ (res, got, pipe, rs). (res ≡ pos 8) × (from_bytes got ≡ n) × (pipe ≡ rest) × Moves m rs)
        (read_from replies [] 8 (to_bytes 8 n ++ rest))
size-Took replies n m rest small v =
    Returns-mono
      (read_from-Took replies [] 8 (to_bytes 8 n ++ rest) m (8 + m) (omega arith)
        (omega (arith, length-append (to_bytes 8 n) rest, size)) v)
      λ (res, got, pipe, rs) (e, same, left, w). (
        e ∙ ap (λ (ys : List ℕ). to_ssize (length ys)) head ∙ ap to_ssize size,
        ap (λ (ys : List ℕ). from_bytes ys) (same ∙ head) ∙ from_bytes-to_bytes 8 n small,
        left ∙ drop_front 8 (to_bytes 8 n) rest size,
        w,
      )
  where
    size : length (to_bytes 8 n) ≡ 8
    size = length-to_bytes 8 n

    head : take 8 (to_bytes 8 n ++ rest) ≡ to_bytes 8 n
    head = take_front 8 (to_bytes 8 n) rest size

str-Took :
    (replies : List Reply) (str rest : List ℕ) (m : ℕ)
    → Moves (length str + m) replies
    → Returns (Took m str rest) (read_from replies [] (length str) (str ++ rest))
str-Took replies str rest m v =
    Returns-mono
      (read_from-Took replies [] (length str) (str ++ rest) m (length str + m) (omega arith)
        (omega (arith, length-append str rest)) v)
      λ (res, got, pipe, rs) (e, same, left, w). (
        e ∙ ap (λ (ys : List ℕ). to_ssize (length ys)) head,
        same ∙ head,
        left ∙ drop_front (length str) str rest refl,
        w,
      )
  where
    head : take (length str) (str ++ rest) ≡ str
    head = take_front (length str) str rest refl

pub receive_input-Received :
    (replies : List Reply) (str rest : List ℕ) (m : ℕ)
    → length str < 2 ^ 63
    → Moves (8 + length str + m) replies
    → Returns (Received m str rest) (receive_input replies true (message str ++ rest))
unfolding receive_input
receive_input-Received replies [] rest m small v =
    Returns-bind
      (size-Took replies 0 m rest (omega arith)
        (Moves-le (8 + m) (8 + 0 + m) replies (omega arith) v))
      λ (res, got, pipe, rs) (e, len, left, w). rw (e, len) (returns (refl, left, w))
receive_input-Received replies (b ∷ bs) rest m small v =
    rw (append_assoc (to_bytes 8 (suc (length bs))) (b ∷ bs) rest) (
      Returns-bind
        (size-Took replies (suc (length bs)) (suc (length bs) + m) ((b ∷ bs) ++ rest)
          (omega (arith, small))
          (Moves-le (8 + (suc (length bs) + m)) (8 + suc (length bs) + m) replies (omega arith) v))
        λ (res, got, pipe, rs) (e, len, left, w).
          rw (e, len, some_bytes, left, whole)
            (Returns-bind (str-Took rs (b ∷ bs) rest m w)
              λ (res', got', pipe', rs') (e', same, left', w').
                rw (e' ∙ to_ssize-small (suc (length bs)) small, same, some_bytes, fits, one)
                  (returns (refl, left', w'))))
  where
    some_bytes : (suc (length bs) == 0) ≡ false
    some_bytes = ground arith

    whole : (suc (length bs) + 1) % 2 ^ 64 ≡ suc (length bs) + 1
    whole = omega (arith, small)

    fits : ltb (suc (length bs) + 1) (suc (length bs)) ≡ false
    fits = ground arith

    one : suc (length bs) + 1 - suc (length bs) ≡ 1
    one = omega arith

-- A string of less than 2 ^ 63 bytes with no NUL goes through an empty pipe whole: however the kernel
-- splits the writes and the reads and interrupts them, if it brings no error and moves a byte often
-- enough, the writes of `fuzzer_send_runner_input` and, given memory, `runner_receive_fuzzer_input`
-- end, the received buffer holds the string that was sent, and the pipe is empty again.
pub receive-send :
    (writes reads : List Reply) (str : List ℕ)
    → IsText str
    → length str < 2 ^ 63
    → Moves (8 + length str) writes
    → Moves (8 + length str) reads
    → Returns
        (λ (ok, pipe, rs).
          (ok ≡ true)
          × Returns
              (λ (buffer, pipe', rs').
                (pipe' ≡ [])
                × ((bytes : List ℕ) × (buffer ≡ some bytes) × (c_string bytes ≡ some str)))
              (receive_input reads true pipe))
        (send_input writes (length str) str [])
receive-send writes reads str text small v w =
    Returns-mono
      (send_input-Sent writes str [] 0 small
        (Moves-le (8 + length str + 0) (8 + length str) writes (omega arith) v))
      λ (ok, pipe, rs) (sent, same, _). (
        sent,
        rw (same ∙ sym (append-nil (message str))) (
            Returns-mono
              (receive_input-Received reads str [] 0 small
                (Moves-le (8 + length str + 0) (8 + length str) reads (omega arith) w))
              λ (buffer, pipe', rs') (e, left, _).
                (left, (str ++ 0 ∷ [], e, c_string-append str [] text))),
      )
