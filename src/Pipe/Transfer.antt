-- ===== src/Pipe/Transfer.antt =====
-- The two loops move all the bytes, in whatever portions.
use mathlib.Core.List.{append-nil, append_assoc}
use coverage_guided_fuzzer.Prelude.{
  ℕ, zero, suc, ◌+◌, ◌-◌, ◌≤◌, ◌<◌, ◌≡◌, refl, sym, ap, ◌∙◌, ltb, true, ◌^◌, false, List, [], ◌∷◌,
  ◌++◌, ◌==◌, length, length-drop, take, drop, min, arith, Returns, returns, Returns-mono,
}
use coverage_guided_fuzzer.Prelude.Int.{ℤ, pos}
use coverage_guided_fuzzer.Pipe.{Reply, interrupted, failed, moved, to_ssize, write_from, read_from}

-- The replies bring no error, and `n` of them move a byte at least, until which some may be EINTR.
abbrev pub Moves : ℕ → List Reply → Type 0
Moves zero rs = Unit {0}
Moves (suc n) [] = ⊥
Moves (suc n) (interrupted ∷ rs) = Moves (suc n) rs
Moves (suc n) (failed ∷ rs) = ⊥
Moves (suc n) (moved k ∷ rs) = (0 < k) × Moves n rs

pub Moves-le : (m n : ℕ) (rs : List Reply) → m ≤ n → Moves n rs → Moves m rs
Moves-le zero n rs h v = tt
Moves-le (suc m) zero rs h v = absurd (omega arith)
Moves-le (suc m) (suc n) [] h v = absurd v
Moves-le (suc m) (suc n) (interrupted ∷ rs) h v = Moves-le (suc m) (suc n) rs h v
Moves-le (suc m) (suc n) (failed ∷ rs) h v = absurd v
Moves-le (suc m) (suc n) (moved k ∷ rs) h v = (v.0, Moves-le m n rs (omega (arith, h)) v.1)

pub take-drop : (n : ℕ) (xs : List ℕ) → take n xs ++ drop n xs ≡ xs
take-drop zero xs = refl
take-drop (suc n) [] = refl
take-drop (suc n) (x ∷ xs) = ap (λ (ys : List ℕ). x ∷ ys) (take-drop n xs)

drop_nil : (n : ℕ) → drop {A = ℕ} n [] ≡ []
drop_nil zero = refl
drop_nil (suc n) = refl

take_nil : (n : ℕ) → take {A = ℕ} n [] ≡ []
take_nil zero = refl
take_nil (suc n) = refl

-- In two portions, as in one.
drop-drop : (i n : ℕ) (xs : List ℕ) → i ≤ n → drop (n - i) (drop i xs) ≡ drop n xs
drop-drop zero n xs h = let all : n - 0 ≡ n = omega arith in ap (λ (k : ℕ). drop k xs) all
drop-drop (suc i) zero xs h = absurd (omega (arith, h))
drop-drop (suc i) (suc n) [] h = drop_nil (suc n - suc i)
drop-drop (suc i) (suc n) (x ∷ xs) h =
    let rest : suc n - suc i ≡ n - i = omega arith in
    ap (λ (k : ℕ). drop k (drop i xs)) rest ∙ drop-drop i n xs (omega (arith, h))

take-take : (i n : ℕ) (xs : List ℕ) → i ≤ n → take i xs ++ take (n - i) (drop i xs) ≡ take n xs
take-take zero n xs h = let all : n - 0 ≡ n = omega arith in ap (λ (k : ℕ). take k xs) all
take-take (suc i) zero xs h = absurd (omega (arith, h))
take-take (suc i) (suc n) [] h = take_nil (suc n - suc i)
take-take (suc i) (suc n) (x ∷ xs) h =
    let rest : suc n - suc i ≡ n - i = omega arith in
    ap (λ (k : ℕ). x ∷ (take i xs ++ take k (drop i xs))) rest
    ∙ ap (λ (ys : List ℕ). x ∷ ys) (take-take i n xs (omega (arith, h)))

pub to_ssize-small : (n : ℕ) → n < 2 ^ 63 → to_ssize n ≡ pos n
to_ssize-small n h = let small : ltb n (2 ^ 63) ≡ true = ground (arith, h) in rw small refl

-- What is written: all, behind what is in the pipe.
abbrev pub Wrote : ℕ → ℕ → List ℕ → ℤ × List ℕ × List Reply → Type 0
Wrote total m pipe (res, pipe', rs) = (res ≡ to_ssize total) × (pipe' ≡ pipe) × Moves m rs

pub write-Wrote :
    (replies : List Reply) (written : ℕ) (bs pipe : List ℕ) (m n : ℕ)
    → length bs + m ≤ n
    → Moves n replies
    → Returns (Wrote (written + length bs) m (pipe ++ bs)) (write_from replies written bs pipe)
unfolding write_from
write-Wrote replies written [] pipe m n h v =
    returns
      (ap to_ssize (omega arith), sym (append-nil pipe), Moves-le m n replies (omega (arith, h)) v)
write-Wrote replies written (b ∷ bs) pipe m zero h v = absurd (omega (arith, h))
write-Wrote [] written (b ∷ bs) pipe m (suc n) h v = absurd v
write-Wrote (interrupted ∷ rs) written (b ∷ bs) pipe m (suc n) h v =
    write-Wrote rs written (b ∷ bs) pipe m (suc n) h v
write-Wrote (failed ∷ rs) written (b ∷ bs) pipe m (suc n) h v = absurd v
write-Wrote (moved k ∷ rs) written (b ∷ bs) pipe m (suc n) h v =
    let q : ℕ = min k (suc (length bs)) in
    let left : length (drop q (b ∷ bs)) ≡ suc (length bs) - q = length-drop q (b ∷ bs) in
    Returns-mono
      (write-Wrote rs (written + q) (drop q (b ∷ bs)) (pipe ++ take q (b ∷ bs)) m n
        (omega (arith, h, v.0, left)) v.1)
      λ (res, pipe', rs') (e, same, w). (
        e ∙ ap to_ssize (omega (arith, left)),
        same
            ∙ append_assoc pipe (take q (b ∷ bs)) (drop q (b ∷ bs))
            ∙ ap (λ (ys : List ℕ). pipe ++ ys) (take-drop q (b ∷ bs)),
        w,
      )

-- What is read: the bytes at the front of the pipe.
abbrev pub Took : ℕ → List ℕ → List ℕ → ℤ × List ℕ × List ℕ × List Reply → Type 0
Took m bs pipe (res, got, pipe', rs) =
    (res ≡ to_ssize (length bs)) × (got ≡ bs) × (pipe' ≡ pipe) × Moves m rs

pub read_from-Took :
    (replies : List Reply) (got : List ℕ) (count : ℕ) (pipe : List ℕ) (m n : ℕ)
    → count + m ≤ n
    → count ≤ length pipe
    → Moves n replies
    → Returns (Took m (got ++ take count pipe) (drop count pipe)) (read_from replies got count pipe)
unfolding read_from
read_from-Took replies got zero pipe m n h enough v = returns (
  ap (λ (ys : List ℕ). to_ssize (length ys)) (sym (append-nil got)),
  sym (append-nil got),
  refl,
  Moves-le m n replies (omega (arith, h)) v,
)
read_from-Took replies got (suc count) pipe m zero h enough v = absurd (omega (arith, h))
read_from-Took [] got (suc count) pipe m (suc n) h enough v = absurd v
read_from-Took (interrupted ∷ rs) got (suc count) pipe m (suc n) h enough v =
    read_from-Took rs got (suc count) pipe m (suc n) h enough v
read_from-Took (failed ∷ rs) got (suc count) pipe m (suc n) h enough v = absurd v
read_from-Took (moved k ∷ rs) got (suc count) pipe m (suc n) h enough v =
    let q : ℕ = min k (min (suc count) (length pipe)) in
    let some_bytes : (q == 0) ≡ false = ground (arith, v.0, enough) in
    let left : length (drop q pipe) ≡ length pipe - q = length-drop q pipe in
    rw some_bytes (
      Returns-mono
        (read_from-Took rs (got ++ take q pipe) (suc count - q) (drop q pipe) m n
          (omega (arith, h, v.0, enough)) (omega (arith, left, enough)) v.1)
        λ (res, got', pipe', rs') (e, same, rest, w). (
          e ∙ ap (λ (ys : List ℕ). to_ssize (length ys)) (joined q (omega arith)),
          same ∙ joined q (omega arith),
          rest ∙ drop-drop q (suc count) pipe (omega arith),
          w,
        ))
  where
    joined :
        (q : ℕ)
        → q ≤ suc count
        → (got ++ take q pipe) ++ take (suc count - q) (drop q pipe) ≡ got ++ take (suc count) pipe
    joined q le =
        append_assoc got (take q pipe) (take (suc count - q) (drop q pipe))
        ∙ ap (λ (ys : List ℕ). got ++ ys) (take-take q (suc count) pipe le)
