-- ===== src/Mutator/Safety/Resize.antt =====
-- helpr_strat1 to helpr_strat4, which set the length.
use coverage_guided_fuzzer.Prelude.{
  ℕ, zero, suc, ◌+◌, ◌-◌, ◌*◌, ◌%◌, ◌^◌, ◌≤◌, ◌<◌, inl, inr, some, List, [], ◌∷◌, ltb,
  if◌then◌else◌, get_or, take, length-replicate, replicate, replicate-IsBytes, take-IsBytes,
  get_or-lt, ◌>>=◌, Returns, returns, Returns-bind, arith, ltb-cases,
}
use coverage_guided_fuzzer.Prelude.Int.{ℤ, rounds, add_one, to_size}
use coverage_guided_fuzzer.Mutator.Buffer.{add_size, read_at, write_bytes}
use coverage_guided_fuzzer.Mutator.BufferLaws.{read_bytes-some, read_at-some, each_inv}
use coverage_guided_fuzzer.Mutator.Positions.{max_inp_len, position}
use coverage_guided_fuzzer.Mutator.PositionLaws.{position-lt}
use coverage_guided_fuzzer.Mutator.Strategies.{
  limit, grow, strat1, copy_len, copies, strat2, strat3, strat4,
}
use coverage_guided_fuzzer.Mutator.Safety.{IsBuf, write-IsBuf, close-IsBuf, length-prefix}

grow-le : (m target : ℕ) → target ≤ max_inp_len → grow m target ≤ max_inp_len
unfolding grow
grow-le zero target h = h
grow-le (suc m) target h = ground (arith, grow-le m (target * 2))

-- The buffer stays well formed and the new length is within the limit.
abbrev pub IsSized : List ℕ × ℕ → Type 0
IsSized (b, n) = IsBuf b × (n ≤ max_inp_len)

pub strat1-safe :
    (b : List ℕ) (n : ℕ) (k : ℤ) → IsBuf b → n ≤ max_inp_len → Returns IsSized (strat1 b n k)
unfolding strat1
strat1-safe b n k v h = Returns-bind filled λ b' v'.
    Returns-bind (close-IsBuf b' (grow (rounds k) 1) v' bound) λ b'' v''. returns (v'', bound)
  where
    bound : grow (rounds k) 1 ≤ max_inp_len
    bound = grow-le (rounds k) 1 (omega arith)

    filled : Returns IsBuf (
        if ltb n (grow (rounds k) 1)
        then write_bytes b n (replicate (grow (rounds k) 1 - n) b'a')
        else some b)
    filled = elim (ltb-cases n (grow (rounds k) 1)) [
      | inl (e, lt) ↦ rw e (
          write-IsBuf b n (replicate (grow (rounds k) 1 - n) b'a') v
            (replicate-IsBytes (grow (rounds k) 1 - n) b'a' (omega arith))
            (omega (arith, bound, length-replicate {A = ℕ} (grow (rounds k) 1 - n) b'a')))
      | inr (e, ge) ↦ rw e (returns v)
    ]

copy_len_bounds :
    (n new_len written : ℕ)
    → 0 < n
    → n ≤ max_inp_len
    → new_len ≤ max_inp_len
    → written < new_len
    → let len : ℕ = copy_len n new_len written in (0 < len) × (len ≤ n) × (written + len ≤ new_len)
copy_len_bounds n new_len written h k l lt = elim (ltb-cases new_len (add_size written n)) [
  | inl (e, over) ↦ rw e (omega arith)
  | inr (e, fits) ↦ rw e (omega arith)
]

-- The rounds of helpr_strat2 with enough fuel.
copies-safe :
    (fuel n new_len written : ℕ) (b : List ℕ)
    → IsBuf b
    → 0 < n
    → n ≤ max_inp_len
    → new_len ≤ max_inp_len
    → new_len ≤ written + fuel
    → Returns IsBuf (copies fuel n new_len written b)
unfolding copies
copies-safe zero n new_len written b v h k l f = elim (ltb-cases written new_len) [
  | inl (e, lt) ↦ absurd (omega arith)
  | inr (e, ge) ↦ rw e (returns v)
]
copies-safe (suc fuel) n new_len written b v h k l f = elim (ltb-cases written new_len) [
  | inl (e, lt) ↦
      let (more, le, fits) = copy_len_bounds n new_len written h k l lt in
      let len : ℕ = copy_len n new_len written in
      let size = v.size in
      rw (e, read_bytes-some b 0 len (omega arith))
        (Returns-bind
          (write-IsBuf b written (take len b) v (take-IsBytes len b v.bytes)
            (omega (arith, length-prefix b 0 len (omega arith))))
          λ b' v'. copies-safe fuel n new_len (add_size written len) b' v' h k l (omega arith))
  | inr (e, ge) ↦ rw e (returns v)
]

limit-le : (n : ℕ) → limit n ≤ max_inp_len
limit-le n = ground arith

pub strat2-safe :
    (b : List ℕ) (n : ℕ) (k : ℤ)
    → IsBuf b
    → 0 < n
    → n ≤ max_inp_len
    → Returns IsSized (strat2 b n k)
unfolding strat2
strat2-safe b n k v h l =
    let new_len : ℕ = limit (n * to_size (add_one k) % 2 ^ 64) in
    let bound = limit-le (n * to_size (add_one k) % 2 ^ 64) in
    Returns-bind (copies-safe new_len n new_len n b v h l bound (omega arith))
      λ b' v'. Returns-bind (close-IsBuf b' new_len v' bound) λ b'' v''. returns (v'', bound)

-- One round of helpr_strat3: a byte of the old string is put behind it.
append-IsBuf :
    (n s i : ℕ) (b : List ℕ)
    → IsBuf b
    → 0 < n
    → n + i < max_inp_len
    → Returns IsBuf (read_at b (position n (i + 1) s) >>= λ c. write_bytes b (n + i) (c ∷ []))
append-IsBuf n s i b v h l =
    let size = v.size in
    let pos : ℕ = position n (i + 1) s in
    let below : pos < n = position-lt n (i + 1) s h (omega arith) in
    rw (read_at-some b pos (omega arith))
      (write-IsBuf b (n + i) (get_or b pos 0 ∷ []) v (get_or-lt b pos v.bytes, tt) (omega arith))

pub strat3-safe :
    (b : List ℕ) (n s l : ℕ)
    → IsBuf b
    → 0 < n
    → n ≤ max_inp_len
    → l ≤ max_inp_len
    → Returns IsSized (strat3 b n s l)
unfolding strat3
strat3-safe b n s l v h k j =
    let new_len : ℕ = limit (add_size n l) in
    let bound = limit-le (add_size n l) in
    let count : ℕ = (new_len + 2 ^ 64 - n) % 2 ^ 64 in
    let room : n + count ≤ max_inp_len = ground arith in
    Returns-bind
      (each_inv (λ i. IsBuf) _ count (λ i b' lt v'. append-IsBuf n s i b' v' h (omega arith)) count
        0 b (omega arith) v)
      λ b' v'. Returns-bind (close-IsBuf b' new_len v' bound) λ b'' v''. returns (v'', bound)

pub strat4-safe :
    (b : List ℕ) (n s : ℕ) → IsBuf b → 0 < n → n ≤ max_inp_len → Returns IsSized (strat4 b n s)
unfolding strat4
strat4-safe b n s v h k =
    let below = position-lt n 1 s h (omega arith) in
    Returns-bind (close-IsBuf b (position n 1 s) v (omega arith)) λ b' v'. returns (v', omega arith)
