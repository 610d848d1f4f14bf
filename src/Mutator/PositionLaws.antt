-- ===== src/Mutator/PositionLaws.antt =====
-- `H` against the sequence that fuzzer/Mutation.md defines, and its range.
use native.Mathlib.Nat.{mod-lt}
use coverage_guided_fuzzer.Prelude.{ℕ, zero, suc, ◌%◌, ◌<◌, ◌≡◌, refl, arith}
use coverage_guided_fuzzer.Hash.{hash}
use coverage_guided_fuzzer.Mutator.Positions.{draw, position}

-- H_{n,0}(x) = x, and H_{n,m}(x) = HASH(H_{n,m-1}(x)) mod n.
pub sequence : ℕ → ℕ → ℕ → ℕ
sequence n zero x = x
sequence n (suc m) x = hash (sequence n m x) % n

sequence-suc : (n m x : ℕ) → sequence n (suc m) x ≡ sequence n m (hash x % n)
unfolding sequence
sequence-suc n zero x = refl
sequence-suc n (suc m) x = rw (← sequence-suc n m x)

draw-sequence : (n m x : ℕ) → draw n m x ≡ sequence n m x
unfolding draw
draw-sequence n zero x = unfold sequence in refl
draw-sequence n (suc m) x = rw (draw-sequence n m (hash x % n), sequence-suc n m x)

-- For a string that is not empty, `H(n, m, x)` of the code is the sequence H(n, m, x) that
-- Mutation.md defines.
pub position-sequence : (n m x : ℕ) → 0 < n → position n m x ≡ sequence n m x
unfolding position
position-sequence n zero x h = unfold sequence in ground arith
position-sequence n (suc m) x h = ground (arith, draw-sequence n (suc m) x)

-- From its first round on, `H` is below `n`.
pub position-lt : (n m x : ℕ) → 0 < n → 0 < m → position n m x < n
unfolding sequence
position-lt n zero x h k = absurd (omega arith)
position-lt n (suc m) x h k =
    rw (position-sequence n (suc m) x h) (mod-lt (hash (sequence n m x)) h)
