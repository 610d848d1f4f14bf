-- ===== src/Mutator/Safety/Inject.antt =====
-- helpr_strat5 to helpr_strat11, which leave the length alone.
use coverage_guided_fuzzer.Prelude.{
  ℕ, zero, suc, ◌+◌, ◌*◌, ◌/◌, ◌%◌, ◌^◌, ◌≤◌, ◌<◌, ◌≡◌, refl, inl, inr, Option, List, [], ◌∷◌,
  length, take, drop, length-replicate, replicate, replicate-IsBytes, take-IsBytes, drop-IsBytes,
  IsBytes, ◌>>=◌, Returns, returns, Returns-bind, Returns-mono, arith, leb-cases,
}
use coverage_guided_fuzzer.Prelude.Bits.{xor-lt}
use coverage_guided_fuzzer.Prelude.Bits.Digits.{two-pow-lt}
use coverage_guided_fuzzer.Prelude.Text.{print_int, print_int-IsBytes, length-print_int}
use coverage_guided_fuzzer.Hash.{hash}
use coverage_guided_fuzzer.Prelude.Int.{ℤ, to_int, rounds}
use coverage_guided_fuzzer.Mutator.Buffer.{splice, read_bytes, write_bytes, each}
use coverage_guided_fuzzer.Mutator.BufferLaws.{
  length-splice, splice-IsBytes, write_bytes-some, read_bytes-some, each_inv,
}
use coverage_guided_fuzzer.Mutator.Positions.{max_inp_len, position}
use coverage_guided_fuzzer.Mutator.PositionLaws.{position-lt}
use coverage_guided_fuzzer.Mutator.Strategies.{
  fitting, strat5, strat6, strat7, strat8, flip, flips, strat9, strat10, strat11,
}
use coverage_guided_fuzzer.Mutator.Safety.{
  IsBuf, write-IsBuf, change-IsBuf, fitting_bounds, length-prefix,
}

-- A loop `for(i = 1; i <= p; i++)` each of whose rounds keeps the buffer well formed.
each-IsBuf :
    (body : ℕ → List ℕ → Option (List ℕ)) (p : ℤ) (b : List ℕ)
    → IsBuf b
    → ((i : ℕ) (b' : List ℕ) → 0 < i → IsBuf b' → Returns IsBuf (body i b'))
    → Returns IsBuf (each body (rounds p) 1 b)
each-IsBuf body p b v keep =
    Returns-mono
      (each_inv (λ i b'. (0 < i) × IsBuf b') body (1 + rounds p)
        (λ i b' lt (h, v'). Returns-mono (keep i b' h v') λ b'' v''. (omega arith, v'')) (rounds p)
        1 b refl (omega arith, v))
      λ b' (h, v'). v'

module _ (b : List ℕ) (n s : ℕ) (p : ℤ) (v : IsBuf b) (h : 0 < n) (k : n ≤ max_inp_len) where
  -- One round that puts at most `length a` bytes of `a` at a position.
  put-IsBuf :
      (a : List ℕ) (len i : ℕ) (b' : List ℕ)
      → IsBytes a
      → len ≤ length a
      → len ≤ 2 ^ 32
      → 0 < i
      → IsBuf b'
      → Returns IsBuf (
          read_bytes a 0 (fitting n (position n i s) len) >>= λ bs.
          write_bytes b' (position n i s) bs)
  put-IsBuf a len i b' w le small pos v' =
      let at : ℕ = position n i s in
      let below : at < n = position-lt n i s h pos in
      let (shorter, inside) = fitting_bounds n at len below k small in
      rw (read_bytes-some a 0 (fitting n at len) (omega arith)) (
        write-IsBuf b' at (take (fitting n at len) a) v' (take-IsBytes (fitting n at len) a w)
          (omega (arith, length-prefix a 0 (fitting n at len) (omega arith))))

  pub strat5-safe : (a : List ℕ) → IsBytes a → length a ≤ 2 ^ 32 → Returns IsBuf (strat5 b n s p a)
  unfolding strat5
  strat5-safe a w small =
      each-IsBuf _ p b v λ i b' pos v'. put-IsBuf a (length a) i b' w (omega arith) small pos v'

  pub strat8-safe : (c : ℕ) → c < 256 → Returns IsBuf (strat8 b n s p c)
  unfolding strat8
  strat8-safe c w = each-IsBuf _ p b v λ i b' pos v'.
      let below = position-lt n i s h pos in
      write-IsBuf b' (position n i s) (c ∷ []) v' (w, tt) (omega arith)

  pub strat10-safe : Returns IsBuf (strat10 b n s p)
  unfolding strat10
  strat10-safe = each-IsBuf _ p b v λ i b' pos v'.
      let below = position-lt n i s h pos in
      change-IsBuf (λ c. (c + 1) % 256) (position n i s) b' v' (λ c lt. omega arith) (omega arith)

  pub strat11-safe : Returns IsBuf (strat11 b n s p)
  unfolding strat11
  strat11-safe = each-IsBuf _ p b v λ i b' pos v'.
      let below = position-lt n i s h pos in
      change-IsBuf (λ c. (c + 255) % 256) (position n i s) b' v' (λ c lt. omega arith) (omega arith)

  pub strat6-safe : Returns IsBuf (strat6 b n s p)
  unfolding strat6
  strat6-safe =
      let text = print_int (to_int (hash s)) in
      strat5-safe text (print_int-IsBytes (to_int (hash s)))
        (omega (arith, length-print_int (to_int (hash s))))

  pub strat7-safe : (l : ℕ) → l ≤ max_inp_len → Returns IsBuf (strat7 b n s p l)
  unfolding strat7
  strat7-safe l small =
      let size = v.size in
      let src : ℕ = position n 1 s in
      let below : src < n = position-lt n 1 s h (omega arith) in
      let (shorter, inside) = fitting_bounds n src l below k (omega arith) in
      let found : List ℕ = take (fitting n src l) (drop src b) in
      let found-length : length found ≡ fitting n src l =
        length-prefix b src (fitting n src l) (omega arith) in
      let zeros : List ℕ = replicate max_inp_len 0 in
      let zeros-length : length zeros ≡ max_inp_len = length-replicate {A = ℕ} max_inp_len 0 in
      let substr : List ℕ = splice 0 found zeros in
      let found-bytes = take-IsBytes (fitting n src l) (drop src b) (drop-IsBytes src b v.bytes) in
      rw
        (
          read_bytes-some b src (fitting n src l) (omega arith),
          write_bytes-some zeros 0 found (omega arith),
        )
        (each-IsBuf _ p b v λ i b' pos v'.
          put-IsBuf substr (length found) (i + 1) b'
            (splice-IsBytes 0 found zeros found-bytes
              (replicate-IsBytes max_inp_len 0 (omega arith)))
            (omega (arith, length-splice 0 found zeros)) (omega arith) (omega arith) v')

  flip-byte : (bit c : ℕ) → c < 256 → flip bit c < 256
  flip-byte bit c lt = xor-lt 8 c (2 ^ (bit % 8)) lt (two-pow-lt (bit % 8) 8 (omega arith))

  flips-IsBuf : (l bit : ℕ) (b' : List ℕ) → IsBuf b' → Returns IsBuf (flips n l bit b')
  unfolding flips
  flips-IsBuf zero bit b' v' = returns v'
  flips-IsBuf (suc l) bit b' v' = elim (leb-cases (8 * n) bit) [
    | inl (e, past) ↦ rw e (returns v')
    | inr (e, inside) ↦ rw e (
        Returns-bind (change-IsBuf (flip bit) (bit / 8) b' v' (flip-byte bit) (omega arith))
          λ b'' v''. flips-IsBuf l (bit + 1) b'' v'')
  ]

  pub strat9-safe : (l : ℕ) → Returns IsBuf (strat9 b n s p l)
  unfolding strat9
  strat9-safe l = each-IsBuf _ p b v λ i b' pos v'. flips-IsBuf l (position (8 * n) i s) b' v'
