-- ===== src/Mutator/Strategies.antt =====
-- The functions helpr_strat1 to helpr_strat11 of fuzzer/src/mutator.c. Each returns the buffer that
-- it leaves, or `none` where it would read or write outside an array; the first four also set N.
use coverage_guided_fuzzer.Prelude.{
  ℕ, zero, suc, ◌+◌, ◌-◌, ◌*◌, ◌/◌, ◌%◌, ◌^◌, Option, none, some, List, [], ◌∷◌, bit_xor, ltb, leb,
  if◌then◌else◌, length, replicate, ◌>>=◌,
}
use coverage_guided_fuzzer.Prelude.Int.{ℤ, add_one, rounds, to_int, to_size}
use coverage_guided_fuzzer.Prelude.Text.{print_int}
use coverage_guided_fuzzer.Hash.{hash}
use coverage_guided_fuzzer.Mutator.Buffer.{add_size, read_at, read_bytes, write_bytes, each}
use coverage_guided_fuzzer.Mutator.Positions.{max_inp_len, position}

abbrev pub limit : ℕ → ℕ
limit n = if ltb n max_inp_len then n else max_inp_len

-- The loop of helpr_strat1: the rounds left, and `target`.
unfoldable pub grow : ℕ → ℕ → ℕ
grow zero target = target
grow (suc n) target =
    let rest = grow n (target * 2) in if ltb max_inp_len (target * 2) then max_inp_len else rest

-- [1] Fill With Single Character To Length
unfoldable pub strat1 : List ℕ → ℕ → ℤ → Option (List ℕ × ℕ)
strat1 buf n k = do
  let target : ℕ = grow (rounds k) 1
  filled ← if ltb n target then write_bytes buf n (replicate (target - n) b'a') else some buf
  done ← write_bytes filled target (0 ∷ [])
  some (done, target)

-- The `copy_len` of a round of helpr_strat2.
abbrev pub copy_len : ℕ → ℕ → ℕ → ℕ
copy_len n new_len written = if ltb new_len (add_size written n) then new_len - written else n

-- The loop of helpr_strat2: fuel, and `written_len`.
unfoldable pub copies : ℕ → ℕ → ℕ → ℕ → List ℕ → Option (List ℕ)
copies zero n new_len written buf = if ltb written new_len then none else some buf
copies (suc fuel) n new_len written buf =
    let len : ℕ = copy_len n new_len written in
    let round =
      (read_bytes buf 0 len >>= λ bs.
      write_bytes buf written bs >>= λ buf'. copies fuel n new_len (add_size written len) buf') in
    if ltb written new_len then round else some buf

-- [2] Duplicate Input K+1 times. Each round writes a byte at least, so `new_len` rounds suffice.
unfoldable pub strat2 : List ℕ → ℕ → ℤ → Option (List ℕ × ℕ)
strat2 buf n k = do
  let new_len : ℕ = limit (n * to_size (add_one k) % 2 ^ 64)
  copied ← copies new_len n new_len n buf
  done ← write_bytes copied new_len (0 ∷ [])
  some (done, new_len)

-- [3] Lengthen String By L Characters. `new_len - old_N` wraps if N exceeds MAX_INP_LEN.
unfoldable pub strat3 : List ℕ → ℕ → ℕ → ℕ → Option (List ℕ × ℕ)
strat3 buf n s l = do
  let new_len : ℕ = limit (add_size n l)
  longer ←
      each (λ i b. read_at b (position n (i + 1) s) >>= λ c. write_bytes b (n + i) (c ∷ []))
        ((new_len + 2 ^ 64 - n) % 2 ^ 64) 0 buf
  done ← write_bytes longer new_len (0 ∷ [])
  some (done, new_len)

-- [4] Truncate Input
unfoldable pub strat4 : List ℕ → ℕ → ℕ → Option (List ℕ × ℕ)
strat4 buf n s = do
  let new_len : ℕ = position n 1 s
  done ← write_bytes buf new_len (0 ∷ [])
  some (done, new_len)

-- How much of `len` bytes is copied to `pos`.
abbrev pub fitting : ℕ → ℕ → ℕ → ℕ
fitting n pos len = if ltb n (add_size pos len) then (n + 2 ^ 64 - pos) % 2 ^ 64 else len

-- [5] Inject String
unfoldable pub strat5 : List ℕ → ℕ → ℕ → ℤ → List ℕ → Option (List ℕ)
strat5 buf n s p a =
    each
      (λ i b.
        let pos : ℕ = position n i s in
        read_bytes a 0 (fitting n pos (length a)) >>= λ bs. write_bytes b pos bs)
      (rounds p) 1 buf

-- [6] Inject Random Integer String
unfoldable pub strat6 : List ℕ → ℕ → ℕ → ℤ → Option (List ℕ)
unfolding strat5
strat6 buf n s p = strat5 buf n s p (print_int (to_int (hash s)))

-- [7] Inject Random Substring of Length L, through an array of MAX_INP_LEN bytes.
unfoldable pub strat7 : List ℕ → ℕ → ℕ → ℤ → ℕ → Option (List ℕ)
strat7 buf n s p l = do
  let src_pos : ℕ = position n 1 s
  found ← read_bytes buf src_pos (fitting n src_pos l)
  substr ← write_bytes (replicate max_inp_len 0) 0 found
  each
      (λ i b.
        let pos : ℕ = position n (i + 1) s in
        read_bytes substr 0 (fitting n pos (length found)) >>= λ bs. write_bytes b pos bs)
      (rounds p) 1 buf

-- [8] Inject Character
unfoldable pub strat8 : List ℕ → ℕ → ℕ → ℤ → ℕ → Option (List ℕ)
strat8 buf n s p c = each (λ i b. write_bytes b (position n i s) (c ∷ [])) (rounds p) 1 buf

-- One byte read, changed and written back.
unfoldable pub change : (ℕ → ℕ) → ℕ → List ℕ → Option (List ℕ)
change f i b = read_at b i >>= λ c. write_bytes b i (f c ∷ [])

-- `1 << bit_ind` by `^=`
abbrev pub flip : ℕ → ℕ → ℕ
flip bit c = bit_xor c (2 ^ (bit % 8))

-- The inner loop of helpr_strat9: the rounds left, and `bit_pos + j`.
unfoldable pub flips : ℕ → ℕ → ℕ → List ℕ → Option (List ℕ)
flips n zero bit b = some b
flips n (suc rest) bit b =
    let next = (change (flip bit) (bit / 8) b >>= λ b'. flips n rest (bit + 1) b') in
    if leb (8 * n) bit then some b else next

-- [9] Flip L Bits
unfoldable pub strat9 : List ℕ → ℕ → ℕ → ℤ → ℕ → Option (List ℕ)
strat9 buf n s p l = each (λ i b. flips n l (position (8 * n) i s) b) (rounds p) 1 buf

-- [10] Increment Bytes; a char wraps.
unfoldable pub strat10 : List ℕ → ℕ → ℕ → ℤ → Option (List ℕ)
strat10 buf n s p = each (λ i b. change (λ c. (c + 1) % 256) (position n i s) b) (rounds p) 1 buf

-- [11] Decrement Bytes
unfoldable pub strat11 : List ℕ → ℕ → ℕ → ℤ → Option (List ℕ)
strat11 buf n s p = each (λ i b. change (λ c. (c + 255) % 256) (position n i s) b) (rounds p) 1 buf
