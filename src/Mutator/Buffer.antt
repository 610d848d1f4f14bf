-- ===== src/Mutator/Buffer.antt =====
-- C arrays of bytes: reads and writes of runs of bytes, `none` where one leaves the array.
use coverage_guided_fuzzer.Prelude.{
  ℕ, zero, suc, ◌+◌, ◌%◌, ◌^◌, Option, none, some, List, [], ◌∷◌, leb, if◌then◌else◌, get_elem?,
  length, take, drop, ◌>>=◌,
}

-- size_t addition
abbrev pub add_size : ℕ → ℕ → ℕ
add_size a b = (a + b) % 2 ^ 64

unfoldable pub overwrite : List ℕ → List ℕ → List ℕ
overwrite [] xs = xs
overwrite (b ∷ bs) [] = []
overwrite (b ∷ bs) (x ∷ xs) = b ∷ overwrite bs xs

-- `bs` laid over `xs` from index `p` on.
unfoldable pub splice : ℕ → List ℕ → List ℕ → List ℕ
unfolding overwrite
splice zero bs xs = overwrite bs xs
splice (suc p) bs [] = []
splice (suc p) bs (x ∷ xs) = x ∷ splice p bs xs

-- `buf[i]` as a value
unfoldable pub read_at : List ℕ → ℕ → Option ℕ
read_at buf i = get_elem? buf i

-- The source of a memcpy of `n` bytes from `buf + p`.
unfoldable pub read_bytes : List ℕ → ℕ → ℕ → Option (List ℕ)
read_bytes buf p n = if leb (p + n) (length buf) then some (take n (drop p buf)) else none

-- The target of a memcpy, of a memset or of an assignment at `buf + p`.
unfoldable pub write_bytes : List ℕ → ℕ → List ℕ → Option (List ℕ)
unfolding splice
write_bytes buf p bs = if leb (p + length bs) (length buf) then some (splice p bs buf) else none

-- for(i = first; n rounds; i++) body(i)
unfoldable pub each : (ℕ → List ℕ → Option (List ℕ)) → ℕ → ℕ → List ℕ → Option (List ℕ)
each body zero i buf = some buf
each body (suc n) i buf = body i buf >>= λ buf'. each body n (i + 1) buf'
