-- ===== src/Mutator/BufferLaws.antt =====
-- What a write leaves in an array, and when reads and writes stay inside it.
use coverage_guided_fuzzer.Prelude.{
  ℕ, zero, suc, ◌+◌, ◌≤◌, ◌<◌, ◌≡◌, refl, ap, Option, some, List, [], ◌∷◌, le→leb, get_or, length,
  take, drop, get_elem?-eq-get_or, IsBytes, Returns, returns, Returns-bind, arith,
}
use coverage_guided_fuzzer.Mutator.Buffer.{
  overwrite, splice, read_at, read_bytes, write_bytes, each,
}

length-overwrite : (bs xs : List ℕ) → length (overwrite bs xs) ≡ length xs
unfolding overwrite
length-overwrite [] xs = refl
length-overwrite (b ∷ bs) [] = refl
length-overwrite (b ∷ bs) (x ∷ xs) = ap suc (length-overwrite bs xs)

pub length-splice : (p : ℕ) (bs xs : List ℕ) → length (splice p bs xs) ≡ length xs
unfolding splice
length-splice zero bs xs = length-overwrite bs xs
length-splice (suc p) bs [] = refl
length-splice (suc p) bs (x ∷ xs) = ap suc (length-splice p bs xs)

overwrite-IsBytes : (bs xs : List ℕ) → IsBytes bs → IsBytes xs → IsBytes (overwrite bs xs)
unfolding overwrite
overwrite-IsBytes [] xs v w = w
overwrite-IsBytes (b ∷ bs) [] v w = tt
overwrite-IsBytes (b ∷ bs) (x ∷ xs) v w = (v.0, overwrite-IsBytes bs xs v.1 w.1)

pub splice-IsBytes : (p : ℕ) (bs xs : List ℕ) → IsBytes bs → IsBytes xs → IsBytes (splice p bs xs)
unfolding splice
splice-IsBytes zero bs xs v w = overwrite-IsBytes bs xs v w
splice-IsBytes (suc p) bs [] v w = tt
splice-IsBytes (suc p) bs (x ∷ xs) v w = (w.0, splice-IsBytes p bs xs v w.1)

-- A cell before the bytes written, after them, and among them.
pub get_or-splice_before :
    (p : ℕ) (bs xs : List ℕ) (i d : ℕ) → i < p → get_or (splice p bs xs) i d ≡ get_or xs i d
unfolding splice
get_or-splice_before zero bs xs i d h = absurd (omega arith)
get_or-splice_before (suc p) bs [] i d h = refl
get_or-splice_before (suc p) bs (x ∷ xs) zero d h = refl
get_or-splice_before (suc p) bs (x ∷ xs) (suc i) d h =
    get_or-splice_before p bs xs i d (omega arith)

get_or-overwrite_after :
    (bs xs : List ℕ) (i d : ℕ) → length bs ≤ i → get_or (overwrite bs xs) i d ≡ get_or xs i d
unfolding overwrite
get_or-overwrite_after [] xs i d h = refl
get_or-overwrite_after (b ∷ bs) [] i d h = refl
get_or-overwrite_after (b ∷ bs) (x ∷ xs) zero d h = absurd (omega arith)
get_or-overwrite_after (b ∷ bs) (x ∷ xs) (suc i) d h =
    get_or-overwrite_after bs xs i d (omega arith)

pub get_or-splice_after :
    (p : ℕ) (bs xs : List ℕ) (i d : ℕ)
    → p + length bs ≤ i
    → get_or (splice p bs xs) i d ≡ get_or xs i d
unfolding splice
get_or-splice_after zero bs xs i d h = get_or-overwrite_after bs xs i d (omega arith)
get_or-splice_after (suc p) bs [] i d h = refl
get_or-splice_after (suc p) bs (x ∷ xs) zero d h = absurd (omega arith)
get_or-splice_after (suc p) bs (x ∷ xs) (suc i) d h = get_or-splice_after p bs xs i d (omega arith)

get_or-overwrite_in :
    (bs xs : List ℕ) (i d : ℕ)
    → i < length bs
    → i < length xs
    → get_or (overwrite bs xs) i d ≡ get_or bs i d
unfolding overwrite
get_or-overwrite_in [] xs i d h k = absurd (omega arith)
get_or-overwrite_in (b ∷ bs) [] i d h k = absurd (omega arith)
get_or-overwrite_in (b ∷ bs) (x ∷ xs) zero d h k = refl
get_or-overwrite_in (b ∷ bs) (x ∷ xs) (suc i) d h k =
    get_or-overwrite_in bs xs i d (omega arith) (omega arith)

-- Cell `p + i` holds byte `i` of those written.
pub get_or-splice_in :
    (p : ℕ) (bs xs : List ℕ) (i j d : ℕ)
    → j ≡ p + i
    → i < length bs
    → j < length xs
    → get_or (splice p bs xs) j d ≡ get_or bs i d
unfolding splice
get_or-splice_in zero bs xs i j d e h k =
    let e' : j ≡ i = omega arith in rw e' (get_or-overwrite_in bs xs i d h (omega arith))
get_or-splice_in (suc p) bs [] i j d e h k = absurd (omega arith)
get_or-splice_in (suc p) bs (x ∷ xs) i zero d e h k = absurd (omega arith)
get_or-splice_in (suc p) bs (x ∷ xs) i (suc j) d e h k =
    get_or-splice_in p bs xs i j d (omega arith) h (omega arith)

pub write_bytes-some :
    (buf : List ℕ) (p : ℕ) (bs : List ℕ)
    → p + length bs ≤ length buf
    → write_bytes buf p bs ≡ some (splice p bs buf)
unfolding write_bytes
write_bytes-some buf p bs h = rw (le→leb (p + length bs) (length buf) h)

pub read_bytes-some :
    (buf : List ℕ) (p n : ℕ) → p + n ≤ length buf → read_bytes buf p n ≡ some (take n (drop p buf))
unfolding read_bytes
read_bytes-some buf p n h = rw (le→leb (p + n) (length buf) h)

pub read_at-some : (buf : List ℕ) (i : ℕ) → i < length buf → read_at buf i ≡ some (get_or buf i 0)
unfolding read_at
read_at-some buf i h = get_elem?-eq-get_or buf i 0 h

-- The invariant rule for a counted loop, up to but not including the round `last`.
pub each_inv :
    (P : ℕ → List ℕ → Type 0) (body : ℕ → List ℕ → Option (List ℕ)) (last : ℕ)
    → ((i : ℕ) (b : List ℕ) → i < last → P i b → Returns (P (i + 1)) (body i b))
    → (n i : ℕ) (b : List ℕ) → i + n ≡ last
    → P i b
    → Returns (P last) (each body n i b)
unfolding each
each_inv P body last keep zero i b e h = let e' : i ≡ last = omega arith in returns (rw (← e') h)
each_inv P body last keep (suc n) i b e h =
    Returns-bind (keep i b (omega arith) h)
      λ b' h'. each_inv P body last keep n (i + 1) b' (omega arith) h'
