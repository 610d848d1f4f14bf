-- ===== src/Mutator/Safety.antt =====
-- Each strategy stays inside its arrays, if N is positive and at most MAX_INP_LEN.
-- Here are the buffer's invariant and the single reads and writes; the strategies are below.
pub mod Resize
pub mod Inject
use coverage_guided_fuzzer.Prelude.{
  ℕ, zero, suc, ◌+◌, ◌-◌, ◌*◌, ◌/◌, ◌%◌, ◌^◌, ◌≤◌, ◌<◌, ◌≡◌, refl, ap, inl, inr, Option, none, some,
  List, [], ◌∷◌, ltb, leb, le→leb, if◌then◌else◌, get_or, length, take, drop, min, length-take,
  length-drop, length-replicate, replicate, replicate-IsBytes, take-IsBytes, drop-IsBytes,
  get_or-lt, IsBytes, ◌>>=◌, Returns, returns, Returns-bind, Returns-mono, arith, Bool-cases,
  ltb-cases, leb-cases,
}
use native.Mathlib.Decide.{dec_lt}
use coverage_guided_fuzzer.Prelude.Bits.{xor-lt}
use coverage_guided_fuzzer.Prelude.Bits.Digits.{two-pow-lt}
use coverage_guided_fuzzer.Prelude.Int.{ℤ, rounds, add_one, to_size}
use coverage_guided_fuzzer.Mutator.Buffer.{add_size, splice, read_at, read_bytes, write_bytes, each}
use coverage_guided_fuzzer.Mutator.BufferLaws.{
  length-splice, splice-IsBytes, get_or-splice_before, get_or-splice_after, get_or-splice_in,
  write_bytes-some, read_bytes-some, read_at-some, each_inv,
}
use coverage_guided_fuzzer.Mutator.Positions.{max_inp_len, position}
use coverage_guided_fuzzer.Mutator.PositionLaws.{position-lt}
use coverage_guided_fuzzer.Mutator.Strategies.{
  limit, grow, strat1, copy_len, copies, strat2, strat3, strat4, fitting, strat5, strat6, strat7,
  strat8, change, flip, flips, strat9, strat10, strat11,
}

-- `char buf[MAX_INP_LEN + 1]` with a NUL in its last cell.
pub record IsBuf (b : List ℕ) : Type 0 where
  pub size : length b ≡ max_inp_len + 1
  pub bytes : IsBytes b
  pub ends : get_or b max_inp_len 1 ≡ 0

pub write-IsBuf :
    (b : List ℕ) (p : ℕ) (bs : List ℕ)
    → IsBuf b
    → IsBytes bs
    → p + length bs ≤ max_inp_len
    → Returns IsBuf (write_bytes b p bs)
write-IsBuf b p bs v w h =
    let size = v.size in
    rw (write_bytes-some b p bs (omega arith)) (
      returns (record {
        size = omega (arith, length-splice p bs b);
        bytes = splice-IsBytes p bs b w v.bytes;
        ends = omega (arith, get_or-splice_after p bs b max_inp_len 1 h, v.ends);
      }))

-- `buf[p] = 0`
pub close-IsBuf :
    (b : List ℕ) (p : ℕ) → IsBuf b → p ≤ max_inp_len → Returns IsBuf (write_bytes b p (0 ∷ []))
close-IsBuf b p v h =
    let size = v.size in
    rw (write_bytes-some b p (0 ∷ []) (omega arith)) (
      returns (record {
        size = omega (arith, length-splice p (0 ∷ []) b);
        bytes = splice-IsBytes p (0 ∷ []) b (omega arith) v.bytes;
        ends = elim (dec_lt p max_inp_len) [
          | yes lt ↦
              omega (arith, get_or-splice_after p (0 ∷ []) b max_inp_len 1 (omega arith), v.ends)
          | no ge ↦
              get_or-splice_in p (0 ∷ []) b 0 max_inp_len 1 (omega arith) (omega arith)
                (omega arith)
        ];
      }))

pub change-IsBuf :
    (f : ℕ → ℕ) (i : ℕ) (b : List ℕ)
    → IsBuf b
    → ((c : ℕ) → c < 256 → f c < 256)
    → i < max_inp_len
    → Returns IsBuf (change f i b)
unfolding change
change-IsBuf f i b v keep h =
    let size = v.size in
    rw (read_at-some b i (omega arith)) (
      write-IsBuf b i (f (get_or b i 0) ∷ []) v (keep (get_or b i 0) (get_or-lt b i v.bytes), tt)
        (omega arith))

-- Where a run of bytes put at `pos` is cut at N.
pub fitting_bounds :
    (n pos len : ℕ)
    → pos < n
    → n ≤ max_inp_len
    → len ≤ 2 ^ 32
    → (fitting n pos len ≤ len) × (pos + fitting n pos len ≤ n)
fitting_bounds n pos len h k l = elim (dec_lt n (pos + len)) [
  | yes over ↦ ground arith
  | no fits ↦ ground arith
]

pub length-prefix : (b : List ℕ) (p n : ℕ) → p + n ≤ length b → length (take n (drop p b)) ≡ n
length-prefix b p n h = omega (arith, length-take n (drop p b), length-drop p b)
