-- ===== src/Mutator/Overflow.antt =====
-- What `mutate` does with an input of more than MAX_INP_LEN bytes, which a seed may have.
use coverage_guided_fuzzer.Prelude.{
  ℕ, zero, suc, ◌+◌, ◌-◌, ◌%◌, ◌^◌, ◌≤◌, ◌<◌, ◌≡◌, Option, none, some, List, [], ◌∷◌, ◌==◌,
  leb-cases, length, ◌⊎◌, ◌>>=◌, Bool-cases, Option-cases, inl, inr, arith,
}
use coverage_guided_fuzzer.Input.{Input, Grants, input_len, input_mutator_state}
use coverage_guided_fuzzer.Mutator.{apply, load_buffer, switch, mutate_string, mutate}
use coverage_guided_fuzzer.Mutator.Buffer.{add_size, read_at, write_bytes, each}
use coverage_guided_fuzzer.Mutator.Positions.{max_inp_len, position}
use coverage_guided_fuzzer.Mutator.Strategies.{limit, strat3}
use coverage_guided_fuzzer.Mutator.Total.{IsInput, load_buffer-IsBuf}

write_bytes-none : (b : List ℕ) (p c : ℕ) → length b ≤ p → write_bytes b p (c ∷ []) ≡ none
unfolding write_bytes
write_bytes-none b p c h = elim (leb-cases (p + 1) (length b)) [
  | inl (e, le) ↦ absurd (omega arith)
  | inr (e, lt) ↦ rw e
]

-- The first round of a loop that faults ends it.
each-none :
    (body : ℕ → List ℕ → Option (List ℕ)) (n i : ℕ) (b : List ℕ)
    → 0 < n
    → body i b ≡ none
    → each body n i b ≡ none
unfolding each
each-none body zero i b h e = absurd (omega arith)
each-none body (suc n) i b h e = rw e

strat3-none :
    (b : List ℕ) (n s l : ℕ)
    → length b ≡ max_inp_len + 1
    → max_inp_len < n
    → n < 2 ^ 63
    → 0 < l
    → l ≤ 8
    → strat3 b n s l ≡ none
unfolding strat3
strat3-none b n s l size over fits h k =
    let count : ℕ = (limit (add_size n l) + 2 ^ 64 - n) % 2 ^ 64 in
    rw (each-none _ count 0 b (ground arith) (first (Option-cases (read_at b (position n 1 s)))))
  where
    first :
        (read_at b (position n 1 s) ≡ none) ⊎ ((c : ℕ) × (read_at b (position n 1 s) ≡ some c))
        → (read_at b (position n (0 + 1) s) >>= λ c. write_bytes b (n + 0) (c ∷ [])) ≡ none
    first (inl e) = rw e
    first (inr (c, e)) = rw e (write_bytes-none b (n + 0) c (omega arith))

mutate_string-none :
    (str : List ℕ) (n s : ℕ)
    → length (load_buffer str) ≡ max_inp_len + 1
    → max_inp_len < n
    → n < 2 ^ 63
    → s % 37 ≡ 2
    → mutate_string str n s ≡ none
unfolding mutate_string switch apply
mutate_string-none str n s size over fits case =
    rw (case, strat3-none (load_buffer str) n s 4 size over fits (omega arith) (omega arith))

-- For an input of more than 1024 bytes and less than 2 ^ 63, whose state asks for case 2 of the switch,
-- the loop of helpr_strat3 writes past the end of `buf`.
pub mutate-overflow :
    (g : Grants) (x : Input)
    → IsInput x
    → max_inp_len < length x.str
    → length x.str < 2 ^ 63
    → x.state % 37 ≡ 2
    → mutate g (some x) ≡ none
unfolding mutate input_len input_mutator_state
mutate-overflow g x v over fits case = elim (Bool-cases (x.len == 0)) [
  | inl empty ↦ let counted = v.counted in absurd (ground arith)
  | inr some_bytes ↦
      let counted = v.counted in
      let size = (load_buffer-IsBuf x.str v.text).size in
      rw (some_bytes, mutate_string-none x.str x.len x.state size (omega arith) (omega arith) case)
]
