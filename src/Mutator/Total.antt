-- ===== src/Mutator/Total.antt =====
-- `mutate` as a whole: it ends, leaves no array, and makes a well-formed input.
use mathlib.Core.Path.{subst}
use mathlib.Core.Option.{some-injective}
use coverage_guided_fuzzer.Prelude.{
  ℕ, zero, suc, ◌+◌, ◌-◌, ◌%◌, ◌^◌, ◌≤◌, ◌<◌, ◌≡◌, refl, Option, some, List, [], ◌∷◌, ◌++◌, ◌==◌,
  get_elem?, get_or, length, length-append, length-take, length-replicate, take, replicate, ◌>>=◌,
  Returns, returns, Returns-bind, Returns-some, Bool-cases, Option-cases, inl, inr, arith, IsBytes,
  append-IsBytes, replicate-IsBytes, take-IsBytes,
}
use coverage_guided_fuzzer.Prelude.Int.{ℤ, add_one, half}
use coverage_guided_fuzzer.Prelude.Text.{c_string-IsText, IsText}
use coverage_guided_fuzzer.Input.{
  Input, Grants, plenty, make_input, input_len, input_mutator_state, input_state_step,
}
use coverage_guided_fuzzer.Mutator.{
  Mutation, fill, duplicate, lengthen, truncate, inject, inject_int, inject_substring, inject_char,
  flip_bits, increment, decrement, cycle, apply, load_buffer, switch, cycle_index, mutate_string,
  mutate,
}
use coverage_guided_fuzzer.Mutator.Positions.{max_inp_len}
use coverage_guided_fuzzer.Mutator.Safety.{IsBuf}
use coverage_guided_fuzzer.Mutator.Safety.Resize.{
  IsSized, strat1-safe, strat2-safe, strat3-safe, strat4-safe,
}
use coverage_guided_fuzzer.Mutator.Safety.Inject.{
  strat5-safe, strat6-safe, strat7-safe, strat8-safe, strat9-safe, strat10-safe, strat11-safe,
}

-- An input as `make_input` makes it: no NUL inside, its length recorded, a 64-bit state.
pub record IsInput (x : Input) : Type 0 where
  pub text : IsText x.str
  pub counted : x.len ≡ length x.str
  pub state_fits : x.state < 2 ^ 64

-- The arguments that the switch gives to its strategies.
abbrev IsSmall : Mutation → Type 0
IsSmall (lengthen l) = l ≤ 8
IsSmall (inject a) = IsBytes a × (length a ≤ 32)
IsSmall (inject_substring l) = l ≤ 8
IsSmall (inject_char c) = c < 256
IsSmall _ = Unit {0}

abbrev AllSmall : List Mutation → Type 0
AllSmall [] = Unit {0}
AllSmall (m ∷ ms) = IsSmall m × AllSmall ms

cycle-AllSmall : AllSmall cycle
cycle-AllSmall = omega arith

get_elem?-IsSmall :
    (ms : List Mutation) (i : ℕ) {m : Mutation} → AllSmall ms → get_elem? ms i ≡ some m → IsSmall m
get_elem?-IsSmall [] i a e = cc
get_elem?-IsSmall (m ∷ ms) zero a e = subst IsSmall (some-injective m _ e) a.0
get_elem?-IsSmall (m ∷ ms) (suc i) a e = get_elem?-IsSmall ms i a.1 e

drop_length :
    {r : Option (List ℕ × ℕ)} → Returns IsSized r → Returns IsBuf (r >>= λ (buf, n). some buf)
drop_length r = Returns-bind r λ (buf, n) (v, le). returns v

apply-safe :
    (m : Mutation) (b : List ℕ) (n s : ℕ) (k p : ℤ)
    → IsSmall m
    → IsBuf b
    → 0 < n
    → n ≤ max_inp_len
    → Returns IsBuf (apply m b n s k p)
unfolding apply
apply-safe fill b n s k p a v h l = drop_length (strat1-safe b n k v l)
apply-safe duplicate b n s k p a v h l = drop_length (strat2-safe b n k v h l)
apply-safe (lengthen j) b n s k p a v h l = drop_length (strat3-safe b n s j v h l (omega arith))
apply-safe truncate b n s k p a v h l = drop_length (strat4-safe b n s v h l)
apply-safe (inject t) b n s k p a v h l = strat5-safe b n s p v h l t a.0 (omega arith)
apply-safe inject_int b n s k p a v h l = strat6-safe b n s p v h l
apply-safe (inject_substring j) b n s k p a v h l = strat7-safe b n s p v h l j (omega arith)
apply-safe (inject_char c) b n s k p a v h l = strat8-safe b n s p v h l c a
apply-safe (flip_bits j) b n s k p a v h l = strat9-safe b n s p v h l j
apply-safe increment b n s k p a v h l = strat10-safe b n s p v h l
apply-safe decrement b n s k p a v h l = strat11-safe b n s p v h l

switch-safe :
    (step : ℕ) (b : List ℕ) (n s : ℕ) (k p : ℤ)
    → IsBuf b
    → 0 < n
    → n ≤ max_inp_len
    → Returns IsBuf (switch step b n s k p)
unfolding switch
switch-safe step b n s k p v h l = elim (Option-cases (get_elem? cycle step)) [
  | inl e ↦ rw (e, switch) (returns v)
  | inr (m, e) ↦
      rw (e, switch) (apply-safe m b n s k p (get_elem?-IsSmall cycle step cycle-AllSmall e) v h l)
]

IsText-IsBytes : (s : List ℕ) → IsText s → IsBytes s
IsText-IsBytes [] t = tt
IsText-IsBytes (b ∷ bs) t = (t.1, IsText-IsBytes bs t.2)

get_or-zeros : (n i : ℕ) → i < n → get_or {A = ℕ} (replicate n 0) i 1 ≡ 0
get_or-zeros zero i h = absurd (omega arith)
get_or-zeros (suc n) zero h = refl
get_or-zeros (suc n) (suc i) h = get_or-zeros n i (omega arith)

get_or-padding :
    (xs : List ℕ) (n i : ℕ)
    → length xs ≤ i
    → i < length xs + n
    → get_or (xs ++ replicate n 0) i 1 ≡ 0
get_or-padding [] n i h k = get_or-zeros n i (omega arith)
get_or-padding (x ∷ xs) n zero h k = absurd (omega arith)
get_or-padding (x ∷ xs) n (suc i) h k = get_or-padding xs n i (omega arith) (omega arith)

pub load_buffer-IsBuf : (s : List ℕ) → IsText s → IsBuf (load_buffer s)
unfolding load_buffer
load_buffer-IsBuf s t =
    let front : List ℕ = take max_inp_len s in
    let rest : ℕ = max_inp_len + 1 - length front in
    let short = length-take max_inp_len s in
    record {
      size = omega (arith, length-append front (replicate rest 0), length-replicate {A = ℕ} rest 0);
      bytes =
          append-IsBytes front (replicate rest 0) (take-IsBytes max_inp_len s (IsText-IsBytes s t))
            (replicate-IsBytes rest 0 (omega arith));
      ends = get_or-padding front rest max_inp_len (omega arith) (omega arith);
    }

mutate_string-safe :
    (str : List ℕ) (n s : ℕ)
    → IsText str
    → 0 < n
    → n ≤ max_inp_len
    → Returns (λ t. IsText t × (length t ≤ max_inp_len)) (mutate_string str n s)
unfolding mutate_string
mutate_string-safe str n s t h l =
    let k = cycle_index s in
    Returns-bind
      (switch-safe (s % 37) (load_buffer str) n s k (half (add_one k)) (load_buffer-IsBuf str t) h
        l)
      λ b v. c_string-IsText b max_inp_len v.bytes v.ends

-- The state of an input after `mutate`.
abbrev pub stepped : Input → Input
stepped x = record x { state = (x.state + 1) % 2 ^ 64 }

-- The string of a mutant, whatever malloc answers for it.
pub mutate-make_input :
    (g : Grants) (x : Input)
    → IsInput x
    → length x.str ≤ max_inp_len
    → (t : List ℕ) × (mutate g (some x) ≡ some (make_input g (some t), some (stepped x)))
      × IsText t
      × (length t ≤ max_inp_len)
unfolding mutate input_len input_mutator_state input_state_step
mutate-make_input g x v short = elim (Bool-cases (x.len == 0)) [
  | inl empty ↦ ([], rw empty refl, tt, omega arith)
  | inr some_bytes ↦
      let counted = v.counted in
      let (t, e, (text, le)) =
        Returns-some (mutate_string-safe x.str x.len x.state v.text (ground arith) (omega arith)) in
      (t, rw (some_bytes, e), text, le)
]

-- For every well-formed input of at most 1024 bytes and every state, `mutate` ends without leaving
-- an array. If malloc grants the new input, that is well formed, has at most 1024 bytes and state
-- 0, and the given input keeps its string and has its state stepped.
pub mutate-total :
    (x : Input)
    → IsInput x
    → length x.str ≤ max_inp_len
    → (y : Input) × (mutate plenty (some x) ≡ some (some y, some (stepped x)))
      × IsInput y
      × (length y.str ≤ max_inp_len)
      × (y.state ≡ 0)
unfolding make_input
mutate-total x v short =
    let (t, e, text, le) = mutate-make_input plenty x v short in
    (
      record { str = t; len = length t; state = 0 },
      e,
      record { text = text; counted = refl; state_fits = omega arith },
      le,
      refl,
    )
