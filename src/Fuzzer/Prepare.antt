-- ===== src/Fuzzer/Prepare.antt =====
-- The input that is sent to a runner: what `prepare` does to the heap.
use mathlib.Core.Option.{some-injective}
use coverage_guided_fuzzer.Prelude.{
  ℕ, ◌≤◌, ◌≡◌, ◌≢◌, refl, sym, ap, ◌∙◌, ◌⊎◌, inl, inr, true, none, some, Option, List, ◌==◌,
  ==_refl, ==_iff, length, arith, Bool-cases, Returns, returns,
}
use coverage_guided_fuzzer.Prelude.Text.{IsText}
use coverage_guided_fuzzer.Input.{Input, make_input, input_state_step}
use coverage_guided_fuzzer.Mutator.Positions.{max_inp_len}
use coverage_guided_fuzzer.Mutator.Total.{stepped, mutate-make_input}
use coverage_guided_fuzzer.Memory.{Ptr, null, Memory, write}
use coverage_guided_fuzzer.InputQueue.Duplicates.{Holds}
use coverage_guided_fuzzer.InputQueue.Sound.{IsShort}
use coverage_guided_fuzzer.Fuzzer.{Allocator, next_input, grants_at, store_input, prepare}

abbrev pub InMemory : Memory → Ptr → Type 0
InMemory m j = (x : Input) × Holds m j x × IsShort x

-- malloc's answer for an input.
abbrev pub IsNew : Memory → Ptr → Type 0
IsNew m p = (p ≡ null) ⊎ ((p ≢ null) × (m.inputs p ≡ none))

-- What comes of a request for an input at `p`.
abbrev pub Made : Ptr → Option Input → Type 0
Made p o = ((o ≡ none) × (p ≡ null)) ⊎ ((p ≢ null) × ((y : Input) × (o ≡ some y) × IsShort y))

pub make_input-Made :
    (p : Ptr) (t : List ℕ)
    → IsText t
    → length t ≤ max_inp_len
    → Made p (make_input (grants_at p) (some t))
unfolding make_input
make_input-Made p t text le = elim (Bool-cases (p == null)) [
  | inl e ↦ inl (rw e refl, (==_iff p null).0 e)
  | inr e ↦ inr (
    ground (arith, e),
    (
      record { str = t; len = length t; state = 0 },
      rw e refl,
      (record { text = text; counted = refl; state_fits = omega arith }, le),
    ),
  )
]

stepped-IsShort : (x : Input) → IsShort x → IsShort (stepped x)
stepped-IsShort x (v, le) =
    (record { text = v.text; counted = v.counted; state_fits = omega arith }, le)

-- A new input at most, and the given one stepped.
pub next_input-Made :
    (p : Ptr) (x : Input)
    → IsShort x
    → (o : Option Input) × (next_input (grants_at p) (some x) ≡ some (o, some (stepped x)))
      × Made p o
unfolding next_input input_state_step
next_input-Made p x (v, le) = elim (Bool-cases (x.state == 0)) [
  | inl e ↦ (make_input (grants_at p) (some x.str), rw e refl, make_input-Made p x.str v.text le)
  | inr e ↦
      let (t, is, text, short) = mutate-make_input (grants_at p) x v le in
      (make_input (grants_at p) (some t), rw (e, is) refl, make_input-Made p t text short)
]

-- The input is still there, with its string.
abbrev pub StillThere : Memory → Ptr → Input → Type 0
StillThere m' j x = (x' : Input) × Holds m' j x' × IsShort x' × (x'.str ≡ x.str)

abbrev pub NoneLost : Memory → Memory → Type 0
NoneLost m m' = (j : Ptr) (x : Input) → Holds m j x → IsShort x → StillThere m' j x

-- No input is lost, no node changes, and the input to send is NULL or a new one.
abbrev pub Prepared : Memory → Ptr × Memory → Type 0
Prepared m (to_send, m') =
    NoneLost m m'
    × (m'.nodes ≡ m.nodes)
    × ((to_send ≡ null) ⊎ (InMemory m' to_send × (m.inputs to_send ≡ none)))

module _ (m : Memory) (i : Ptr) (x : Input) (held : Holds m i x) (short : IsShort x) where
  abbrev after : Memory
  after = record m { inputs = write m.inputs i (some (stepped x)) }

  stepped-NoneLost : NoneLost m after
  unfolding write
  stepped-NoneLost j y h k = elim (Bool-cases (j == i)) [
    | inl e ↦ (
      stepped x,
      record { given = h.given; at = rw e refl },
      stepped-IsShort x short,
      ap (λ (z : Input). z.str)
          (some-injective x y (sym held.at ∙ ap m.inputs (sym ((==_iff j i).0 e)) ∙ h.at)),
    )
    | inr e ↦ (y, record { given = h.given; at = rw e h.at }, k, refl)
  ]

  abbrev with_new : Ptr → Input → Memory
  with_new p y = record after { inputs = write after.inputs p (some y) }

  new-NoneLost : (p : Ptr) (y : Input) → m.inputs p ≡ none → NoneLost m (with_new p y)
  unfolding write
  new-NoneLost p y free j z h k =
      let (z', h', k', text) = stepped-NoneLost j z h k in
      (z', record { given = h.given; at = kept h'.at }, k', text)
    where
      kept : {z' : Input} → after.inputs j ≡ some z' → (with_new p y).inputs j ≡ some z'
      kept at = elim (Bool-cases (j == p)) [
        | inl e ↦
            let no : none ≡ some z = sym free ∙ ap m.inputs (sym ((==_iff j p).0 e)) ∙ h.at in cc
        | inr e ↦ rw e at
      ]

  stored : (p : Ptr) (o : Option Input) → Made p o → IsNew m p → Prepared m (store_input p o after)
  unfolding write
  stored p o (inl (e, n)) new = rw e (stepped-NoneLost, refl, inl refl)
  stored p o (inr (ne, (y, e, k))) new =
      let free : m.inputs p ≡ none = elim new [ inl n ↦ absurd (ne n) | inr (there, f) ↦ f ] in
      let here : (p == p) ≡ true = ==_refl p in
      rw e
        (new-NoneLost p y free, refl, inr ((y, record { given = ne; at = rw here refl }, k), free))

  pub prepare-Prepared :
      (alloc : Allocator) → IsNew m (alloc.input_at m) → Returns (Prepared m) (prepare alloc i m)
  unfolding prepare
  prepare-Prepared alloc new =
      let (o, e, made) = next_input-Made (alloc.input_at m) x short in
      rw (held.at, e) (returns (stored (alloc.input_at m) o made new))
