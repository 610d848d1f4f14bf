-- ===== src/Memory.antt =====
-- The heap: queue nodes and inputs at addresses, and commands that read and write them. Address 0
-- is NULL. A command is `none` where C faults: a NULL or dangling pointer, or a double free.
use coverage_guided_fuzzer.Prelude.{
  ℕ, Option, none, some, List, ◌==◌, if◌then◌else◌, Returns, returns,
}
use coverage_guided_fuzzer.Input.{Input}

abbrev pub Ptr : Type 0
Ptr = ℕ

abbrev pub null : Ptr
null = 0

-- `struct node`
pub record Node : Type 0 where
  pub input : Ptr
  pub next : Ptr

abbrev pub node : Ptr → Ptr → Node
node i q = record { input = i; next = q }

pub record Memory : Type 0 where
  pub nodes : Ptr → Option Node
  pub inputs : Ptr → Option Input

abbrev pub Cmd : Type 0 → Type 0
Cmd A = Memory → Option (A × Memory)

abbrev pub pure : {A : Type 0} → A → Cmd A
pure a m = some (a, m)

module _ {A B : Type 0} where
  abbrev pub continue_with : Option (A × Memory) → (A → Cmd B) → Option (B × Memory)
  continue_with none k = none
  continue_with (some (a, m)) k = k a m

  infixl 5 ◌>>=◌ ◌>>◌
  abbrev pub ◌>>=◌ : Cmd A → (A → Cmd B) → Cmd B
  c >>= k = λ m. continue_with (c m) k

  abbrev pub ◌>>◌ : Cmd A → Cmd B → Cmd B
  c >> d = c >>= λ _. d

unfoldable pub write : {A : Type 0} → (Ptr → Option A) → Ptr → Option A → Ptr → Option A
write h p c a = if a == p then c else h a

unfoldable pub load_node : Ptr → Cmd Node
load_node p m = if p == null then none else elim (m.nodes p) [ none ↦ none | some n ↦ some (n, m) ]

-- The node is filled, whether `p` is fresh from malloc or in use.
abbrev pub store_node : Ptr → Node → Cmd (Unit {0})
store_node p n m = some (tt, record m { nodes = write m.nodes p (some n) })

-- `p->next = q`
unfoldable pub set_next : Ptr → Ptr → Cmd (Unit {0})
set_next p q = do n ← load_node p; store_node p (record n { next = q })

-- `input_str(i)`, which strcmp then reads.
unfoldable pub load_str : Ptr → Cmd (List ℕ)
load_str i m =
    if i == null then none else elim (m.inputs i) [ none ↦ none | some x ↦ some (x.str, m) ]

-- `free_input`
unfoldable pub free_input : Ptr → Cmd (Unit {0})
free_input i m = if i == null then some (tt, m) else elim (m.inputs i) [
  | none ↦ none
  | some x ↦ some (tt, record m { inputs = write m.inputs i none })
]

-- A command after one that succeeds.
pub continue-Returns :
    {A B : Type 0} {P : A × Memory → Type 0} {Q : B × Memory → Type 0} {r : Option (A × Memory)}
    {k : A → Cmd B}
    → Returns P r
    → ((a : A) (m : Memory) → P (a, m) → Returns Q (k a m))
    → Returns Q (continue_with r k)
continue-Returns (returns p) next = next _ _ p
