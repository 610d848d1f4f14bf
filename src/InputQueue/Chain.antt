-- ===== src/InputQueue/Chain.antt =====
-- Linked lists in the heap: what a queue's nodes are, and how one more is put at the end.
use mathlib.Core.Bool.{or_assoc}
use coverage_guided_fuzzer.Prelude.{
  ◌≡◌, ◌≢◌, refl, ap, ◌⊎◌, inl, inr, Bool, true, false, ◌||◌, Option, some, List, [], ◌∷◌, ◌++◌,
  ◌==◌, length, arith, Bool-cases, ==_iff,
}
use coverage_guided_fuzzer.Memory.{Ptr, null, Node, node, Memory, write, load_node, set_next}
use coverage_guided_fuzzer.InputQueue.{Queue}

-- Address and input of each node, in order.
abbrev pub Cells : Type 0
Cells = List (Ptr × Ptr)

abbrev pub first : Cells → Ptr
first [] = null
first ((a, i) ∷ xs) = a

abbrev pub last : Cells → Ptr
last [] = null
last ((a, i) ∷ []) = a
last ((a, i) ∷ y ∷ ys) = last (y ∷ ys)

abbrev pub has : Ptr → Cells → Bool
has p [] = false
has p ((a, i) ∷ xs) = (p == a) || has p xs

-- Distinct nodes that hold these inputs, each linked to the next and the last to NULL.
abbrev pub Chain : (Ptr → Option Node) → Cells → Type 0
Chain h [] = Unit {0}
Chain h ((a, i) ∷ xs) =
    (a ≢ null) × (h a ≡ some (node i (first xs))) × (has a xs ≡ false) × Chain h xs

pub record IsQueue (m : Memory) (q : Queue) (xs : Cells) : Type 0 where
  pub chain : Chain m.nodes xs
  pub head : q.head ≡ first xs
  pub tail : q.tail ≡ last xs
  pub len : q.len ≡ length xs

pub has-append : (p : Ptr) (xs ys : Cells) → has p (xs ++ ys) ≡ (has p xs || has p ys)
has-append p [] ys = refl
has-append p ((a, i) ∷ xs) ys = rw (has-append p xs ys, or_assoc)

-- A chain does not see a change at another address.
pub Chain-frame :
    (h g : Ptr → Option Node) (xs : Cells)
    → ((a : Ptr) → has a xs ≡ true → g a ≡ h a)
    → Chain h xs
    → Chain g xs
Chain-frame h g [] same c = tt
Chain-frame h g ((a, i) ∷ xs) same c =
    (c.0, ground (arith, same a), c.2, Chain-frame h g xs (λ b e. same b (ground (arith, e))) c.3)

pub Chain-write :
    (h : Ptr → Option Node) (xs : Cells) (p : Ptr) (v : Option Node)
    → has p xs ≡ false
    → Chain h xs
    → Chain (write h p v) xs
unfolding write
Chain-write h xs p v out c =
    Chain-frame h (write h p v) xs (λ a e. away a e (Bool-cases (a == p))) c
  where
    away :
        (a : Ptr) → has a xs ≡ true → ((a == p) ≡ true) ⊎ ((a == p) ≡ false) → write h p v a ≡ h a
    away a e (inl s) = let same = (==_iff a p).0 s in cc
    away a e (inr s) = rw s

first-snoc :
    (xs : Cells) (t j : Ptr) (ys zs : Cells) → first (xs ++ (t, j) ∷ ys) ≡ first (xs ++ (t, j) ∷ zs)
first-snoc [] t j ys zs = refl
first-snoc ((a, i) ∷ xs) t j ys zs = refl

pub first-append :
    (xs : Cells) (t j : Ptr) (ys : Cells)
    → first (xs ++ (t, j) ∷ []) ≡ first ((xs ++ (t, j) ∷ []) ++ ys)
first-append [] t j ys = refl
first-append ((a, i) ∷ xs) t j ys = refl

pub last-snoc : (xs : Cells) (t j : Ptr) → last (xs ++ (t, j) ∷ []) ≡ t
last-snoc [] t j = refl
last-snoc ((a, i) ∷ []) t j = refl
last-snoc ((a, i) ∷ x ∷ xs) t j = last-snoc (x ∷ xs) t j

pub snoc-cases :
    (xs : Cells) → (xs ≡ []) ⊎ ((ys : Cells) × (t : Ptr) × (j : Ptr) × (xs ≡ ys ++ (t, j) ∷ []))
snoc-cases [] = inl refl
snoc-cases ((a, i) ∷ xs) = inr (go (snoc-cases xs))
  where
    go :
        (xs ≡ []) ⊎ ((ys : Cells) × (t : Ptr) × (j : Ptr) × (xs ≡ ys ++ (t, j) ∷ []))
        → (ys : Cells) × (t : Ptr) × (j : Ptr) × ((a, i) ∷ xs ≡ ys ++ (t, j) ∷ [])
    go (inl e) = ([], a, i, ap (λ (r : Cells). (a, i) ∷ r) e)
    go (inr (ys, t, j, e)) = ((a, i) ∷ ys, t, j, ap (λ (r : Cells). (a, i) ∷ r) e)

-- The last node linked to one that stands alone.
pub link-Chain :
    (h : Ptr → Option Node) (xs : Cells) (t j f i : Ptr)
    → f ≢ null
    → h f ≡ some (node i null)
    → has f (xs ++ (t, j) ∷ []) ≡ false
    → Chain h (xs ++ (t, j) ∷ [])
    → Chain (write h t (some (node j f))) (xs ++ (t, j) ∷ (f, i) ∷ [])
unfolding write
link-Chain h [] t j f i ne e out c = (c.0, ground arith, ground arith, (ne, ground arith, refl, tt))
link-Chain h ((a, k) ∷ xs) t j f i ne e out c = (
  c.0,
  ground (arith, has-append a xs ((t, j) ∷ []), first-snoc xs t j [] ((f, i) ∷ [])),
  ground (arith, has-append a xs ((t, j) ∷ []), has-append a xs ((t, j) ∷ (f, i) ∷ [])),
  link-Chain h xs t j f i ne e (ground arith) c.3,
)

-- What `attach` leaves: the queue with the node at its end, and every other address as it was.
pub record Attached (m : Memory) (xs : Cells) (f i : Ptr) (r : Queue × Memory) : Type 0 where
  pub queue : IsQueue r.1 r.0 (xs ++ (f, i) ∷ [])
  pub inputs : r.1.inputs ≡ m.inputs
  pub spared : (a : Ptr) → has a xs ≡ false → r.1.nodes a ≡ m.nodes a

pub load_node-some :
    (p : Ptr) (n : Node) (m : Memory) → p ≢ null → m.nodes p ≡ some n → load_node p m ≡ some (n, m)
unfolding load_node
load_node-some p n m ne e = ground (arith, e)

pub set_next-some :
    (p q : Ptr) (n : Node) (m : Memory)
    → p ≢ null
    → m.nodes p ≡ some n
    → set_next p q m ≡ some (tt, record m { nodes = write m.nodes p (some (node n.input q)) })
unfolding set_next
set_next-some p q n m ne e = rw (load_node-some p n m ne e)
