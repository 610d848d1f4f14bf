-- ===== src/RunnerPool/Remove.antt =====
-- Arrays with a count, as lists; `helpr_remove_runner` removes the first cell that is the victim.
use coverage_guided_fuzzer.Prelude.{
  ℕ, suc, ◌+◌, ◌-◌, ◌<◌, ◌≡◌, refl, sym, ap, ap₂, ◌∙◌, inl, inr, some, List, [], ◌∷◌, ◌++◌, ◌==◌,
  if◌then◌else◌, get_elem?, length, length-append, arith, Bool-cases, Returns, returns,
}
use coverage_guided_fuzzer.Memory.{Ptr}
use coverage_guided_fuzzer.RunnerPool.{
  Slots, set_elem, shift, remove_from, helpr_remove_runner, put,
}

-- The list without the first element that is `r`.
abbrev pub erase : Ptr → List Ptr → List Ptr
erase r [] = []
erase r (a ∷ as') = if a == r then as' else a ∷ erase r as'

abbrev slots : List Ptr → ℕ → Slots
slots cells n = record { cells = cells; count = n }

-- The first cells of the array are this list, and the array has `size` cells.
pub record IsSlots (size : ℕ) (s : Slots) (xs : List Ptr) : Type 0 where
  pub spare : List Ptr
  pub cells : s.cells ≡ xs ++ spare
  pub count : s.count ≡ length xs
  pub size_is : length s.cells ≡ size

pub get_elem?-append :
    (pre : List Ptr) (x : Ptr) (post : List Ptr) → get_elem? (pre ++ x ∷ post) (length pre) ≡ some x
get_elem?-append [] x post = refl
get_elem?-append (a ∷ pre) x post = get_elem?-append pre x post

set_elem-append :
    (pre : List Ptr) (x y : Ptr) (post : List Ptr)
    → set_elem (pre ++ x ∷ post) (length pre) y ≡ some (pre ++ y ∷ post)
unfolding set_elem
set_elem-append [] x y post = refl
set_elem-append (a ∷ pre) x y post = rw (set_elem-append pre x y post)

get_elem?-next :
    (pre : List Ptr) (gap x : Ptr) (post : List Ptr)
    → get_elem? (pre ++ (gap ∷ x ∷ post)) (suc (length pre)) ≡ some x
get_elem?-next [] gap x post = refl
get_elem?-next (a ∷ pre) gap x post = get_elem?-next pre gap x post

pub snoc_append :
    (pre : List Ptr) (x : Ptr) (ys : List Ptr) → (pre ++ x ∷ []) ++ ys ≡ pre ++ (x ∷ ys)
snoc_append [] x ys = refl
snoc_append (a ∷ pre) x ys = ap (λ (zs : List Ptr). a ∷ zs) (snoc_append pre x ys)

pub length-snoc : (pre : List Ptr) (x : Ptr) → length (pre ++ x ∷ []) ≡ suc (length pre)
length-snoc pre x = omega (arith, length-append pre (x ∷ []))

-- The rounds of the inner loop move the elements after a gap down by one.
shift-gap :
    (pre : List Ptr) (gap : Ptr) (xs spare : List Ptr)
    → (spare' : List Ptr) × (shift (length xs) (length pre) (pre ++ (gap ∷ (xs ++ spare)))
        ≡ some (pre ++ (xs ++ spare')))
      × (length spare' ≡ suc (length spare))
unfolding shift
shift-gap pre gap [] spare = (gap ∷ spare, refl, refl)
shift-gap pre gap (x ∷ xs) spare =
    let (spare', e, n) = shift-gap (pre ++ x ∷ []) x xs spare in
    (
      spare',
      (rw
          (
            get_elem?-next pre gap x (xs ++ spare),
            set_elem-append pre gap x (x ∷ (xs ++ spare)),
            sym (length-snoc pre x),
            sym (snoc_append pre x (x ∷ (xs ++ spare))),
            sym (snoc_append pre x (xs ++ spare')),
          )
          e),
      n,
    )

-- The search, from the cells that it has passed on.
remove_from-erase :
    (pre xs spare : List Ptr) (r : Ptr)
    → (spare' : List Ptr) × (remove_from
          (length xs)
          (length pre)
          r
          (slots (pre ++ (xs ++ spare)) (length pre + length xs))
        ≡ some (slots (pre ++ (erase r xs ++ spare')) (length pre + length (erase r xs))))
      × (length (erase r xs) + length spare' ≡ length xs + length spare)
unfolding remove_from
remove_from-erase pre [] spare r = (spare, refl, refl)
remove_from-erase pre (x ∷ xs) spare r = elim (Bool-cases (x == r)) [
  | inl e ↦
      let (spare', moved, n) = shift-gap pre x xs spare in
      let count : length pre + suc (length xs) - 1 ≡ length pre + length xs = omega arith in
      (spare', rw (get_elem?-append pre x (xs ++ spare), e, moved, count), rw e (omega (arith, n)))
  | inr e ↦
      let (spare', rest, n) = remove_from-erase (pre ++ x ∷ []) xs spare r in
      (
        spare',
        (rw
            (
              get_elem?-append pre x (xs ++ spare),
              e,
              sym (length-snoc pre x),
              longer (length xs),
              longer (length (erase r xs)),
              sym (snoc_append pre x (xs ++ spare)),
              sym (snoc_append pre x (erase r xs ++ spare')),
            )
            rest),
        rw e (omega (arith, n)),
      )
]
  where
    longer : (n : ℕ) → length pre + suc n ≡ length (pre ++ x ∷ []) + n
    longer n = omega (arith, length-snoc pre x)

-- On an array that stands for a list of runners, `helpr_remove_runner` stays within the array, ends,
-- and leaves the list without the first element that is the victim.
pub remove_runner-erase :
    (size : ℕ) (s : Slots) (xs : List Ptr) (victim : Ptr)
    → IsSlots size s xs
    → Returns (λ s'. IsSlots size s' (erase victim xs)) (helpr_remove_runner s victim)
unfolding helpr_remove_runner
remove_runner-erase size s xs victim v =
    let (spare', e, n) = remove_from-erase [] xs v.spare victim in
    let same : s ≡ slots (xs ++ v.spare) (0 + length xs) =
      ap₂ slots v.cells (omega (arith, v.count)) in
    let run = ap (λ (t : Slots). remove_from (length xs) 0 victim t) same ∙ e in
    rw (ap (λ (k : ℕ). remove_from k 0 victim s) v.count ∙ run) (
      returns (record {
        spare = spare';
        cells = refl;
        count = omega arith;
        size_is = omega (
          arith,
          length-append (erase victim xs) spare',
          n,
          v.size_is,
          ap (λ (ys : List Ptr). length ys) v.cells,
          length-append xs v.spare,
        );
      }))

-- A runner more, where the array has room.
pub put-snoc :
    (size : ℕ) (s : Slots) (xs : List Ptr) (r : Ptr)
    → IsSlots size s xs
    → length xs < size
    → Returns (λ s'. IsSlots size s' (xs ++ r ∷ [])) (put s r)
unfolding put
put-snoc size s xs r v room = into v.spare v.cells
  where
    into :
        (spare : List Ptr)
        → s.cells ≡ xs ++ spare
        → Returns (λ s'. IsSlots size s' (xs ++ r ∷ [])) (put s r)
    into [] e =
        absurd (omega (arith, ap (λ (ys : List Ptr). length ys) e, length-append xs [], v.size_is))
    into (x ∷ spare) e =
        rw (v.count, e, set_elem-append xs x r spare)
          (returns (record {
            spare = spare;
            cells = sym (snoc_append xs r spare);
            count = omega (arith, length-append xs (r ∷ []));
            size_is = omega (
              arith,
              length-append xs (r ∷ spare),
              length-append xs (x ∷ spare),
              ap (λ (ys : List Ptr). length ys) e,
              v.size_is,
            );
          }))
