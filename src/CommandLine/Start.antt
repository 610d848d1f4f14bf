-- ===== src/CommandLine/Start.antt =====
-- What the arguments were, when the fuzzer starts.
use mathlib.Core.Path.{subst}
use coverage_guided_fuzzer.Prelude.{
  ℕ, ◌≡◌, refl, sym, ap, ◌⊎◌, inl, inr, true, some, List, [], ◌∷◌, ◌++◌, Bool-cases, Option-cases,
}
use coverage_guided_fuzzer.CommandLine.{
  Options, defaults, Valued, Word, help, valued, other, word, set, Parsed, help_asked, bad_usage,
  stopped, parse, has_placeholder, Outcome, print_help, usage_error, start, check_start,
  command_line,
}

-- Options with their values, as they change the settings.
pub data Settings : Options → List (List ℕ) → Options → Type 0 where
  no_more : {o : Options} → Settings o [] o
  one_more :
      {o o1 o2 : Options} {a b : List ℕ} {words : List (List ℕ)} (f : Valued)
      → word a ≡ valued f
      → set f b o ≡ some o1
      → Settings o1 words o2
      → Settings o (a ∷ b ∷ words) o2

-- No argument, or one that is not an option.
abbrev pub StartsTarget : List (List ℕ) → Type 0
StartsTarget [] = Unit {0}
StartsTarget (a ∷ as') = word a ≡ other

Word-cases : (w : Word) → (w ≡ help) ⊎ (((f : Valued) × (w ≡ valued f)) ⊎ (w ≡ other))
Word-cases help = inl refl
Word-cases (valued f) = inr (inl (f, refl))
Word-cases other = inr (inr refl)

abbrev Splits : Options → List (List ℕ) → Options → List (List ℕ) → Type 0
Splits o args o' rest =
    (words : List (List ℕ)) × (args ≡ words ++ rest) × Settings o words o' × StartsTarget rest

abbrev Reading : Options → List (List ℕ) → Parsed → Type 0
Reading o args help_asked = Unit {0}
Reading o args bad_usage = Unit {0}
Reading o args (stopped o' rest) = Splits o args o' rest

longer :
    (o o1 : Options) (a b : List ℕ) (args : List (List ℕ)) (f : Valued) (p : Parsed)
    → word a ≡ valued f
    → set f b o ≡ some o1
    → Reading o1 args p
    → Reading o (a ∷ b ∷ args) p
longer o o1 a b args f help_asked w e r = tt
longer o o1 a b args f bad_usage w e r = tt
longer o o1 a b args f (stopped o' rest) w e (words, same, settings, starts) =
    (a ∷ b ∷ words, ap (λ (as' : List (List ℕ)). a ∷ b ∷ as') same, one_more f w e settings, starts)

via :
    (o : Options) (args : List (List ℕ)) (p q : Parsed)
    → q ≡ p
    → Reading o args p
    → Reading o args q
via o args p q e r = subst (Reading o args) (sym e) r

parse-Reading : (o : Options) (args : List (List ℕ)) → Reading o args (parse o args)
unfolding parse
parse-Reading o [] = ([], refl, no_more, tt)
parse-Reading o (a ∷ []) = elim (Word-cases (word a)) [
  | inl w ↦ via o (a ∷ []) help_asked (parse o (a ∷ [])) (rw (w, parse)) tt
  | inr (inl (f, w)) ↦ via o (a ∷ []) bad_usage (parse o (a ∷ [])) (rw (w, parse)) tt
  | inr (inr w) ↦
      via o (a ∷ []) (stopped o (a ∷ [])) (parse o (a ∷ [])) (rw (w, parse)) ([], refl, no_more, w)
]
parse-Reading o (a ∷ b ∷ args) =
    let all : List (List ℕ) = a ∷ b ∷ args in
    elim (Word-cases (word a)) [
      | inl w ↦ via o all help_asked (parse o all) (rw (w, parse)) tt
      | inr (inl (f, w)) ↦ elim (Option-cases (set f b o)) [
        | inl e ↦ via o all bad_usage (parse o all) (rw (w, e, parse)) tt
        | inr (o1, e) ↦
            via o all (parse o1 args) (parse o all) (rw (w, e, parse))
              (longer o o1 a b args f (parse o1 args) w e (parse-Reading o1 args))
      ]
      | inr (inr w) ↦ via o all (stopped o all) (parse o all) (rw (w, parse)) ([], refl, no_more, w)
    ]

-- The arguments split into options with their values, which give these settings from the defaults, and
-- the target program with its arguments. The target is there, it is no option, one of its words is
-- the placeholder, and a seed file was named.
pub record Starts (args : List (List ℕ)) (name : List ℕ) (o : Options) (target : List (List ℕ))
    : Type 0 where
  pub words : List (List ℕ)
  pub split : args ≡ words ++ target
  pub settings : Settings defaults words o
  pub first : StartsTarget target
  pub placeholder : has_placeholder target ≡ true
  pub named : o.seed_fname ≡ some name

abbrev Allowed : List (List ℕ) → Outcome → Type 0
Allowed args print_help = Unit {0}
Allowed args usage_error = Unit {0}
Allowed args (start name o target) = Starts args name o target

by_outcome : (args : List (List ℕ)) (p q : Outcome) → q ≡ p → Allowed args p → Allowed args q
by_outcome args p q e r = subst (Allowed args) (sym e) r

check-Allowed :
    (args : List (List ℕ)) (p : Parsed) → Reading defaults args p → Allowed args (check_start p)
unfolding check_start
check-Allowed args help_asked r = tt
check-Allowed args bad_usage r = tt
check-Allowed args (stopped o []) r = tt
check-Allowed args (stopped o (a ∷ rest)) (words, same, settings, first) =
    let p1 : Parsed = stopped o (a ∷ rest) in
    elim (Option-cases o.seed_fname) [
      | inl e ↦ by_outcome args usage_error (check_start p1) (simp e) tt
      | inr (name, e) ↦ elim (Bool-cases (has_placeholder (a ∷ rest))) [
        | inl held ↦
            by_outcome args (start name o (a ∷ rest)) (check_start p1) (simp (e, held)) (record {
              words = words;
              split = same;
              settings = settings;
              first = first;
              placeholder = held;
              named = e;
            })
        | inr missing ↦ by_outcome args usage_error (check_start p1) (simp (e, missing)) tt
      ]
    ]

-- If `main` starts the fuzzer, its arguments split into options with their values, whose effect on the
-- defaults the settings are, and a target that is not empty, starts with no option and has the
-- placeholder among its words; and a seed file was named.
pub command_line-Starts :
    (args : List (List ℕ)) (name : List ℕ) (o : Options) (target : List (List ℕ))
    → command_line args ≡ start name o target
    → Starts args name o target
command_line-Starts args name o target e =
    by_outcome args (command_line args) (start name o target) (sym e)
      (check-Allowed args (parse defaults args) (parse-Reading defaults args))
