-- ===== src/Cli/Getopt/Progress.antt =====
-- How far getopt gets in the arguments.
use b_project.Base.{
  ℕ, suc, ◌≤◌, ◌≡◌, refl, true, false, ◌&&◌, ◌||◌, ◌⊎◌, none, some, List, [], ◌∷◌, length, ◌==◌,
  Bool-cases, inl, inr, arith,
}
use b_project.Base.Text.{Text}
use b_project.Cli.Getopt.{Opt, getopt, step_back, option_with}
use b_project.Cli.Edit.{is_option, from_option}

-- The first argument is the option with its own argument behind the letter.
abbrev Own : ℕ → List Text → Opt → Type 0
Own c args o =
    (d : ℕ) × (s : Text) × (rest : List Text) × (args ≡ (b'-' ∷ c ∷ d ∷ s) ∷ rest) × (o.own ≡ true)

pub getopt-cases :
    (c : ℕ) (args : List Text)
    → (getopt (c ∷ []) args ≡ none)
      ⊎ ((o : Opt) × (getopt (c ∷ []) args ≡ some o)
          × ((suc (length (step_back args o)) ≤ length args) ⊎ Own c args o))
unfolding getopt
getopt-cases c [] = inl refl
getopt-cases c ([] ∷ args) = inl refl
getopt-cases c ((d ∷ []) ∷ args) = inl refl
getopt-cases c ((d ∷ e ∷ []) ∷ []) = elim (Bool-cases (d == b'-' && (e == c || false))) [
  | inl hit ↦ inl (rw hit)
  | inr miss ↦ inl (rw miss)
]
getopt-cases c ((d ∷ e ∷ []) ∷ b ∷ args) = elim (Bool-cases (d == b'-' && (e == c || false))) [
  | inl hit ↦
      inr (record { letter = e; own = false; optarg = b; behind = args }, rw hit, inl (omega arith))
  | inr miss ↦ inl (rw miss)
]
getopt-cases c ((d ∷ e ∷ x ∷ s) ∷ args) = elim (Bool-cases (d == b'-' && (e == c || false))) [
  | inl hit ↦
      let dash : d ≡ b'-' = ground arith in
      let same : e ≡ c = ground arith in
      inr (
        record { letter = e; own = true; optarg = x ∷ s; behind = args },
        rw hit,
        inr (x, s, args, rw (dash, same), refl),
      )
  | inr miss ↦ inl (rw miss)
]

option_with-behind :
    (c : ℕ) (s : Text) (args : List Text)
    → (option_with c s args ≡ none)
      ⊎ ((o : Opt) × (option_with c s args ≡ some o) × (suc (length o.behind) ≤ suc (length args)))
option_with-behind c [] [] = inl refl
option_with-behind c [] (b ∷ args) =
    inr (record { letter = c; own = false; optarg = b; behind = args }, refl, omega arith)
option_with-behind c (x ∷ s) args =
    inr (record { letter = c; own = true; optarg = x ∷ s; behind = args }, refl, omega arith)

pub behind-cases :
    (c : ℕ) (args : List Text)
    → (getopt (c ∷ []) args ≡ none)
      ⊎ ((o : Opt) × (getopt (c ∷ []) args ≡ some o) × (suc (length o.behind) ≤ length args))
unfolding getopt
behind-cases c [] = inl refl
behind-cases c ([] ∷ args) = inl refl
behind-cases c ((d ∷ []) ∷ args) = inl refl
behind-cases c ((d ∷ e ∷ s) ∷ args) = elim (Bool-cases (d == b'-' && (e == c || false))) [
  | inl hit ↦ rw hit (option_with-behind e s args)
  | inr miss ↦ inl (rw miss)
]

pub length-from_option : (args : List Text) → length (from_option args) ≤ length args
unfolding from_option
length-from_option [] = omega arith
length-from_option (a ∷ args) = elim (Bool-cases (is_option a)) [
  | inl e ↦ rw e (omega arith)
  | inr e ↦ rw e (omega (arith, length-from_option args))
]
