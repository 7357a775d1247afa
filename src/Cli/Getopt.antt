-- ===== src/Cli/Getopt.antt =====
-- getopt as opts in main.c calls it, on the arguments from optind on; its state inside an argument is lost
-- where optind goes back.
pub mod Progress
use b_project.Base.{
  ℕ, Bool, true, false, ◌&&◌, ◌||◌, Option, none, some, List, [], ◌∷◌, ◌==◌, if◌then◌else◌,
}
use b_project.Base.Text.{Text}

-- getopt for an option with an argument among these letters, where the arguments left begin with it: the
-- letter, its argument, and the arguments behind; `own` tells that the argument stands behind the letter
-- in the same string. none for -1 and '?'.
pub record Opt : Type 0 where
  pub letter : ℕ
  pub own : Bool
  pub optarg : Text
  pub behind : List Text

abbrev pub is_letter : ℕ → Text → Bool
is_letter c [] = false
is_letter c (d ∷ letters) = c == d || is_letter c letters

abbrev pub option_with : ℕ → Text → List Text → Option Opt
option_with c [] [] = none
option_with c [] (a ∷ args) = some (record { letter = c; own = false; optarg = a; behind = args })
option_with c (d ∷ s) args = some (record { letter = c; own = true; optarg = d ∷ s; behind = args })

abbrev option_of : Text → Text → List Text → Option Opt
option_of letters [] args = none
option_of letters (d ∷ []) args = none
option_of letters (d ∷ c ∷ s) args =
    if d == b'-' && is_letter c letters then option_with c s args else none

unfoldable pub getopt : Text → List Text → Option Opt
getopt letters [] = none
getopt letters (a ∷ args) = option_of letters a args

-- The arguments from optind on after optind--.
abbrev pub step_back : List Text → Opt → List Text
step_back args o = if o.own then args else o.optarg ∷ o.behind
