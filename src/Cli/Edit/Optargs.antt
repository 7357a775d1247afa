-- ===== src/Cli/Edit/Optargs.antt =====
-- foreach_optarg of main.c, on arguments that are followed by an option or by nothing.
use b_project.Base.{◌≡◌, refl, ap, true, false, List, [], ◌∷◌, ◌++◌, All}
use b_project.Base.Text.{Text}
use b_project.Cli.Edit.{is_option, optargs, from_option}

abbrev pub Plain : List Text → Type 0
Plain files = All (λ f. is_option f ≡ false) files

abbrev pub Stops : List Text → Type 0
Stops [] = Unit
Stops (a ∷ args) = is_option a ≡ true

pub optargs-append : (fs rest : List Text) → Plain fs → Stops rest → optargs (fs ++ rest) ≡ fs
unfolding optargs
optargs-append [] [] h stop = refl
optargs-append [] (a ∷ rest) h stop = rw stop
optargs-append (f ∷ fs) rest (n, h) stop = rw n (ap (λ l. f ∷ l) (optargs-append fs rest h stop))

pub from_option-append :
    (fs rest : List Text) → Plain fs → Stops rest → from_option (fs ++ rest) ≡ rest
unfolding from_option
from_option-append [] [] h stop = refl
from_option-append [] (a ∷ rest) h stop = rw stop
from_option-append (f ∷ fs) rest (n, h) stop = rw n (from_option-append fs rest h stop)
