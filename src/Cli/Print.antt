-- ===== src/Cli/Print.antt =====
-- opts in main.c, the mode -p: the threads that are started.
pub mod Threads
use b_project.Base.{ℕ, zero, suc, Option, none, some, List, [], ◌∷◌, ◌++◌, map, ◌==◌, if◌then◌else◌}
use b_project.Base.Text.{Text}
use b_project.Cli.Edit.{optargs, from_option}
use b_project.Cli.Getopt.{Opt, step_back, getopt}

-- The threads of the mode -p, by what they print.
pub data Print : Type 0 where
  print_file : Text → Print
  print_range : Text → Print

abbrev pub print_of : ℕ → Text → Print
print_of letter name = if letter == b'f' then print_file name else print_range name

abbrev pub joining : List Print → Option (List Print) → Option (List Print)
joining ps none = none
joining ps (some qs) = some (ps ++ qs)

unfoldable pub print_step :
    (List Text → Option (List Print)) → List Text → Option Opt → Option (List Print)
unfolding optargs from_option
print_step next args none = some []
print_step next args (some o) =
    let left = step_back args o in
    joining (map (print_of o.letter) (optargs left)) (next (from_option left))

-- The loop of the mode -p; none if the rounds do not suffice.
unfoldable pub print_loop : ℕ → List Text → Option (List Print)
unfolding getopt print_step
print_loop zero args = none
print_loop (suc k) args = print_step (print_loop k) args (getopt (b'f' ∷ b'g' ∷ b'r' ∷ []) args)
