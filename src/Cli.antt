-- ===== src/Cli.antt =====
-- main.c: the command line. This file has get_range, which reads an interval; Edit has the modes -r and
-- -w, NewRange the modes -g and -n, Print the mode -p, and Getopt what they use of getopt.
pub mod Regions
pub mod Edit
pub mod Getopt
pub mod NewRange
pub mod Print
mod Tests
mod ModeTests
use b_project.Base.{ℕ, ◌-◌, ◌^◌, min, Option, none, some, List, [], ◌∷◌, leb, if◌then◌else◌}
use b_project.Base.Text.{Text, strchr, atol}

abbrev pub long_max : ℕ
long_max = 2 ^ 63 - 1

-- atol, which stays at LONG_MAX for larger numbers.
abbrev long_of : Text → ℕ
long_of str = min (atol str) long_max

-- What follows the comma. An empty text sets the bound to BOUND_END and falls through to the error.
abbrev pub region : ℕ → Text → Option (ℕ × ℕ)
region base [] = none
region base (d ∷ str) =
    let bound = long_of (d ∷ str) in if leb bound base then none else some (base, bound)

abbrev from_comma : ℕ → Option Text → Option (ℕ × ℕ)
from_comma base none = none
from_comma base (some []) = none
from_comma base (some (c ∷ after)) = region base after

-- The base and the bound; none where the program exits with an error. Numbers are read without blanks
-- and signs in front.
unfoldable pub get_range : Text → Option (ℕ × ℕ)
get_range str = from_comma (long_of str) (strchr str b',')
