-- ===== src/Cli/Edit.antt =====
-- opts in main.c, the modes -r and -w: the files to edit and the editor's command line.
pub mod Optargs
pub mod Ascending
pub mod Names
use Prim.Native.Nat.{Ordering, lt, eq, gt}
use b_project.Base.{
  ℕ, Bool, true, false, not, ◌&&◌, ◌||◌, Option, none, some, List, [], ◌∷◌, ◌++◌, map, length, leb,
  ◌==◌, if◌then◌else◌,
}
use b_project.Base.Text.{Text, codes, str_eq, text_order}
use b_project.Base.Qsort.{qsort}

abbrev pub p_strcmp : Text → Text → Ordering
p_strcmp a b = text_order a b eq

-- The arguments from optind on, behind the "-f"s.
unfoldable pub skip_f : List Text → List Text
skip_f [] = []
skip_f (a ∷ args) = if str_eq a (codes "-f") then skip_f args else a ∷ args

abbrev pub is_option : Text → Bool
is_option [] = false
is_option (c ∷ s) = c == b'-'

-- foreach_optarg: the arguments in front of the first that begins with a dash, and those from it on.
unfoldable pub optargs : List Text → List Text
optargs [] = []
optargs (a ∷ args) = if is_option a then [] else a ∷ optargs args

unfoldable pub from_option : List Text → List Text
from_option [] = []
from_option (a ∷ args) = if is_option a then a ∷ args else from_option args

abbrev pub behind : Text → Option (List Text) → Option (List Text)
behind x none = none
behind x (some files) = some (x ∷ files)

-- Room for the strings that argv[i + 1] and so on point to; the kept string x; the strings from argv[j]
-- on. none if strcpy writes more than there is room for.
unfoldable pub remove_dups : List ℕ → Text → List Text → Option (List Text)
remove_dups room x [] = some (x ∷ [])
remove_dups [] x (y ∷ ys) = if str_eq x y then remove_dups [] x ys else none
remove_dups (n ∷ room) x (y ∷ ys) =
    let kept = remove_dups (n ∷ room) x ys in
    let moved = behind x (remove_dups room y ys) in
    if str_eq x y then kept else if leb (length y) n then moved else none

abbrev pub distinct_sorted : List Text → Option (List Text)
distinct_sorted [] = some []
distinct_sorted (x ∷ xs) = remove_dups (map length xs) x xs

-- qsort and the loop.
unfoldable pub distinct_files : List Text → Option (List Text)
unfolding remove_dups
distinct_files files = distinct_sorted (qsort p_strcmp files)

-- What opts goes on with: the files, multiple_mode, and the slots of argv from p_exe_path on.
pub record Edit : Type 0 where
  pub files : List Text
  pub multiple : Bool
  pub exe : List (Option Text)

-- The slots that the NULLs are written to: argv[l] and, where there is no file, argv[k + 1] behind it.
abbrev null_first : List (Option Text) → List (Option Text)
null_first [] = []
null_first (a ∷ argv) = none ∷ argv

abbrev null_second : List (Option Text) → List (Option Text)
null_second [] = []
null_second (a ∷ argv) = a ∷ null_first argv

abbrev cut_off : List Text → List (Option Text) → List (Option Text)
cut_off [] argv = null_second (null_first argv)
cut_off (f ∷ files) argv = null_first argv

abbrev pub with_exe : Option (List Text) → Bool → List (Option Text) → Option Edit
with_exe none multiple exe = none
with_exe (some files) multiple exe = some (record { files = files; multiple = multiple; exe = exe })

-- The search for -e or -E, which another argument must follow. The slots are those of argv after the
-- NULLs were written.
unfoldable pub find_exe : Option (List Text) → List Text → List (Option Text) → Option Edit
find_exe files [] argv = none
find_exe files (a ∷ []) argv = none
find_exe files (a ∷ b ∷ args) [] = none
find_exe files (a ∷ b ∷ args) (s ∷ argv) =
    let later = find_exe files (b ∷ args) argv in
    if str_eq a (codes "-E")
    then with_exe files true argv
    else if str_eq a (codes "-e")
    then with_exe files false argv
    else later

abbrev split_args : List Text → Option Edit
split_args args =
    let files = optargs args in
    let rest = from_option args in
    find_exe (distinct_files files) rest (cut_off files (map some rest))

-- The arguments behind the range's name; none for an exit with an error or a write past a string.
unfoldable pub edit_args : List Text → Option Edit
unfolding find_exe distinct_files optargs from_option skip_f
edit_args args = split_args (skip_f args)
