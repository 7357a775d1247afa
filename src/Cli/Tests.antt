-- ===== src/Cli/Tests.antt =====
-- Regions and command lines at concrete texts.
use b_project.Base.{
  true, some, List, ◌≡◌, refl, none, some, [], ◌∷◌, ◌++◌, ltb, if◌then◌else◌, arith,
}
use b_project.Base.Text.{Text, codes, text_order, decimal}
use b_project.Cli.{get_range}
use b_project.Base.Qsort.{qsort}
use b_project.Cli.Edit.{p_strcmp, edit_args, with_exe, distinct_files}
use b_project.Cli.Edit.Names.{command, Same, no_dups, edit_args-Same}
use b_project.Cli.Edit.Ascending.{Ascends}
use b_project.Cli.Regions.{get_range-decimal}

plain : get_range (codes "12,345") ≡ some (12, 345)
unfolding get_range
plain = refl

no_comma : get_range (codes "12") ≡ none
unfolding get_range
no_comma = refl

get_range-decimal_example :
    (get_range (decimal 12 ++ b',' ∷ decimal 345) ≡ (if ltb 12 345 then some (12, 345) else none))
    × (get_range (decimal 12 ++ b',' ∷ []) ≡ none)
get_range-decimal_example = get_range-decimal 12 345 (omega arith) (omega arith)

abbrev two_names : List Text
two_names = codes "b" ∷ codes "a" ∷ codes "b" ∷ []

edit_args-Same_example :
    (edit_args (command two_names true (codes "vim") [])
      ≡ with_exe (distinct_files two_names) true (some (codes "vim") ∷ []))
    × Same two_names (distinct_files two_names)
    × Ascends (distinct_files two_names)
    × (no_dups (qsort p_strcmp two_names) ≡ true
        → distinct_files two_names ≡ some (qsort p_strcmp two_names))
edit_args-Same_example =
    edit_args-Same (codes "b") (codes "a" ∷ codes "b" ∷ []) true (codes "vim") []
      (refl, (refl, (refl, tt)))

kept_once : distinct_files two_names ≡ some (codes "a" ∷ codes "b" ∷ [])
unfolding distinct_files qsort text_order
kept_once = refl

-- The longer name does not fit where the second copy of the shorter one stood.
past_a_string : distinct_files (codes "a" ∷ codes "a" ∷ codes "bc" ∷ []) ≡ none
unfolding distinct_files qsort text_order
past_a_string = refl
