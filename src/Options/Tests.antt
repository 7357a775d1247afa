-- ===== src/Options/Tests.antt =====
-- Option files of a few lines.
use b_project.Base.{◌≡◌, refl, true, false, some, [], ◌∷◌, any-All, ◌==◌}
use b_project.Base.Text.{Text, codes}
use b_project.Options.{is_blank, get_oracles, oracles, bad_copy}
use b_project.Options.Words.{is_unquotable, InBounds, get_oracles-InBounds}
use b_project.Options.Entries.{line_of, two_oracles, get_oracles-two_oracles}

abbrev rc : Text
rc = codes "/home/u/.oraclerc"

abbrev path : Text
path = codes "/home/u/a.c"

abbrev c_line : Text
c_line = line_of (codes "*.c") (two_oracles true (codes "/* begin */") false (codes "//--end--"))

abbrev name_line : Text
name_line = line_of (codes "a.c") (two_oracles false (codes "<<<<<<<<") false (codes ">>>>>>>>"))

abbrev other_line : Text
other_line = line_of (codes "*.h") (two_oracles false (codes "<<<<<<<<") false (codes ">>>>>>>>"))

abbrev path_line : Text
path_line = line_of path (two_oracles false (codes "((((((((") false (codes "))))))))"))

get_oracles-two_oracles_example :
    get_oracles true rc (some (other_line ∷ c_line ∷ codes "#\n" ∷ [])) path
    ≡ oracles (codes "/* begin */") (codes "//--end--")
unfolding get_oracles
get_oracles-two_oracles_example =
    get_oracles-two_oracles b'/' (codes "home/u/.oraclerc") path (codes "*.c") true false
      (codes "/* begin */") (codes "//--end--") (other_line ∷ []) (codes "#\n" ∷ []) (refl, tt)
      (refl, tt) (any-All is_blank (codes "*.c") refl, refl) refl
      (any-All is_unquotable (codes "/* begin */") refl)
      (any-All is_blank (codes "//--end--") refl, refl)
      (any-All (λ c. c == 0) (two_oracles true (codes "/* begin */") false (codes "//--end--"))
        refl)

later_line :
    get_oracles true rc (some (other_line ∷ c_line ∷ [])) path
    ≡ oracles (codes "/* begin */") (codes "//--end--")
unfolding get_oracles
later_line = refl

get_oracles-InBounds_example : InBounds (codes "/* begin */") × InBounds (codes "//--end--")
get_oracles-InBounds_example =
    get_oracles-InBounds true rc (some (other_line ∷ c_line ∷ [])) path (codes "/* begin */")
      (codes "//--end--") later_line

-- The line for the path comes first, and the one for the name takes its place.
later_line_wins :
    get_oracles true rc (some (path_line ∷ name_line ∷ [])) path
    ≡ oracles (codes "<<<<<<<<") (codes ">>>>>>>>")
unfolding get_oracles
later_line_wins = refl

path_last :
    get_oracles true rc (some (name_line ∷ path_line ∷ [])) path
    ≡ oracles (codes "((((((((") (codes "))))))))")
unfolding get_oracles
path_last = refl

short_oracle : get_oracles true rc (some (codes "*.c << >>\n" ∷ [])) path ≡ bad_copy
unfolding get_oracles
short_oracle = refl

-- With a blank in front of the name, tp stands at the NUL behind it.
leading_blank : get_oracles true rc (some ((b' ' ∷ c_line) ∷ [])) path ≡ bad_copy
unfolding get_oracles
leading_blank = refl
