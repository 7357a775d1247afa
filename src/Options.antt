-- ===== src/Options.antt =====
-- options.h and pull_string of common.h: the oracles for a file, from the lines of ~/.oraclerc. A line
-- holds no NUL byte, and ends with its newline unless it is the last.
pub mod Words
pub mod Lines
pub mod Entries
mod Tests
use b_project.Base.{
  ℕ, zero, suc, ◌+◌, Bool, true, false, not, ◌&&◌, ◌||◌, Option, none, some, List, [], ◌∷◌, ◌++◌,
  length, drop, set, ltb, leb, ◌==◌, if◌then◌else◌,
}
use b_project.Base.Text.{Text, codes, str_eq, strrchr}
use b_project.Range.{path_max}

abbrev pub oracle_len_min : ℕ
oracle_len_min = 8

abbrev pub oracle_len_max : ℕ
oracle_len_max = 255

-- RC_TOKENS
abbrev pub is_blank : ℕ → Bool
is_blank c = c == b' ' || c == 9

unfoldable pub skip_blanks : Text → Text
skip_blanks [] = []
skip_blanks (c ∷ s) = if is_blank c then skip_blanks s else c ∷ s

abbrev with_char : ℕ → Option (Text × Text) → Option (Text × Text)
with_char c none = none
with_char c (some (w, rest)) = some (c ∷ w, rest)

-- The text up to a quote that no backslash precedes, and what follows the quote.
unfoldable pub up_to_quote : ℕ → Text → Option (Text × Text)
up_to_quote before [] = none
up_to_quote before (c ∷ s) =
    if c == b'"' && not (before == b'\\') then some ([], s) else with_char c (up_to_quote c s)

abbrev pub pull_string : Text → Option (Text × Text)
pull_string [] = none
pull_string (c ∷ s) = if c == b'"' then up_to_quote c s else none

-- The text up to a blank, which must be there, and what follows it.
unfoldable pub up_to_blank : Text → Option (Text × Text)
up_to_blank [] = none
up_to_blank (c ∷ s) = if is_blank c then some ([], s) else with_char c (up_to_blank s)

abbrev pub or_word : Text → Option (Text × Text) → Option (Text × Text)
or_word t none = up_to_blank t
or_word t (some found) = some found

abbrev pub sized : Option (Text × Text) → Option (Text × Text)
sized none = none
sized (some (w, rest)) =
    if ltb (length w) oracle_len_min || ltb oracle_len_max (length w) then none else some (w, rest)

-- The oracle that *str is set to, and the text that is returned; none for NULL. At the end of the text the
-- length is computed from NULL, and is above the maximum.
unfoldable pub get_an_oracle : Text → Option (Text × Text)
unfolding skip_blanks up_to_quote up_to_blank
get_an_oracle str = let t = skip_blanks str in sized (or_word t (pull_string t))

abbrev behind_first : Text → Option Text → Text
behind_first path none = path
behind_first path (some []) = path
behind_first path (some (c ∷ s)) = s

abbrev pub or_empty : Option Text → Text
or_empty none = []
or_empty (some s) = s

-- The parts of get_fname_ext.
abbrev pub fname : Text → Text
fname file_path = behind_first file_path (strrchr file_path b'/')

abbrev ext : Text → Text
ext file_path = or_empty (strrchr file_path b'.')

-- strtok(line, RC_TOKENS): how many bytes the token stands behind, and the token; it is empty for NULL.
unfoldable pub leading : Text → ℕ
leading [] = 0
leading (c ∷ s) = if is_blank c then suc (leading s) else 0

unfoldable pub word : Text → Text
word [] = []
word (c ∷ s) = if is_blank c then [] else c ∷ word s

abbrev pub token : Text → Text
token line = word (skip_blanks line)

unfoldable pub up_to_nul : Text → Text
up_to_nul [] = []
up_to_nul (c ∷ s) = if c == 0 then [] else c ∷ up_to_nul s

unfoldable pub newline_to_blank : Text → Text
newline_to_blank [] = []
newline_to_blank (c ∷ []) = if c == 10 then b' ' ∷ [] else c ∷ []
newline_to_blank (c ∷ d ∷ s) = c ∷ newline_to_blank (d ∷ s)

-- The string at tp: `target` is the line with the NUL that strtok wrote behind the token, a blank for
-- the newline, and another blank; tp stands strlen(str) + 1 bytes behind its start.
unfoldable pub target_rest : Text → Text
unfolding leading word skip_blanks up_to_nul newline_to_blank
target_rest line =
    let len = length (token line) in
    up_to_nul (drop (suc len) (newline_to_blank (set line (leading line + len) 0) ++ b' ' ∷ []))

abbrev pub is_ext_name : Text → Text → Bool
is_ext_name path [] = false
is_ext_name path (c ∷ s) = c == b'*' && str_eq s (ext path)

abbrev one_up : Bool → ℕ → ℕ
one_up b level = if b then suc level else level

abbrev level_path : Text → Text → ℕ → ℕ
level_path path str level = one_up (str_eq str path) level

abbrev level_fname : Text → Text → ℕ → ℕ
level_fname path str level = level_path path str (one_up (str_eq str (fname path)) level)

-- The switch, whose cases fall through.
unfoldable pub new_level : Text → Text → ℕ → ℕ
new_level path str zero = level_fname path str (one_up (is_ext_name path str) 0)
new_level path str (suc zero) = level_fname path str 1
new_level path str (suc (suc zero)) = level_path path str 2
new_level path str level = level

-- A line that the loop passes over: shorter than 4 bytes, or of blanks only.
abbrev pub no_token : Text → Bool
no_token [] = true
no_token (c ∷ s) = false

abbrev pub skipped : Text → Bool
skipped line = ltb (length line) 4 || no_token (token line)

-- The loop over the lines; `alloc` tells whether realloc gives memory. What comes out is the string at tp.
unfoldable pub choose_line : Bool → Text → List Text → ℕ → Option Text → Option Text
unfolding new_level target_rest
choose_line alloc path [] level target = target
choose_line alloc path (line ∷ lines) level target =
    let level' = new_level path (token line) level in
    let target' : Option Text = if alloc then some (target_rest line) else none in
    let same = choose_line alloc path lines level target in
    let more = choose_line alloc path lines level' target' in
    if skipped line
    then same
    else if ltb level level'
    then (if ltb 2 level' then target' else more)
    else same

-- struct oracles, or a strcpy from memory that was freed or from NULL.
pub data Chosen : Type 0 where
  oracles : Text → Text → Chosen
  bad_copy : Chosen

abbrev default_oracles : Chosen
default_oracles = oracles (codes "[START ORACLE]") (codes "[END ORACLE]")

abbrev pub with_second : Text → Option (Text × Text) → Chosen
with_second open_oracle none = bad_copy
with_second open_oracle (some (close, rest)) = oracles open_oracle close

abbrev pub with_first : Option (Text × Text) → Chosen
with_first none = bad_copy
with_first (some (open_oracle, rest)) = with_second open_oracle (get_an_oracle rest)

abbrev pub from_target : Option Text → Chosen
from_target none = default_oracles
from_target (some tp) = with_first (get_an_oracle tp)

-- `options_path` is OPTIONS_FILE_PATH, and `lines` what it holds, none if it cannot be opened.
abbrev pub opened : Bool → Text → Option (List Text) → Chosen
opened alloc path none = default_oracles
opened alloc path (some lines) = from_target (choose_line alloc path lines 0 none)

unfoldable pub get_oracles : Bool → Text → Option (List Text) → Text → Chosen
unfolding choose_line get_an_oracle
get_oracles alloc [] lines path = default_oracles
get_oracles alloc (c ∷ options_path) lines path = opened alloc path lines

-- OPTIONS_FILE_PATH after options_file_init, and whether it returns 0: wordexp gives the path, or fails.
unfoldable pub options_file_init : Text → Option Text → Text × Bool
options_file_init old none = (old, false)
options_file_init old (some path) = (if ltb path_max (length path) then [] else path, true)
