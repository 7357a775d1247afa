-- ===== src/Bo.antt =====
-- nosql/bo.c: the marks of a text become regions of a list of ranges. The text and the list are given as
-- the lines that getline returns, with their newlines; the lines of the list hold no NUL byte. Messages
-- on stderr are left out.
pub mod Regions
pub mod Places
pub mod Length
pub mod Marks
pub mod Lines
pub mod Reread
mod Tests
use b_project.Base.{
  ℕ, zero, suc, ◌+◌, ◌-◌, ◌%◌, ◌^◌, min, Bool, true, false, ◌&&◌, ◌||◌, Option, none, some, List,
  [], ◌∷◌, ◌++◌, length, get_elem?, take, drop, set, replicate, ltb, leb, ◌==◌, if◌then◌else◌,
}
use b_project.Base.Text.{Text, codes, starts_with, read_digits, decimal, pad_zeros, text_length}

-- RANGE_W
abbrev pub range_w : Text
range_w = b'R' ∷ b'a' ∷ b'n' ∷ b'g' ∷ b'e' ∷ []

abbrev range_w_len : ℕ
range_w_len = 5

-- TOKENS
abbrev pub tokens : Text
tokens =
    1 ∷ 2 ∷ 3 ∷ 4 ∷ 5 ∷ 6 ∷ 7 ∷ 8 ∷ 11 ∷ 12 ∷ 14 ∷ 15 ∷ 16 ∷ 17 ∷ 18 ∷ 19 ∷ 20 ∷ 21 ∷ 22 ∷ 23 ∷ 24
    ∷ 25 ∷ 26 ∷ 27 ∷ 28 ∷ 29 ∷ 30 ∷ 31 ∷ []

abbrev pub tokens_len : ℕ
tokens_len = 28

-- The entries of lines and interval_v for one token, and its bit of add_file_bitv; a negative
-- interval_v is none.
pub record Slot : Type 0 where
  pub line : Option Text
  pub interval : Option ℕ
  pub added : Bool

-- atoi of glibc as an unsigned number of 32 bits: strtol, cut to an int.
unfoldable pub skip_spaces : Text → Text
skip_spaces [] = []
skip_spaces (c ∷ s) = if c == b' ' || (leb 9 c && leb c 13) then skip_spaces s else c ∷ s

abbrev pub positive : Text → ℕ
positive s = min (read_digits 0 s).0 (2 ^ 63 - 1) % 2 ^ 32

abbrev pub negative : Text → ℕ
negative s = (2 ^ 32 - min (read_digits 0 s).0 (2 ^ 63) % 2 ^ 32) % 2 ^ 32

abbrev pub signed : Text → ℕ
signed [] = 0
signed (c ∷ s) =
    if c == b'-' then negative s else if c == b'+' then positive s else positive (c ∷ s)

unfoldable pub atoi : Text → ℕ
unfolding skip_spaces
atoi s = signed (skip_spaces s)

-- The index that a line of the list stands for; none if it is improperly formatted.
unfoldable pub line_index : Text → Option ℕ
unfolding atoi
line_index line =
    let number = atoi (drop range_w_len line) in
    if starts_with line range_w && leb (range_w_len + 3) (length line)
    then (if leb 1 number && leb number tokens_len then some (number - 1) else none)
    else none

abbrev pub is_empty_line : Text → Bool
is_empty_line [] = false
is_empty_line (c ∷ s) = c == 10

-- lines[j] = strndup(line, len - 1), unless it is there already.
abbrev pub put_line :
    Text → ℕ → List (Option Text) → Option (Option Text) → Option (List (Option Text))
put_line line j lines (some none) = some (set lines j (some (take (length line - 1) line)))
put_line line j lines _ = none

abbrev pub store_line : Text → List (Option Text) → Option ℕ → Option (List (Option Text))
store_line line lines none = none
store_line line lines (some j) = put_line line j lines (get_elem? lines j)

unfoldable pub take_line : Text → List (Option Text) → Option (List (Option Text))
unfolding line_index
take_line line lines =
    if is_empty_line line then some lines else store_line line lines (line_index line)

abbrev then_lines :
    Option (List (Option Text))
    → (List (Option Text) → Option (List (Option Text)))
    → Option (List (Option Text))
then_lines none rest = none
then_lines (some lines) rest = rest lines

-- The loop of read_lines, with `left` lines to go up to TOKENS_LEN; none for err(1).
unfoldable pub read_lines : ℕ → List Text → List (Option Text) → Option (List (Option Text))
unfolding take_line
read_lines zero f_range lines = some lines
read_lines (suc left) [] lines = some lines
read_lines (suc left) (line ∷ f_range) lines =
    then_lines (take_line line lines) (read_lines left f_range)

abbrev pub unmarked : List (Option Text) → List Slot
unmarked [] = []
unmarked (l ∷ lines) = record { line = l; interval = none; added = false } ∷ unmarked lines

-- "%s%02d"
unfoldable pub range_name : ℕ → Text
unfolding decimal
range_name w = range_w ++ pad_zeros (2 - text_length (decimal (w + 1))) (decimal (w + 1))

-- `gives` tells whether realloc gives that many bytes.
abbrev named_line : (ℕ → Bool) → ℕ → Option Text → Option Text
named_line gives w (some line) = some line
named_line gives w none = if gives (range_w_len + 2 + 1) then some (range_name w) else none

abbrev pub file_flag : Text → Text
file_flag fp = codes " -f " ++ fp ++ codes " -r"

abbrev with_file : (ℕ → Bool) → Text → Bool → Text → Option Text
with_file gives fp true line = some line
with_file gives fp false line =
    if gives (length line + 4 + length fp + 3 + 1) then some (line ++ file_flag fp) else none

-- size_t to ssize_t; a negative number is none.
abbrev pub saved : ℕ → Option ℕ
saved offset = if ltb offset (2 ^ 63) then some offset else none

-- What snprintf puts into buf.
unfoldable pub region_text : ℕ → ℕ → Text
unfolding decimal
region_text base bound = take 62 (b' ' ∷ (decimal base ++ b',' ∷ decimal bound))

-- `len` is strlen(lines[w]) before the file was added.
abbrev pub with_mark : (ℕ → Bool) → ℕ → ℕ → Option ℕ → Text → Option Slot
with_mark gives offset len none line =
    some (record { line = some line; interval = saved offset; added = true })
with_mark gives offset len (some base) line =
    let buf = region_text base offset in
    if gives (len + length buf + 1)
    then some (record { line = some (take len line ++ buf); interval = none; added = true })
    else none

abbrev after_file : (ℕ → Bool) → ℕ → ℕ → Option ℕ → Option Text → Option Slot
after_file gives offset len interval none = none
after_file gives offset len interval (some line) = with_mark gives offset len interval line

abbrev after_name : (ℕ → Bool) → Text → ℕ → Slot → Option Text → Option Slot
after_name gives fp offset slot none = none
after_name gives fp offset slot (some line) =
    after_file gives offset (length line) slot.interval (with_file gives fp slot.added line)

-- The new entries for token w; none for err(1).
unfoldable pub add_range : (ℕ → Bool) → Text → ℕ → ℕ → Slot → Option Slot
unfolding range_name region_text
add_range gives fp offset w slot = after_name gives fp offset slot (named_line gives w slot.line)

pub record State : Type 0 where
  pub slots : List Slot
  pub output : Text
  pub c : ℕ

-- The run goes on, ends with err(1), or uses an entry behind the end of the arrays.
pub data Run : Type 0 where
  goes_on : State → Run
  fails : Text → Run
  out_of_bounds : Run

abbrev pub one_more : Option ℕ → Option ℕ
one_more none = none
one_more (some i) = some (suc i)

-- The index of the first b in the string, whose end is a NUL.
abbrev pub index_of : Text → ℕ → Option ℕ
index_of [] b = if b == 0 then some 0 else none
index_of (t ∷ ts) b = if b == t then some 0 else one_more (index_of ts b)

-- str - TOKENS, where str = strchr(TOKENS, b).
unfoldable pub token_of : ℕ → Option ℕ
token_of b = index_of tokens b

abbrev put_slot : ℕ → State → Option Slot → Run
put_slot w s none = fails s.output
put_slot w s (some slot) = goes_on (record s { slots = set s.slots w slot })

unfoldable pub mark_slot : (ℕ → Bool) → Text → ℕ → State → Option Slot → Run
unfolding add_range
mark_slot gives fp w s none = out_of_bounds
mark_slot gives fp w s (some slot) = put_slot w s (add_range gives fp s.c w slot)

abbrev put_byte : ℕ → State → Run
put_byte b s =
    if b == 13
    then goes_on s
    else goes_on (record s { output = s.output ++ b ∷ []; c = (s.c + 1) % 2 ^ 64 })

unfoldable pub mark_or_byte : (ℕ → Bool) → Text → ℕ → State → Option ℕ → Run
unfolding mark_slot
mark_or_byte gives fp b s none = put_byte b s
mark_or_byte gives fp b s (some w) = mark_slot gives fp w s (get_elem? s.slots w)

-- The body of the loop over the bytes of a line.
unfoldable pub read_byte : (ℕ → Bool) → Text → ℕ → State → Run
unfolding token_of mark_or_byte
read_byte gives fp b s = mark_or_byte gives fp b s (token_of b)

abbrev then_on : Run → (State → Run) → Run
then_on (goes_on s) rest = rest s
then_on (fails output) rest = fails output
then_on out_of_bounds rest = out_of_bounds

unfoldable pub read_bytes : (ℕ → Bool) → Text → Text → State → Run
unfolding read_byte
read_bytes gives fp [] s = goes_on s
read_bytes gives fp (b ∷ line) s = then_on (read_byte gives fp b s) (read_bytes gives fp line)

unfoldable pub read_text : (ℕ → Bool) → Text → List Text → State → Run
unfolding read_bytes
read_text gives fp [] s = goes_on s
read_text gives fp (line ∷ stdin) s =
    then_on (read_bytes gives fp line s) (read_text gives fp stdin)

abbrev pub write_line : Option Text → List Text → List Text
write_line none rest = rest
write_line (some line) rest = (line ++ 10 ∷ []) ∷ rest

unfoldable pub write_lines : List Slot → List Text
write_lines [] = []
write_lines (slot ∷ slots) = write_line slot.line (write_lines slots)

abbrev pub joined : List Text → Text
joined [] = []
joined (line ∷ lines) = line ++ joined lines

-- The list after the lines are written over it, as a text; ftell may fail, and with nothing written
-- there is no truncation.
abbrev pub overwritten : Bool → Text → Text → Text
overwritten tells old [] = old
overwritten true old (c ∷ new) = c ∷ new
overwritten false old (c ∷ new) = (c ∷ new) ++ drop (suc (length new)) old

-- The exit status, the standard output and the list; or a use behind the end of the arrays.
pub data Outcome : Type 0 where
  exits : ℕ → Text → Text → Outcome
  undefined : Outcome

unfoldable pub finish : Bool → Text → Run → Outcome
unfolding write_lines
finish tells old (goes_on s) =
    exits (if tells then 0 else 1) s.output (overwritten tells old (joined (write_lines s.slots)))
finish tells old (fails output) = exits 1 output old
finish tells old out_of_bounds = undefined

unfoldable pub with_lines :
    (ℕ → Bool) → Bool → Text → List Text → Text → Option (List (Option Text)) → Outcome
unfolding read_text finish
with_lines gives tells fp stdin old none = exits 1 [] old
with_lines gives tells fp stdin old (some lines) =
    finish tells old
      (read_text gives fp stdin (record { slots = unmarked lines; output = []; c = 0 }))

-- main with its two arguments, for a list that can be opened.
unfoldable pub bo : (ℕ → Bool) → Bool → Text → List Text → List Text → Outcome
unfolding read_lines with_lines
bo gives tells fp f_range stdin =
    with_lines gives tells fp stdin (joined f_range)
      (read_lines tokens_len f_range (replicate tokens_len none))
