-- ===== src/Bo/Reread.antt =====
-- The next run of bo reads the list that a run has written.
use b_project.Base.{
  ℕ, zero, suc, ◌+◌, ◌/◌, ◌%◌, ◌≤◌, ◌<◌, ◌≡◌, refl, ap, sym, ◌∙◌, subst, Option, none, some, List,
  [], ◌∷◌, ◌++◌, length, get_elem?, set, replicate, ltb, ◌==◌, if◌then◌else◌, append_assoc,
  length-append, Bool-cases, inl, inr, arith, append-nil,
}
use b_project.Base.Text.{Text, decimal, decimal_onto, codes}
use b_project.Bo.{
  tokens_len, range_name, Slot, read_lines, write_line, write_lines, joined, file_flag,
}
use b_project.Bo.Regions.{regions, region, line_with}
use b_project.Bo.Places.{slots_after, offsets}
use b_project.Bo.Lines.{
  NoNewline, EndsNumber, IsNamed, IsEntry, AllNamed, take_line-IsNamed, range_name-digits,
}

-- The lines of the entries.
abbrev pub lines_of : List Slot → List (Option Text)
lines_of [] = []
lines_of (slot ∷ slots) = slot.line ∷ lines_of slots

set-append_none :
    (before : List (Option Text)) (after : List (Option Text)) (line : Option Text)
    → (get_elem? (before ++ none ∷ after) (length before) ≡ some none)
      × (set (before ++ none ∷ after) (length before) line ≡ (before ++ line ∷ []) ++ after)
set-append_none [] after line = (refl, refl)
set-append_none (x ∷ before) after line =
    let (g, s) = set-append_none before after line in (g, ap (λ l. x ∷ l) s)

read_lines-write_line :
    (o : Option Text) (f : List Text) (before after : List (Option Text)) (left : ℕ)
    (result : Option (List (Option Text)))
    → length before < tokens_len
    → IsEntry (length before) o
    → ((k : ℕ) → left ≤ k → read_lines k f ((before ++ o ∷ []) ++ after) ≡ result)
    → read_lines (suc left) (write_line o f) (before ++ none ∷ after) ≡ result
unfolding read_lines
read_lines-write_line none f before after left result h l rest =
    subst (λ b. read_lines (suc left) f b ≡ result) (append_assoc before (none ∷ []) after)
      (rest (suc left) (omega arith))
read_lines-write_line (some line) f before after left result h l rest =
    let (free, put) = set-append_none before after (some line) in
    let taken = take_line-IsNamed (length before) line (before ++ none ∷ after) h l free in
    rw (taken, put) (rest left (omega arith))

read_lines-write_lines :
    (slots : List Slot) (before : List (Option Text)) (left : ℕ)
    → length before + length slots ≤ tokens_len
    → length slots ≤ left
    → AllNamed (length before) (lines_of slots)
    → read_lines left (write_lines slots) (before ++ replicate (length slots) none)
      ≡ some (before ++ lines_of slots)
unfolding read_lines write_lines
read_lines-write_lines [] before zero h l n = refl
read_lines-write_lines [] before (suc left) h l n = refl
read_lines-write_lines (slot ∷ slots) before zero h l n = absurd (omega arith)
read_lines-write_lines (slot ∷ slots) before (suc left) h l (entry, n) =
    let longer : length (before ++ slot.line ∷ []) ≡ suc (length before) =
      omega (arith, length-append before (slot.line ∷ [])) in
    read_lines-write_line slot.line (write_lines slots) before (replicate (length slots) none) left
      (some (before ++ slot.line ∷ lines_of slots)) (omega arith) entry
      (λ k m.
        read_lines-write_lines slots (before ++ slot.line ∷ []) k (omega arith) (omega arith)
          (rw longer n)
        ∙ ap some (append_assoc before (slot.line ∷ []) (lines_of slots)))

NoNewline-append : (s t : Text) → NoNewline s → NoNewline t → NoNewline (s ++ t)
NoNewline-append [] t h k = k
NoNewline-append (c ∷ s) t (n, h) k = (n, NoNewline-append s t h k)

decimal_onto-NoNewline : (k n : ℕ) (s : Text) → NoNewline s → NoNewline (decimal_onto k n s)
decimal_onto-NoNewline zero n s h = h
decimal_onto-NoNewline (suc k) n s h = elim (Bool-cases (ltb n 10)) [
  | inl e ↦ rw e (ground arith, h)
  | inr e ↦ rw e (decimal_onto-NoNewline k (n / 10) ((b'0' + n % 10) ∷ s) (ground arith, h))
]

region-NoNewline : (a b : ℕ) → NoNewline (region a b)
unfolding decimal
region-NoNewline a b =
    let bound = decimal_onto-NoNewline (b + 1) b [] tt in
    let base = decimal_onto-NoNewline (a + 1) a [] tt in
    (refl, NoNewline-append (decimal a) (b',' ∷ decimal b) base (refl, bound))

regions-NoNewline : (offs : List ℕ) → NoNewline (regions offs)
regions-NoNewline [] = tt
regions-NoNewline (a ∷ []) = tt
regions-NoNewline (a ∷ b ∷ offs) =
    NoNewline-append (region a b) (regions offs) (region-NoNewline a b) (regions-NoNewline offs)

file_flag-NoNewline : (fp : Text) → NoNewline fp → NoNewline (file_flag fp)
file_flag-NoNewline fp h =
    let end : NoNewline (codes " -r") = (refl, (refl, (refl, tt))) in
    let start : NoNewline (codes " -f ") = (refl, (refl, (refl, (refl, tt)))) in
    NoNewline-append (codes " -f " ++ fp) (codes " -r") (NoNewline-append (codes " -f ") fp start h)
      end

EndsNumber-append : (s t : Text) → EndsNumber s → EndsNumber t → EndsNumber (s ++ t)
EndsNumber-append [] t h k = k
EndsNumber-append (c ∷ s) t h k = h

-- A line that goes on with the file and its regions.
line_with-IsNamed :
    (fp : Text) (w : ℕ) (line : Text) (offs : List ℕ)
    → NoNewline fp
    → IsNamed w line
    → IsNamed w ((line ++ file_flag fp) ++ regions offs)
line_with-IsNamed fp w line offs n (rest, same, e, h) =
    let flag = file_flag fp in
    let more = flag ++ regions offs in
    let flag_ends : EndsNumber more = refl in
    let flag_lines =
      NoNewline-append flag (regions offs) (file_flag-NoNewline fp n) (regions-NoNewline offs) in
    let together =
      append_assoc line flag (regions offs)
      ∙ ap (λ l. l ++ more) same
      ∙ append_assoc (range_name w) rest more in
    (
      rest ++ more,
      together,
      EndsNumber-append rest more e flag_ends,
      NoNewline-append rest more h flag_lines,
    )

line_with-IsEntry :
    (fp : Text) (w : ℕ) (line : Option Text) (offs : List ℕ)
    → NoNewline fp
    → IsEntry w line
    → IsEntry w (line_with fp w line offs)
line_with-IsEntry fp w line [] n h = h
line_with-IsEntry fp w none (a ∷ offs) n h =
    line_with-IsNamed fp w (range_name w) (a ∷ offs) n ([], sym (append-nil (range_name w)), tt, tt)
line_with-IsEntry fp w (some line) (a ∷ offs) n h = line_with-IsNamed fp w line (a ∷ offs) n h

slots_after-AllNamed :
    (fp text : Text) (w : ℕ) (lines : List (Option Text))
    → NoNewline fp
    → AllNamed w lines
    → AllNamed w (lines_of (slots_after fp text w lines))
slots_after-AllNamed fp text w [] n h = tt
slots_after-AllNamed fp text w (line ∷ lines) n (entry, h) = (
  line_with-IsEntry fp w line (offsets w 0 text) n entry,
  slots_after-AllNamed fp text (suc w) lines n h,
)

-- getline until the end of a file.
abbrev first_char : ℕ → List Text → List Text
first_char c [] = (c ∷ []) ∷ []
first_char c (line ∷ lines) = (c ∷ line) ∷ lines

abbrev pub getlines : Text → List Text
getlines [] = []
getlines (c ∷ s) =
    let lines = getlines s in if c == 10 then (c ∷ []) ∷ lines else first_char c lines

getlines-newline :
    (line s : Text)
    → NoNewline line
    → getlines ((line ++ 10 ∷ []) ++ s) ≡ (line ++ 10 ∷ []) ∷ getlines s
getlines-newline [] s h = refl
getlines-newline (c ∷ line) s (n, h) = rw (n, getlines-newline line s h)

range_name-NoNewline : (w : ℕ) → w < tokens_len → NoNewline (range_name w)
range_name-NoNewline w h =
    rw (range_name-digits w h)
      (refl, (refl, (refl, (refl, (refl, (ground arith, (ground arith, tt)))))))

getlines-write_line :
    (w : ℕ) (o : Option Text) (f : List Text)
    → w < tokens_len
    → IsEntry w o
    → getlines (joined f) ≡ f
    → getlines (joined (write_line o f)) ≡ write_line o f
getlines-write_line w none f h l same = same
getlines-write_line w (some line) f h (rest, is, e, n) same =
    let whole = NoNewline-append (range_name w) rest (range_name-NoNewline w h) n in
    getlines-newline line (joined f) (rw is whole) ∙ ap (λ x. (line ++ 10 ∷ []) ∷ x) same

getlines-write_lines :
    (slots : List Slot) (w : ℕ)
    → w + length slots ≤ tokens_len
    → AllNamed w (lines_of slots)
    → getlines (joined (write_lines slots)) ≡ write_lines slots
unfolding write_lines
getlines-write_lines [] w h l = refl
getlines-write_lines (slot ∷ slots) w h (entry, l) =
    getlines-write_line w slot.line (write_lines slots) (omega arith) entry
      (getlines-write_lines slots (suc w) (omega arith) l)

length-slots_after :
    (fp text : Text) (w : ℕ) (lines : List (Option Text))
    → length (slots_after fp text w lines) ≡ length lines
length-slots_after fp text w [] = refl
length-slots_after fp text w (line ∷ lines) = ap suc (length-slots_after fp text (suc w) lines)

-- If the lines of the 28 tokens, where there are any, are their names followed by no digit and hold no newline,
-- and neither does the name of the file, the list that a run writes over them is accepted by the next
-- run, which reads for each token the line that was written.
pub read_lines-slots_after :
    (fp text : Text) (lines : List (Option Text))
    → NoNewline fp
    → length lines ≡ tokens_len
    → AllNamed 0 lines
    → read_lines tokens_len
        (getlines (joined (write_lines (slots_after fp text 0 lines))))
        (replicate tokens_len none)
      ≡ some (lines_of (slots_after fp text 0 lines))
read_lines-slots_after fp text lines n l h =
    let slots = slots_after fp text 0 lines in
    let all : length slots ≡ tokens_len = length-slots_after fp text 0 lines ∙ l in
    let started = slots_after-AllNamed fp text 0 lines n h in
    let read = read_lines-write_lines slots [] tokens_len (omega arith) (omega arith) started in
    rw (getlines-write_lines slots 0 (omega arith) started)
      (ap (λ k. read_lines tokens_len (write_lines slots) (replicate k none)) (sym all) ∙ read)
