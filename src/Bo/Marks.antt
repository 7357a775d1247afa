-- ===== src/Bo/Marks.antt =====
-- main of bo.c: the text is copied without its marks, whose offsets become regions.
use b_project.Base.{
  ℕ, suc, ◌+◌, ◌%◌, ◌^◌, ◌<◌, ◌≡◌, refl, ap, ◌∙◌, Bool, false, Option, none, some, List, [], ◌∷◌,
  ◌++◌, All, length, replicate, ◌==◌, if◌then◌else◌, append_assoc, length-append, get_elem?_inside,
  Bool-cases, inl, inr, arith, append-nil,
}
use b_project.Base.Text.{Text}
use b_project.Bo.{
  tokens, tokens_len, token_of, goes_on, mark_or_byte, mark_slot, read_byte, read_bytes, read_text,
  read_lines, write_lines, joined, overwritten, exits, finish, with_lines, bo, unmarked,
}
use b_project.Bo.Regions.{Small, Gives, add_range-slot_with}
use b_project.Bo.Places.{
  unmarked_text, offsets, slots_after, state_after, unmarked_text-snoc, slots_after-others,
  slots_after-set, get_elem?-slots_after, length-unmarked_text, offsets-Small, index_of-bound,
}
use b_project.Bo.Length.{read_lines-length}

-- What the run needs of the text: no NUL byte, and a length that a long holds.
abbrev pub NoNul : Text → Type 0
NoNul text = All (λ b. (b == 0) ≡ false) text

mark_or_byte-state_after :
    (gives : ℕ → Bool) (fp : Text) (lines : List (Option Text)) (text : Text) (b : ℕ) (o : Option ℕ)
    → Gives gives
    → Small (suc (length text))
    → ((w : ℕ) → o ≡ some w → w < length lines)
    → token_of b ≡ o
    → mark_or_byte gives fp b (state_after fp lines text) o
      ≡ goes_on (state_after fp lines (text ++ b ∷ []))
unfolding mark_or_byte mark_slot
mark_or_byte-state_after gives fp lines text b none g h bound e =
    let same = slots_after-others fp lines 0 b text (λ v l. rw e refl) in
    let short = length-unmarked_text text in
    elim (Bool-cases (b == 13)) [
      | inl cr ↦ rw (cr, same, unmarked_text-snoc text b, e, cr, append-nil)
      | inr other ↦
          let grown = length-append (unmarked_text text) (b ∷ []) in
          let wraps : (length (unmarked_text text) + 1) % 2 ^ 64 ≡ length (unmarked_text text) + 1 =
            omega arith in
          rw (other, same, unmarked_text-snoc text b, e, other, grown, wraps)
    ]
mark_or_byte-state_after gives fp lines text b (some w) g h bound e =
    let (line, found) = get_elem?_inside lines w (bound w refl) in
    let at : w ≡ 0 + w = omega arith in
    let here = get_elem?-slots_after fp lines line 0 w w text at found in
    let short = length-unmarked_text text in
    let done =
      add_range-slot_with gives fp (length (unmarked_text text)) w line (offsets w 0 text) g
        (omega arith) (offsets-Small w 0 text (omega arith)) in
    let slots = slots_after-set fp lines line 0 w w b text at e found in
    rw (here, done, slots, unmarked_text-snoc text b, e, append-nil)

read_byte-state_after :
    (gives : ℕ → Bool) (fp : Text) (lines : List (Option Text)) (text : Text) (b : ℕ)
    → Gives gives
    → length lines ≡ tokens_len
    → Small (suc (length text))
    → (b == 0) ≡ false
    → read_byte gives fp b (state_after fp lines text)
      ≡ goes_on (state_after fp lines (text ++ b ∷ []))
unfolding read_byte token_of
read_byte-state_after gives fp lines text b g l h n =
    let bound : (w : ℕ) → token_of b ≡ some w → w < length lines =
      λ w e. omega (arith, index_of-bound tokens b w n e) in
    mark_or_byte-state_after gives fp lines text b (token_of b) g h bound refl

read_bytes-state_after :
    (gives : ℕ → Bool) (fp : Text) (lines : List (Option Text)) (before line : Text)
    → Gives gives
    → length lines ≡ tokens_len
    → Small (length before + length line)
    → NoNul line
    → read_bytes gives fp line (state_after fp lines before)
      ≡ goes_on (state_after fp lines (before ++ line))
unfolding read_bytes
read_bytes-state_after gives fp lines before [] g l h n = rw (append-nil)
read_bytes-state_after gives fp lines before (b ∷ line) g l h (n, ns) =
    let one = read_byte-state_after gives fp lines before b g l (omega arith) n in
    let longer = length-append before (b ∷ []) in
    let rest = read_bytes-state_after gives fp lines (before ++ b ∷ []) line g l (omega arith) ns in
    rw one (rest ∙ ap (λ t. goes_on (state_after fp lines t)) (append_assoc before (b ∷ []) line))

All-split {ℓ} :
    {A : Type ℓ} (P : A → Type 0) (xs ys : List A) → All P (xs ++ ys) → All P xs × All P ys
All-split P [] ys h = (tt, h)
All-split P (x ∷ xs) ys (p, h) = let (a, b) = All-split P xs ys h in ((p, a), b)

read_text-state_after :
    (gives : ℕ → Bool) (fp : Text) (lines : List (Option Text)) (before : Text) (stdin : List Text)
    → Gives gives
    → length lines ≡ tokens_len
    → Small (length before + length (joined stdin))
    → NoNul (joined stdin)
    → read_text gives fp stdin (state_after fp lines before)
      ≡ goes_on (state_after fp lines (before ++ joined stdin))
unfolding read_text
read_text-state_after gives fp lines before [] g l h n = rw (append-nil)
read_text-state_after gives fp lines before (line ∷ stdin) g l h n =
    let (n1, n2) = All-split (λ b. (b == 0) ≡ false) line (joined stdin) n in
    let whole = length-append line (joined stdin) in
    let longer = length-append before line in
    let one = read_bytes-state_after gives fp lines before line g l (omega arith) n1 in
    let rest = read_text-state_after gives fp lines (before ++ line) stdin g l (omega arith) n2 in
    rw one
      (rest ∙ ap (λ t. goes_on (state_after fp lines t)) (append_assoc before line (joined stdin)))

unmarked-slots_after :
    (fp : Text) (w : ℕ) (lines : List (Option Text)) → unmarked lines ≡ slots_after fp [] w lines
unmarked-slots_after fp w [] = refl
unmarked-slots_after fp w (line ∷ lines) = rw (unmarked-slots_after fp (suc w) lines)

-- If every line of the list is accepted, realloc gives memory, and the text has no NUL byte and is shorter
-- than 2^63, the program copies the text without its marks and carriage returns, and writes over the list
-- the lines of the tokens in order: a token whose mark is not found keeps its line, and a line with
-- marks goes on with the file and the regions between the first and the second mark, the third and the
-- fourth, and so on, by their places in the copy.
pub bo-slots_after :
    (gives : ℕ → Bool) (tells : Bool) (fp : Text) (f_range stdin : List Text)
    (lines : List (Option Text))
    → Gives gives
    → read_lines tokens_len f_range (replicate tokens_len none) ≡ some lines
    → NoNul (joined stdin)
    → Small (length (joined stdin))
    → bo gives tells fp f_range stdin
      ≡ exits (if tells then 0 else 1) (unmarked_text (joined stdin)) (
          overwritten tells
            (joined f_range)
            (joined (write_lines (slots_after fp (joined stdin) 0 lines))))
unfolding bo with_lines finish
bo-slots_after gives tells fp f_range stdin lines g r n h =
    let l : length lines ≡ tokens_len =
      read_lines-length tokens_len f_range (replicate tokens_len none) lines r in
    let done = read_text-state_after gives fp lines [] stdin g l (omega arith) n in
    rw (r, unmarked-slots_after fp 0 lines, done)
