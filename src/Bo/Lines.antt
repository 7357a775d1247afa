-- ===== src/Bo/Lines.antt =====
-- A line of the list as bo writes it is read as the line of its token.
use b_project.Base.{
  ℕ, zero, suc, ◌+◌, ◌-◌, ◌*◌, ◌/◌, ◌%◌, ◌^◌, ◌≤◌, ◌<◌, min, ◌≡◌, refl, ap, ◌∙◌, true, false, ◌&&◌,
  ◌||◌, Option, none, some, List, [], ◌∷◌, ◌++◌, All, length, get_elem?, set, take, leb, ltb, ◌==◌,
  length-append, take-append_left, take_all, Bool-cases, inl, inr, arith,
}
use b_project.Base.Text.{Text, decimal, is_digit, read_digits, read_digits-digit}
use b_project.Bo.{
  tokens_len, range_w, range_name, line_index, atoi, skip_spaces, take_line, is_empty_line,
}

decimal_two_digits : (n : ℕ) → 9 < n → n < 100 → decimal n ≡ (b'0' + n / 10) ∷ (b'0' + n % 10) ∷ []
unfolding decimal
decimal_two_digits zero l h = absurd (omega arith)
decimal_two_digits (suc n) l h =
    let long : ltb (suc n) 10 ≡ false = ground arith in
    let fuel : suc n + 1 ≡ suc (suc n) = omega arith in
    let short : ltb (suc n / 10) 10 ≡ true = ground arith in rw (fuel, long, short)

decimal_digit : (n : ℕ) → n < 10 → decimal n ≡ (b'0' + n) ∷ []
unfolding decimal
decimal_digit n h =
    let fuel : n + 1 ≡ suc n = omega arith in
    let short : ltb n 10 ≡ true = ground arith in rw (fuel, short)

-- The number of a token is written with two digits.
pub range_name-digits :
    (w : ℕ)
    → w < tokens_len
    → range_name w ≡ range_w ++ (b'0' + suc w / 10) ∷ (b'0' + suc w % 10) ∷ []
unfolding range_name
range_name-digits w h =
    let n : w + 1 ≡ suc w = omega arith in
    elim (Bool-cases (ltb (suc w) 10)) [
      | inl e ↦
          let l : suc w < 10 = ground arith in
          let first : b'0' + suc w / 10 ≡ b'0' = omega arith in
          let second : b'0' + suc w % 10 ≡ b'0' + suc w = omega arith in
          rw (n, decimal_digit (suc w) l, first, second)
      | inr e ↦ rw (n, decimal_two_digits (suc w) (ground arith) (omega arith))
    ]

-- A number ends where the text does, or before a byte that is no digit.
abbrev pub EndsNumber : Text → Type 0
EndsNumber [] = Unit
EndsNumber (c ∷ s) = is_digit c ≡ false

read_digits-EndsNumber : (acc : ℕ) (s : Text) → EndsNumber s → (read_digits acc s).0 ≡ acc
read_digits-EndsNumber acc [] h = refl
read_digits-EndsNumber acc (c ∷ s) h = rw h

atoi-two_digits :
    (a b : ℕ) (s : Text)
    → a < 10
    → b < 10
    → EndsNumber s
    → atoi ((b'0' + a) ∷ (b'0' + b) ∷ s) ≡ a * 10 + b
unfolding atoi skip_spaces
atoi-two_digits a b s ha hb e =
    let t = (b'0' + a) ∷ (b'0' + b) ∷ s in
    let no_space : (b'0' + a == b' ' || (leb 9 (b'0' + a) && leb (b'0' + a) 13)) ≡ false =
      ground arith in
    let no_minus : (b'0' + a == b'-') ≡ false = ground arith in
    let no_plus : (b'0' + a == b'+') ≡ false = ground arith in
    let value : (read_digits 0 t).0 ≡ a * 10 + b =
      ap (λ r. r.0)
        (read_digits-digit 0 a ((b'0' + b) ∷ s) ha ∙ read_digits-digit (0 * 10 + a) b s hb)
      ∙ read_digits-EndsNumber ((0 * 10 + a) * 10 + b) s e
      ∙ omega arith in
    let small : min (a * 10 + b) (2 ^ 63 - 1) % 2 ^ 32 ≡ a * 10 + b = omega arith in
    rw (no_space, no_minus, no_plus, value) small

-- A line of token w as bo writes it: its name, and no more digits; the line of a list has no newline.
abbrev pub NoNewline : Text → Type 0
NoNewline s = All (λ c. (c == 10) ≡ false) s

abbrev pub IsNamed : ℕ → Text → Type 0
IsNamed w line = (rest : Text) × (line ≡ range_name w ++ rest) × EndsNumber rest × NoNewline rest

abbrev pub IsEntry : ℕ → Option Text → Type 0
IsEntry w none = Unit
IsEntry w (some line) = IsNamed w line

abbrev pub AllNamed : ℕ → List (Option Text) → Type 0
AllNamed w [] = Unit
AllNamed w (o ∷ lines) = IsEntry w o × AllNamed (suc w) lines

EndsNumber-newline : (s : Text) → EndsNumber s → EndsNumber (s ++ 10 ∷ [])
EndsNumber-newline [] h = refl
EndsNumber-newline (c ∷ s) h = h

line_index-digits :
    (a b : ℕ) (rest : Text)
    → a < 10
    → b < 10
    → 0 < a * 10 + b
    → a * 10 + b ≤ tokens_len
    → EndsNumber rest
    → 0 < length rest
    → line_index (range_w ++ (b'0' + a) ∷ (b'0' + b) ∷ rest) ≡ some (a * 10 + b - 1)
unfolding line_index
line_index-digits a b rest ha hb low high e l =
    let long : leb 8 (suc (suc (suc (suc (suc (suc (suc (length rest)))))))) ≡ true =
      ground arith in
    let inside : (leb 1 (a * 10 + b) && leb (a * 10 + b) tokens_len) ≡ true = ground arith in
    rw (long, atoi-two_digits a b rest ha hb e, inside)

line_index-IsNamed :
    (w : ℕ) (line : Text)
    → w < tokens_len
    → IsNamed w line
    → (is_empty_line (line ++ 10 ∷ []) ≡ false) × (line_index (line ++ 10 ∷ []) ≡ some w)
line_index-IsNamed w line h (rest, same, e, n) =
    let digits = range_name-digits w h in
    let more : 0 < length (rest ++ 10 ∷ []) = omega (arith, length-append rest (10 ∷ [])) in
    let number : suc w / 10 * 10 + suc w % 10 - 1 ≡ w = omega arith in
    let found =
      line_index-digits (suc w / 10) (suc w % 10) (rest ++ 10 ∷ []) (omega arith) (omega arith)
        (omega arith) (omega arith) (EndsNumber-newline rest e) more in
    rw (same, digits) (refl, found ∙ ap some number)

length-minus_newline : (line : Text) → take (length (line ++ 10 ∷ []) - 1) (line ++ 10 ∷ []) ≡ line
length-minus_newline line =
    let whole = length-append line (10 ∷ []) in
    let at : length (line ++ 10 ∷ []) - 1 ≡ length line = omega arith in
    rw (at, take-append_left (length line) line (10 ∷ []) (omega arith))
      (take_all (length line) line (omega arith))

pub take_line-IsNamed :
    (w : ℕ) (line : Text) (lines : List (Option Text))
    → w < tokens_len
    → IsNamed w line
    → get_elem? lines w ≡ some none
    → take_line (line ++ 10 ∷ []) lines ≡ some (set lines w (some line))
unfolding take_line
take_line-IsNamed w line lines h l free =
    let (e, i) = line_index-IsNamed w line h l in rw (e, i, free, length-minus_newline line)
