-- ===== src/Options/Entries.antt =====
-- get_oracles: the line that is taken, and what becomes of its two oracles.
use b_project.Base.{
  ℕ, suc, ◌+◌, ◌≤◌, ◌<◌, ◌≡◌, refl, ap, ◌∙◌, Bool, true, false, ◌&&◌, none, some, List, [], ◌∷◌,
  ◌++◌, All, length, drop, set, ltb, ◌==◌, if◌then◌else◌, append_assoc, length-append, Bool-cases,
  inl, inr, arith,
}
use b_project.Base.Text.{Text}
use b_project.Options.{
  is_blank, skip_blanks, leading, word, token, up_to_nul, newline_to_blank, target_rest, no_token,
  skipped, oracles, bad_copy, with_second, from_target, get_oracles,
}
use b_project.Options.Words.{
  written, Writable, left, fits, get_an_oracle-written, get_an_oracle-left,
}
use b_project.Options.Lines.{names_file, about_others, choose_line-append, choose_line-named}

-- A line: a name, two oracles and the newline.
abbrev pub line_of : Text → Text → Text
line_of name body = name ++ b' ' ∷ (body ++ 10 ∷ [])

abbrev IsName : Text → Type 0
IsName name = All (λ c. is_blank c ≡ false) name × (no_token name ≡ false)

abbrev pub NoNul : Text → Type 0
NoNul body = All (λ c. (c == 0) ≡ false) body

word-append :
    (name rest : Text) → All (λ c. is_blank c ≡ false) name → word (name ++ b' ' ∷ rest) ≡ name
unfolding word
word-append [] rest h = refl
word-append (c ∷ name) rest (n, h) = rw (n, word-append name rest h) refl

token-line_of :
    (name body : Text)
    → IsName name
    → (token (line_of name body) ≡ name) × (leading (line_of name body) ≡ 0)
unfolding skip_blanks leading
token-line_of [] body (h, n) = absurd (cc)
token-line_of (c ∷ name) body ((b, h), n) =
    (rw b (word-append (c ∷ name) (body ++ 10 ∷ []) (b, h)), rw b refl)

set-append : (xs : Text) (y v : ℕ) (ys : Text) → set (xs ++ y ∷ ys) (length xs) v ≡ xs ++ v ∷ ys
set-append [] y v ys = refl
set-append (x ∷ xs) y v ys = ap (λ l. x ∷ l) (set-append xs y v ys)

drop-append_suc : (xs : Text) (v : ℕ) (ys : Text) → drop (suc (length xs)) (xs ++ v ∷ ys) ≡ ys
drop-append_suc [] v ys = refl
drop-append_suc (x ∷ xs) v ys = drop-append_suc xs v ys

newline_to_blank-append : (xs : Text) → newline_to_blank (xs ++ 10 ∷ []) ≡ xs ++ b' ' ∷ []
unfolding newline_to_blank
newline_to_blank-append [] = refl
newline_to_blank-append (c ∷ []) = refl
newline_to_blank-append (c ∷ d ∷ xs) = ap (λ l. c ∷ l) (newline_to_blank-append (d ∷ xs))

up_to_nul-NoNul :
    (body : Text) → NoNul body → up_to_nul (body ++ b' ' ∷ b' ' ∷ []) ≡ body ++ b' ' ∷ b' ' ∷ []
unfolding up_to_nul
up_to_nul-NoNul [] h = refl
up_to_nul-NoNul (c ∷ body) (n, h) = rw (n, up_to_nul-NoNul body h) refl

target_rest-line_of :
    (name body : Text)
    → IsName name
    → NoNul body
    → target_rest (line_of name body) ≡ body ++ b' ' ∷ b' ' ∷ []
unfolding target_rest
target_rest-line_of name body h n =
    let (same, zero_) = token-line_of name body h in
    let cut = set-append name b' ' 0 (body ++ 10 ∷ []) in
    let whole = append_assoc name (0 ∷ body) (10 ∷ []) in
    let ended = newline_to_blank-append (name ++ 0 ∷ body) in
    let at : ◌≡◌ {A = ℕ} (0 + length name) (length name) = omega arith in
    rw
      (
        same,
        zero_,
        at,
        cut,
        ← whole,
        ended,
        append_assoc,
        append_assoc,
        drop-append_suc name 0 (body ++ b' ' ∷ b' ' ∷ []),
      )
      (up_to_nul-NoNul body n)

-- The body of a line: two oracles, each between quotes or as a word.
abbrev pub two_oracles : Bool → Text → Bool → Text → Text
two_oracles q1 open_oracle q2 close = written q1 open_oracle ++ b' ' ∷ written q2 close

second_of :
    (fitting : Bool) (a b rest : Text)
    → with_second a (if fitting then some (b, rest) else none)
      ≡ (if fitting then oracles a b else bad_copy)
second_of true a b rest = refl
second_of false a b rest = refl

written-pos : (q1 q2 : Bool) (a b : Text) → 0 < length (two_oracles q1 a q2 b)
written-pos q1 q2 a b = omega (arith, length-append (written q1 a) (b' ' ∷ written q2 b))

skipped-line_of :
    (name body : Text) → IsName name → 0 < length body → skipped (line_of name body) ≡ false
skipped-line_of [] body (h, n) l = absurd (cc)
skipped-line_of (c ∷ name) body n l =
    let (same, z) = token-line_of (c ∷ name) body n in
    let at_least : 4 ≤ length (line_of (c ∷ name) body) =
      omega (
        arith,
        length-append (c ∷ name) (b' ' ∷ (body ++ 10 ∷ [])),
        length-append body (10 ∷ []),
      ) in
    let enough : ltb (length (line_of (c ∷ name) body)) 4 ≡ false = ground arith in
    rw (enough, same) n.1

with_first-two_oracles :
    (q1 q2 : Bool) (open_oracle close : Text)
    → Writable q1 open_oracle
    → Writable q2 close
    → from_target (some (two_oracles q1 open_oracle q2 close ++ b' ' ∷ b' ' ∷ []))
      ≡ (if fits open_oracle && fits close then oracles open_oracle close else bad_copy)
with_first-two_oracles q1 q2 a b h1 h2 =
    let rest = written q2 b ++ b' ' ∷ b' ' ∷ [] in
    let second = get_an_oracle-left q1 rest ∙ get_an_oracle-written q2 b (b' ' ∷ []) h2 in
    rw
      (
        append_assoc (written q1 a) (b' ' ∷ written q2 b) (b' ' ∷ b' ' ∷ []),
        get_an_oracle-written q1 a rest h1,
      )
      (elim (Bool-cases (fits a)) [
        | inl yes_a ↦ rw (yes_a, second) (second_of (fits b) a b (left q2 (b' ' ∷ [])))
        | inr no_a ↦ rw no_a refl
      ])

-- Of the lines of the file one has a name that fits the path: the path, its last part, or a star and its
-- extension. With memory, and no NUL in the line, its two oracles, each written as a word or between
-- quotes, are taken if both have 8 to 255 bytes; if one has not, strcpy copies from memory that was freed
-- or from NULL.
pub get_oracles-two_oracles :
    (c : ℕ) (options_path path name : Text) (q1 q2 : Bool) (open_oracle close : Text)
    (before after : List Text)
    → All (λ line. about_others path line ≡ true) before
    → All (λ line. about_others path line ≡ true) after
    → IsName name
    → names_file path name ≡ true
    → Writable q1 open_oracle
    → Writable q2 close
    → NoNul (two_oracles q1 open_oracle q2 close)
    → get_oracles true
        (c ∷ options_path)
        (some (before ++ line_of name (two_oracles q1 open_oracle q2 close) ∷ after))
        path
      ≡ (if fits open_oracle && fits close then oracles open_oracle close else bad_copy)
unfolding get_oracles
get_oracles-two_oracles c options_path path name q1 q2 a b before after h1 h2 n named w1 w2 nul =
    let body = two_oracles q1 a q2 b in
    let line = line_of name body in
    let read = skipped-line_of name body n (written-pos q1 q2 a b) in
    let about : names_file path (token line) ≡ true =
      ap (names_file path) (token-line_of name body n).0 ∙ named in
    let taken =
      choose_line-append path before (line ∷ after) 0 none h1
      ∙ choose_line-named path line after read about h2
      ∙ ap some (target_rest-line_of name body n nul) in
    ap from_target taken ∙ with_first-two_oracles q1 q2 a b w1 w2
