-- ===== src/Files/Search.antt =====
-- file.c, oracle_search: the search line by line against a search in the whole text.
use b_project.Base.{
  ℕ, suc, ◌+◌, ◌≡◌, ◌≢◌, refl, ap, ◌∙◌, true, false, Option, none, some, List, [], ◌∷◌, ◌==◌,
  if◌then◌else◌, length, drop, All, Bool-cases, inl, inr, arith,
}
use b_project.Base.Text.{Text, starts_with}
use b_project.Files.Swap.{
  strstr, later_by_one, in_line, getlines, first_line, search_lines, oracle_search,
}

-- The place of the first occurrence in a text, in which lines and NUL bytes mean nothing.
unfoldable pub find : Text → Text → Option ℕ
find [] oracle = if starts_with [] oracle then some 0 else none
find (c ∷ s) oracle =
    let later = find s oracle in if starts_with (c ∷ s) oracle then some 0 else later_by_one later

abbrev pub shift : ℕ → Option ℕ → Option ℕ
shift k none = none
shift k (some n) = some (k + n)

shift-later_by_one : (k : ℕ) (r : Option ℕ) → shift (k + 1) r ≡ shift k (later_by_one r)
shift-later_by_one k none = refl
shift-later_by_one k (some n) = ap some (omega arith)

in_line-later_by_one :
    (ret : ℕ) (behind r : Option ℕ)
    → in_line ret behind (later_by_one r) ≡ in_line (ret + 1) behind r
in_line-later_by_one ret behind none = refl
in_line-later_by_one ret behind (some n) = ap some (omega arith)

abbrev pub NoNewline : Text → Type 0
NoNewline = All (λ c. c ≢ 10)

abbrev pub NoNul : Text → Type 0
NoNul = All (λ c. c ≢ 0)

abbrev first_of : List Text → Text
first_of [] = []
first_of (line ∷ lines) = line

first_of-first_line :
    (c : ℕ) (lines : List Text) → first_of (first_line c lines) ≡ c ∷ first_of lines
first_of-first_line c [] = refl
first_of-first_line c (line ∷ lines) = refl

-- An oracle without a newline begins a text exactly if it begins its first line.
starts_with-first_of :
    (s o : Text) → NoNewline o → starts_with (first_of (getlines s)) o ≡ starts_with s o
unfolding getlines
starts_with-first_of s [] h = refl
starts_with-first_of [] (x ∷ o) h = refl
starts_with-first_of (c ∷ s) (x ∷ o) (h, hs) = elim (Bool-cases (c == 10)) [
  | inl e ↦ let ne : (c == x) ≡ false = ground arith in rw (e, ne)
  | inr e ↦ rw (e, first_of-first_line c (getlines s), starts_with-first_of s o hs)
]

-- A line that does not end the search at its first byte.
search_lines-first_line :
    (c : ℕ) (lines : List Text) (x : ℕ) (o : Text) (ret : ℕ)
    → c ≢ 0
    → starts_with (c ∷ first_of lines) (x ∷ o) ≡ false
    → search_lines (first_line c lines) (x ∷ o) ret ≡ search_lines lines (x ∷ o) (ret + 1)
unfolding search_lines strstr
search_lines-first_line c [] x o ret h e =
    let z : (c == 0) ≡ false = ground arith in rw (search_lines, strstr, e, z)
search_lines-first_line c (line ∷ lines) x o ret h e =
    let z : (c == 0) ≡ false = ground arith in
    let n : ret + suc (length line) ≡ ret + 1 + length line = omega arith in
    rw (e, z, n)
      (in_line-later_by_one ret (search_lines lines (x ∷ o) (ret + 1 + length line))
        (strstr line (x ∷ o)))

search_lines-found :
    (c : ℕ) (lines : List Text) (x : ℕ) (o : Text) (ret : ℕ)
    → starts_with (c ∷ first_of lines) (x ∷ o) ≡ true
    → search_lines (first_line c lines) (x ∷ o) ret ≡ some (ret + 0)
unfolding search_lines strstr
search_lines-found c [] x o ret e = rw (search_lines, strstr, e)
search_lines-found c (line ∷ lines) x o ret e = rw (search_lines, strstr, e)

search_lines-find :
    (s : Text) (x : ℕ) (o : Text) (ret : ℕ)
    → NoNewline (x ∷ o)
    → NoNul s
    → search_lines (getlines s) (x ∷ o) ret ≡ shift ret (find s (x ∷ o))
unfolding getlines search_lines strstr find
search_lines-find [] x o ret h z = refl
search_lines-find (c ∷ s) x o ret h (z, zs) =
    let ih = search_lines-find s x o (ret + 1) h zs in
    let later = shift-later_by_one ret (find s (x ∷ o)) in
    let (hx, ho) = h in
    let g : starts_with (c ∷ first_of (getlines s)) (x ∷ o) ≡ starts_with (c ∷ s) (x ∷ o) =
      rw (starts_with-first_of s o ho) in
    elim (Bool-cases (c == 10)) [
      | inl e ↦
          let nx : (c == x) ≡ false = ground arith in
          let nz : (c == 0) ≡ false = ground arith in rw (e, nx, nz) (ih ∙ later)
      | inr e ↦ elim (Bool-cases (starts_with (c ∷ s) (x ∷ o))) [
        | inl f ↦ rw (e, f) (search_lines-found c (getlines s) x o ret (g ∙ f))
        | inr f ↦ rw (e, f) (search_lines-first_line c (getlines s) x o ret z (g ∙ f) ∙ ih ∙ later)
      ]
    ]

-- When fdopen gives a stream, in a text without NUL bytes, oracle_search gives the place of the first
-- occurrence behind `off` of an
-- oracle that is not empty and holds no newline, and fails only where there is none.
pub oracle_search-find :
    (swp : List ℕ) (x : ℕ) (o : Text) (off : ℕ)
    → NoNewline (x ∷ o)
    → NoNul (drop off swp)
    → oracle_search true swp (x ∷ o) off ≡ shift off (find (drop off swp) (x ∷ o))
unfolding oracle_search
oracle_search-find swp x o off h z = search_lines-find (drop off swp) x o off h z
