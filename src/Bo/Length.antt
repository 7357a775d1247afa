-- ===== src/Bo/Length.antt =====
-- read_lines keeps one entry for each token.
use b_project.Base.{
  ℕ, zero, suc, ◌-◌, ◌≡◌, ap, ◌∙◌, Option, none, some, List, [], ◌∷◌, length, get_elem?, set, take,
  length-set, subst, Bool-cases, Option-cases, inl, inr,
}
use b_project.Base.Text.{Text}
use b_project.Bo.{read_lines, put_line, store_line, take_line, line_index, is_empty_line}

put_line-length :
    (line : Text) (j : ℕ) (lines lines' : List (Option Text)) (o : Option (Option Text))
    → put_line line j lines o ≡ some lines'
    → length lines' ≡ length lines
put_line-length line j lines lines' none h = absurd (cc)
put_line-length line j lines lines' (some (some l)) h = absurd (cc)
put_line-length line j lines lines' (some none) h =
    let e : set lines j (some (take (length line - 1) line)) ≡ lines' = cc in
    subst (λ l. length l ≡ length lines) e (length-set lines j (some (take (length line - 1) line)))

store_line-length :
    (line : Text) (lines lines' : List (Option Text)) (o : Option ℕ)
    → store_line line lines o ≡ some lines'
    → length lines' ≡ length lines
store_line-length line lines lines' none h = absurd (cc)
store_line-length line lines lines' (some j) h =
    put_line-length line j lines lines' (get_elem? lines j) h

length-same :
    (lines lines' : List (Option Text)) → some lines ≡ some lines' → length lines' ≡ length lines
length-same lines lines' h = let e : lines' ≡ lines = cc in ap length e

take_line-length :
    (line : Text) (lines lines' : List (Option Text))
    → take_line line lines ≡ some lines'
    → length lines' ≡ length lines
unfolding take_line
take_line-length line lines lines' h = elim (Bool-cases (is_empty_line line)) [
  | inl e ↦ let same : some lines ≡ some lines' = rw e at h in length-same lines lines' same
  | inr e ↦
      let stored : store_line line lines (line_index line) ≡ some lines' = rw e at h in
      store_line-length line lines lines' (line_index line) stored
]

pub read_lines-length :
    (left : ℕ) (f_range : List Text) (lines lines' : List (Option Text))
    → read_lines left f_range lines ≡ some lines'
    → length lines' ≡ length lines
unfolding read_lines
read_lines-length zero f_range lines lines' h = length-same lines lines' h
read_lines-length (suc left) [] lines lines' h = length-same lines lines' h
read_lines-length (suc left) (line ∷ f_range) lines lines' h =
    elim (Option-cases (take_line line lines)) [
      | inl e ↦ let bad : none ≡ some lines' = rw e at h in absurd (cc)
      | inr (mid, e) ↦
          let rest : read_lines left f_range mid ≡ some lines' = rw e at h in
          read_lines-length left f_range mid lines' rest ∙ take_line-length line lines mid e
    ]
