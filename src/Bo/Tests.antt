-- ===== src/Bo/Tests.antt =====
-- bo at concrete texts.
use b_project.Base.{
  ℕ, zero, suc, arith, ◌≡◌, refl, Bool, true, Option, none, some, List, [], ◌∷◌, ◌++◌, replicate,
  any-All, ◌==◌,
}
use b_project.Base.Text.{Text, codes}
use b_project.Bo.{
  range_name, bo, exits, undefined, tokens_len, read_lines, write_lines, joined, overwritten,
}
use b_project.Bo.Places.{unmarked_text, slots_after}
use b_project.Bo.Marks.{bo-slots_after}
use b_project.Bo.Lines.{AllNamed}
use b_project.Bo.Reread.{getlines, lines_of, read_lines-slots_after}

abbrev list : Text
list = codes "Range01 -f y -r 0,1"

abbrev text : Text
text = 1 ∷ codes "ab" ++ 1 ∷ 2 ∷ codes "c" ++ 13 ∷ 10 ∷ []

abbrev list_lines : List (Option Text)
list_lines = some list ∷ replicate 27 none

abbrev enough : ℕ → Bool
enough n = true

two_marks :
    bo enough true (codes "x") ((list ++ 10 ∷ []) ∷ []) (text ∷ [])
    ≡ exits 0
        (codes "abc" ++ 10 ∷ [])
        (list ++ codes " -f x -r 0,2" ++ 10 ∷ codes "Range02 -f x -r" ++ 10 ∷ [])
unfolding bo
two_marks = refl

list_read :
    read_lines tokens_len ((list ++ 10 ∷ []) ∷ []) (replicate tokens_len none) ≡ some list_lines
unfolding read_lines
list_read = refl

bo-slots_after_example :
    bo enough true (codes "x") ((list ++ 10 ∷ []) ∷ []) (text ∷ [])
    ≡ exits 0 (unmarked_text (joined (text ∷ []))) (
        overwritten true
          (joined ((list ++ 10 ∷ []) ∷ []))
          (joined (write_lines (slots_after (codes "x") (joined (text ∷ [])) 0 list_lines))))
bo-slots_after_example =
    bo-slots_after enough true (codes "x") ((list ++ 10 ∷ []) ∷ []) (text ∷ []) list_lines
      (λ n. refl) list_read (any-All (λ b. b == 0) (joined (text ∷ [])) refl) (omega arith)

replicate-AllNamed : (w n : ℕ) → AllNamed w (replicate n none)
replicate-AllNamed w zero = tt
replicate-AllNamed w (suc n) = (tt, replicate-AllNamed (suc w) n)

list_lines-AllNamed : AllNamed 0 list_lines
unfolding range_name
list_lines-AllNamed = (
  (codes " -f y -r 0,1", refl, refl, any-All (λ c. c == 10) (codes " -f y -r 0,1") refl),
  replicate-AllNamed 1 27,
)

read_lines-slots_after_example :
    read_lines tokens_len
      (getlines (joined (write_lines (slots_after (codes "x") text 0 list_lines))))
      (replicate tokens_len none)
    ≡ some (lines_of (slots_after (codes "x") text 0 list_lines))
read_lines-slots_after_example =
    read_lines-slots_after (codes "x") text list_lines (any-All (λ c. c == 10) (codes "x") refl)
      refl list_lines-AllNamed

-- strchr finds the NUL at the end of the tokens, whose index is behind the arrays.
nul_byte : bo enough true (codes "x") [] ((0 ∷ []) ∷ []) ≡ undefined
unfolding bo
nul_byte = refl
