-- ===== src/Cli/NewRange/Rounds.antt =====
-- Two rounds of the loop of the mode -g: an -f and an -r.
use b_project.Base.{
  ℕ, zero, suc, ◌+◌, ◌/◌, ◌%◌, ◌<◌, ◌≡◌, refl, Bool, true, false, List, [], ◌∷◌, ◌++◌, map, length,
  ltb, Bool-cases, inl, inr, arith,
}
use b_project.Base.Text.{Text, codes, decimal, decimal_onto}
use b_project.Range.{Range, RangeFile}
use b_project.Cli.Getopt.{getopt}
use b_project.Cli.Edit.{is_option}
use b_project.Cli.Edit.Optargs.{Plain, Stops, optargs-append, from_option-append}
use b_project.Cli.NewRange.{on_built, add_group, group_loop, group_step}
use b_project.Cli.NewRange.Group.{region_arg}

digit_first : (k n : ℕ) (s : Text) → n < k → is_option (decimal_onto k n s) ≡ false
digit_first zero n s h = absurd (omega arith)
digit_first (suc k) n s h = elim (Bool-cases (ltb n 10)) [
  | inl e ↦ rw e (ground arith)
  | inr e ↦ rw e (digit_first k (n / 10) ((b'0' + n % 10) ∷ s) (ground arith))
]

is_option-append : (s t : Text) → is_option s ≡ false → 0 < length s → is_option (s ++ t) ≡ false
is_option-append [] t h l = absurd (omega arith)
is_option-append (c ∷ s) t h l = h

length-decimal_onto_pos : (k n : ℕ) (s : Text) → n < k → 0 < length (decimal_onto k n s)
length-decimal_onto_pos zero n s h = absurd (omega arith)
length-decimal_onto_pos (suc k) n s h = elim (Bool-cases (ltb n 10)) [
  | inl e ↦ rw e (omega arith)
  | inr e ↦ rw e (length-decimal_onto_pos k (n / 10) ((b'0' + n % 10) ∷ s) (ground arith))
]

region_arg-Plain : (rs : List (ℕ × ℕ)) → Plain (map region_arg rs)
unfolding decimal
region_arg-Plain [] = tt
region_arg-Plain ((a, b) ∷ rs) =
    let digit = digit_first (a + 1) a [] (omega arith) in
    let some_ = length-decimal_onto_pos (a + 1) a [] (omega arith) in
    (is_option-append (decimal a) (b',' ∷ decimal b) digit some_, region_arg-Plain rs)

-- Two rounds of the loop.
pub group_loop-group :
    (moves : Bool) (junk : RangeFile) (k : ℕ) (started : Bool) (before : List Text) (range : Range)
    (n : Text) (ns : List Text) (r : ℕ × ℕ) (rs : List (ℕ × ℕ)) (rest : List Text)
    → Plain (n ∷ ns)
    → Stops rest
    → group_loop true moves junk
        (suc (suc k))
        false
        started
        before
        range
        (codes "-f" ∷ n ∷ (ns ++ codes "-r" ∷ region_arg r ∷ (map region_arg rs ++ rest)))
      ≡ on_built
          (add_group true moves junk range (n ∷ ns) (map region_arg (r ∷ rs)))
          (λ s. group_loop true moves junk k false true (n ∷ ns) s rest)
unfolding group_loop group_step getopt
group_loop-group moves junk k started before range n ns r rs rest plain stop =
    let regions = region_arg-Plain (r ∷ rs) in
    let tail = region_arg r ∷ (map region_arg rs ++ rest) in
    rw (
      optargs-append (n ∷ ns) (codes "-r" ∷ tail) plain refl,
      from_option-append (n ∷ ns) (codes "-r" ∷ tail) plain refl,
      optargs-append (map region_arg (r ∷ rs)) rest regions stop,
      from_option-append (map region_arg (r ∷ rs)) rest regions stop,
    )
