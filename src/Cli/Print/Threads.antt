-- ===== src/Cli/Print/Threads.antt =====
-- The mode -p: the threads for a command line, and a command line on which opts does not end.
use b_project.Base.{
  ℕ, zero, suc, ◌≡◌, refl, ap, ◌∙◌, true, none, some, List, [], ◌∷◌, ◌++◌, map, length,
}
use b_project.Base.Text.{Text}
use b_project.Cli.Getopt.{is_letter, getopt}
use b_project.Cli.Edit.{optargs, from_option}
use b_project.Cli.Edit.Optargs.{Plain, Stops, optargs-append, from_option-append}
use b_project.Cli.Print.{Print, print_of, joining, print_step, print_loop}

-- A letter, and the names behind its option, of which there is one.
abbrev pub Group : Type 0
Group = ℕ × Text × List Text

-- The arguments of the groups, and what follows them.
abbrev pub args_onto : List Group → List Text → List Text
args_onto [] rest = rest
args_onto ((c, n, ns) ∷ gs) rest = (b'-' ∷ c ∷ []) ∷ n ∷ (ns ++ args_onto gs rest)

abbrev pub IsGroups : List Group → Type 0
IsGroups [] = Unit
IsGroups ((c, n, ns) ∷ gs) =
    (is_letter c (b'f' ∷ b'g' ∷ b'r' ∷ []) ≡ true) × Plain (n ∷ ns) × IsGroups gs

abbrev prints_of : List Group → List Print
prints_of [] = []
prints_of ((c, n, ns) ∷ gs) = map (print_of c) (n ∷ ns) ++ prints_of gs

args_onto-Stops : (gs : List Group) (rest : List Text) → Stops rest → Stops (args_onto gs rest)
args_onto-Stops [] rest h = h
args_onto-Stops ((c, n, ns) ∷ gs) rest h = refl

-- A round of the loop.
print_loop-group :
    (k c : ℕ) (n : Text) (ns rest : List Text)
    → is_letter c (b'f' ∷ b'g' ∷ b'r' ∷ []) ≡ true
    → Plain (n ∷ ns)
    → Stops rest
    → print_loop (suc k) ((b'-' ∷ c ∷ []) ∷ n ∷ (ns ++ rest))
      ≡ joining (map (print_of c) (n ∷ ns)) (print_loop k rest)
unfolding print_loop print_step getopt
print_loop-group k c n ns rest letter plain stop =
    rw
      (letter, optargs-append (n ∷ ns) rest plain stop, from_option-append (n ∷ ns) rest plain stop)

print_loop-args_onto :
    (gs : List Group)
    → IsGroups gs
    → print_loop (suc (length gs)) (args_onto gs []) ≡ some (prints_of gs)
print_loop-args_onto [] h = unfold print_loop print_step getopt in refl
print_loop-args_onto ((c, n, ns) ∷ gs) (letter, plain, h) =
    print_loop-group (suc (length gs)) c n ns (args_onto gs []) letter plain
      (args_onto-Stops gs [] tt)
    ∙ ap (joining (map (print_of c) (n ∷ ns))) (print_loop-args_onto gs h)

print_loop_stuck :
    (k : ℕ) (gs : List Group) (c d : ℕ) (s : Text) (args : List Text)
    → IsGroups gs
    → is_letter c (b'f' ∷ b'g' ∷ b'r' ∷ []) ≡ true
    → print_loop k (args_onto gs ((b'-' ∷ c ∷ d ∷ s) ∷ args)) ≡ none
unfolding print_loop print_step getopt optargs from_option
print_loop_stuck zero gs c d s args h letter = refl
print_loop_stuck (suc k) [] c d s args h letter =
    rw (letter, print_loop_stuck k [] c d s args h letter) refl
print_loop_stuck (suc k) ((e, n, ns) ∷ gs) c d s args (le, plain, h) letter =
    let own = (b'-' ∷ c ∷ d ∷ s) ∷ args in
    print_loop-group k e n ns (args_onto gs own) le plain (args_onto-Stops gs own refl)
    ∙ ap (joining (map (print_of e) (n ∷ ns))) (print_loop_stuck k gs c d s args h letter)

-- For options -f, -g and -r that are each followed by one name or more, the loop ends after one round for
-- each of them, and one more, with a thread for every name, of a file for -f and of a range for the
-- others, in order; with no option no thread is started. But where behind them an option and its name stand in one argument, the loop does
-- not end in any number of rounds.
pub print_loop_rounds :
    (gs : List Group) (k c d : ℕ) (s : Text) (args : List Text)
    → IsGroups gs
    → is_letter c (b'f' ∷ b'g' ∷ b'r' ∷ []) ≡ true
    → (print_loop (suc (length gs)) (args_onto gs []) ≡ some (prints_of gs))
      × (print_loop k (args_onto gs ((b'-' ∷ c ∷ d ∷ s) ∷ args)) ≡ none)
print_loop_rounds gs k c d s args h letter =
    (print_loop-args_onto gs h, print_loop_stuck k gs c d s args h letter)
