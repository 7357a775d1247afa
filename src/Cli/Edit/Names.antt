-- ===== src/Cli/Edit/Names.antt =====
-- The files that opts hands to query_select_named_range.
use Prim.Native.Nat.{Ordering, lt, eq, gt}
use b_project.Base.{
  ℕ, ◌≡◌, refl, ap, ◌∙◌, Bool, true, false, ◌&&◌, ◌||◌, not, Option, none, some, List, [], ◌∷◌,
  ◌++◌, map, any, length, leb, Bool-cases, inl, inr, arith,
}
use b_project.Base.Text.{Text, codes, str_eq, str_eq→eq}
use b_project.Base.Qsort.{qsort, sorted_insert, by_sign}
use b_project.Cli.Edit.{
  p_strcmp, skip_f, is_option, optargs, from_option, behind, remove_dups, distinct_sorted,
  distinct_files, with_exe, find_exe, edit_args,
}
use b_project.Cli.Edit.Ascending.{Ascends, distinct_files-Ascends}
use b_project.Cli.Edit.Optargs.{Plain, Stops, optargs-append, from_option-append}

abbrev occurs : Text → List Text → Bool
occurs t files = any (λ f. str_eq f t) files

-- The names that are kept are those that were there.
abbrev pub Same : List Text → Option (List Text) → Type 0
Same files none = Unit
Same files (some kept) = (t : Text) → occurs t kept ≡ occurs t files

behind-Same :
    (x : Text) (files : List Text) (o : Option (List Text))
    → Same files o
    → Same (x ∷ files) (behind x o)
behind-Same x files none h = tt
behind-Same x files (some kept) h = λ t. ap (λ b. str_eq x t || b) (h t)

repeated-Same :
    (x y : Text) (ys : List Text) (o : Option (List Text))
    → str_eq x y ≡ true
    → Same (x ∷ ys) o
    → Same (x ∷ y ∷ ys) o
repeated-Same x y ys none e h = tt
repeated-Same x y ys (some kept) e h =
    let same = str_eq→eq x y e in λ t. h t ∙ rw same (ground arith)

remove_dups-Same :
    (room : List ℕ) (x : Text) (ys : List Text) → Same (x ∷ ys) (remove_dups room x ys)
unfolding remove_dups
remove_dups-Same room x [] = λ t. refl
remove_dups-Same [] x (y ∷ ys) = elim (Bool-cases (str_eq x y)) [
  | inl e ↦ rw e (repeated-Same x y ys (remove_dups [] x ys) e (remove_dups-Same [] x ys))
  | inr n ↦ rw n tt
]
remove_dups-Same (n ∷ room) x (y ∷ ys) = elim (Bool-cases (str_eq x y)) [
  | inl e ↦
      rw e (repeated-Same x y ys (remove_dups (n ∷ room) x ys) e (remove_dups-Same (n ∷ room) x ys))
  | inr d ↦ elim (Bool-cases (leb (length y) n)) [
    | inl fits ↦
        rw (d, fits) (behind-Same x (y ∷ ys) (remove_dups room y ys) (remove_dups-Same room y ys))
    | inr wide ↦ rw (d, wide) tt
  ]
]

occurs-by_sign :
    (t x y : Text) (ys rest : List Text) (o : Ordering)
    → occurs t rest ≡ occurs t (x ∷ ys)
    → occurs t (by_sign o (x ∷ y ∷ ys) (x ∷ y ∷ ys) (y ∷ rest)) ≡ occurs t (x ∷ y ∷ ys)
occurs-by_sign t x y ys rest lt h = refl
occurs-by_sign t x y ys rest eq h = refl
occurs-by_sign t x y ys rest gt h = ap (λ b. str_eq y t || b) h ∙ ground arith

occurs-insert :
    (t x : Text) (xs : List Text) → occurs t (sorted_insert p_strcmp x xs) ≡ occurs t (x ∷ xs)
unfolding sorted_insert
occurs-insert t x [] = refl
occurs-insert t x (y ∷ ys) =
    occurs-by_sign t x y ys (sorted_insert p_strcmp x ys) (p_strcmp x y) (occurs-insert t x ys)

occurs-qsort : (t : Text) (xs : List Text) → occurs t (qsort p_strcmp xs) ≡ occurs t xs
unfolding qsort
occurs-qsort t [] = refl
occurs-qsort t (x ∷ xs) =
    occurs-insert t x (qsort p_strcmp xs) ∙ ap (λ b. str_eq x t || b) (occurs-qsort t xs)

distinct_sorted-Same : (xs : List Text) → Same xs (distinct_sorted xs)
distinct_sorted-Same [] = λ t. refl
distinct_sorted-Same (x ∷ xs) = remove_dups-Same (map length xs) x xs

Same-qsort :
    (files : List Text) (o : Option (List Text)) → Same (qsort p_strcmp files) o → Same files o
Same-qsort files none h = tt
Same-qsort files (some kept) h = λ t. h t ∙ occurs-qsort t files

-- With no two neighbours alike nothing is moved.
abbrev pub no_dups : List Text → Bool
no_dups [] = true
no_dups (x ∷ []) = true
no_dups (x ∷ y ∷ ys) = not (str_eq x y) && no_dups (y ∷ ys)

remove_dups-no_dups :
    (x : Text) (ys : List Text)
    → no_dups (x ∷ ys) ≡ true
    → remove_dups (map length ys) x ys ≡ some (x ∷ ys)
unfolding remove_dups
remove_dups-no_dups x [] h = refl
remove_dups-no_dups x (y ∷ ys) h =
    let d : str_eq x y ≡ false = ground arith in
    let fits : leb (length y) (length y) ≡ true = ground arith in
    rw (d, fits, remove_dups-no_dups y ys (ground arith)) refl

distinct_sorted-no_dups : (xs : List Text) → no_dups xs ≡ true → distinct_sorted xs ≡ some xs
distinct_sorted-no_dups [] h = refl
distinct_sorted-no_dups (x ∷ xs) h = remove_dups-no_dups x xs h

abbrev flag_of : Bool → Text
flag_of true = codes "-E"
flag_of false = codes "-e"

flag_of-Stops : (multiple : Bool) (rest : List Text) → Stops (flag_of multiple ∷ rest)
flag_of-Stops true rest = refl
flag_of-Stops false rest = refl

not_f : (f : Text) → is_option f ≡ false → str_eq f (codes "-f") ≡ false
not_f [] h = refl
not_f (c ∷ s) h = rw h refl

-- The command line of an edit.
abbrev pub command : List Text → Bool → Text → List Text → List Text
command files multiple exe more = files ++ flag_of multiple ∷ exe ∷ more

find_exe-flag_of :
    (files : Option (List Text)) (multiple : Bool) (exe : Text) (more : List Text)
    → find_exe files (flag_of multiple ∷ exe ∷ more) (none ∷ some exe ∷ map some more)
      ≡ with_exe files multiple (some exe ∷ map some more)
unfolding find_exe
find_exe-flag_of files true exe more = refl
find_exe-flag_of files false exe more = refl

edit_args-with_exe :
    (f : Text) (fs : List Text) (multiple : Bool) (exe : Text) (more : List Text)
    → Plain (f ∷ fs)
    → edit_args (command (f ∷ fs) multiple exe more)
      ≡ with_exe (distinct_files (f ∷ fs)) multiple (some exe ∷ map some more)
unfolding edit_args skip_f
edit_args-with_exe f fs multiple exe more (n, h) =
    let stop = flag_of-Stops multiple (exe ∷ more) in
    rw
      (
        not_f f n,
        optargs-append (f ∷ fs) (flag_of multiple ∷ exe ∷ more) (n, h) stop,
        from_option-append (f ∷ fs) (flag_of multiple ∷ exe ∷ more) (n, h) stop,
      )
      (find_exe-flag_of (distinct_files (f ∷ fs)) multiple exe more)

-- With files whose names do not begin with a dash, then -e or -E, an editor and its arguments: the modes
-- -r and -w go on with the names that are kept, unless strcpy would write past a string; multiple_mode is
-- set for -E; the editor's arguments are as they were given. A name is kept exactly if it was given, and
-- the kept names ascend strictly in the order of strcmp, so that none is there twice. If none was given
-- twice (no two neighbours of the sorted names are alike), nothing is written past a string and the
-- sorted names are kept.
pub edit_args-Same :
    (f : Text) (fs : List Text) (multiple : Bool) (exe : Text) (more : List Text)
    → Plain (f ∷ fs)
    → (edit_args (command (f ∷ fs) multiple exe more)
        ≡ with_exe (distinct_files (f ∷ fs)) multiple (some exe ∷ map some more))
      × Same (f ∷ fs) (distinct_files (f ∷ fs))
      × Ascends (distinct_files (f ∷ fs))
      × (no_dups (qsort p_strcmp (f ∷ fs)) ≡ true
          → distinct_files (f ∷ fs) ≡ some (qsort p_strcmp (f ∷ fs)))
unfolding distinct_files
edit_args-Same f fs multiple exe more h = (
  edit_args-with_exe f fs multiple exe more h,
  Same-qsort (f ∷ fs) _ (distinct_sorted-Same (qsort p_strcmp (f ∷ fs))),
  distinct_files-Ascends (f ∷ fs),
  distinct_sorted-no_dups (qsort p_strcmp (f ∷ fs)),
)

-- With no file, an argument is lost: the slot of the editor itself holds NULL.
edit_args_loses_editor :
    (multiple : Bool) (exe : Text) (more : List Text)
    → edit_args (command [] multiple exe more)
      ≡ some (record { files = []; multiple = multiple; exe = none ∷ map some more })
unfolding edit_args skip_f optargs from_option find_exe distinct_files qsort
edit_args_loses_editor true exe more = refl
edit_args_loses_editor false exe more = refl
