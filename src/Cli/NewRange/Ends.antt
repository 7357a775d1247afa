-- ===== src/Cli/NewRange/Ends.antt =====
-- The loops of the modes -g and -n end within the rounds that they are given, whatever the arguments.
use b_project.Base.{
  ℕ, zero, suc, ◌+◌, ◌≤◌, ◌<◌, ◌≡◌, refl, Bool, true, false, Option, none, some, List, [], ◌∷◌,
  length, inl, inr, arith,
}
use b_project.Base.Text.{Text}
use b_project.Range.{
  Range, RangeFile, zeroed, AddIt, added, wild_link, fault, range_init, range_add_new_file,
}
use b_project.Cli.{get_range}
use b_project.Cli.Getopt.{getopt, step_back}
use b_project.Cli.Edit.{optargs, from_option}
use b_project.Sql.Intervals.{id_none}
use b_project.Cli.NewRange.{
  Built, built, exits, wild, out_of_fuel, on_built, Pointers, put_file, with_pointers, add_it,
  add_its, add_region, add_regions, add_files, add_group, ended, with_names, group_step, group_loop,
  initialized, new_range, some_regions, insert_step, insert_loop, insert_range,
}
use b_project.Cli.Getopt.Progress.{getopt-cases, behind-cases, length-from_option}

-- The loop has ended.
abbrev pub ends : Built → Bool
ends out_of_fuel = false
ends _ = true

on_built-ends :
    (b : Built) (rest : Range → Built)
    → ends b ≡ true
    → ((r : Range) → ends (rest r) ≡ true)
    → ends (on_built b rest) ≡ true
on_built-ends (built r) rest h k = k r
on_built-ends exits rest h k = refl
on_built-ends wild rest h k = refl
on_built-ends out_of_fuel rest h k = h

put_file-ends : (r : Range) (i : ℕ) (a : AddIt) → ends (put_file r i a) ≡ true
put_file-ends r i (added rf true) = refl
put_file-ends r i (added rf false) = refl
put_file-ends r i wild_link = refl
put_file-ends r i fault = refl

with_pointers-ends :
    (o : Option (Range × Pointers)) (rest : Range → Pointers → Built)
    → ((r : Range) (fs : Pointers) → ends (rest r fs) ≡ true)
    → ends (with_pointers o rest) ≡ true
with_pointers-ends none rest h = refl
with_pointers-ends (some (r, fs)) rest h = h r fs

with_names-ends :
    (names : List Text) (rest : List Text → Built)
    → ((ns : List Text) → ends (rest ns) ≡ true)
    → ends (with_names true true zeroed names rest) ≡ true
with_names-ends [] rest h = refl
with_names-ends (n ∷ names) rest h = h (n ∷ names)

module _ (alloc moves : Bool) (junk : RangeFile) where
  add_it-ends :
      (r : Range) (region : ℕ × ℕ) (f : Option ℕ) → ends (add_it alloc moves junk r region f) ≡ true
  unfolding add_it
  add_it-ends r (a, b) none = refl
  add_it-ends r (a, b) (some i) = put_file-ends r i _

  add_its-ends :
      (r : Range) (region : ℕ × ℕ) (fs : Pointers)
      → ends (add_its alloc moves junk r region fs) ≡ true
  unfolding add_its
  add_its-ends r region [] = refl
  add_its-ends r region (f ∷ fs) =
      on_built-ends (add_it alloc moves junk r region f) _ (add_it-ends r region f)
        (λ s. add_its-ends s region fs)

  add_region-ends :
      (r : Range) (fs : Pointers) (o : Option (ℕ × ℕ))
      → ends (add_region alloc moves junk r fs o) ≡ true
  unfolding add_region
  add_region-ends r fs none = refl
  add_region-ends r fs (some region) = add_its-ends r region fs

  add_regions-ends :
      (r : Range) (fs : Pointers) (args : List Text)
      → ends (add_regions alloc moves junk r fs args) ≡ true
  unfolding add_regions
  add_regions-ends r fs [] = refl
  add_regions-ends r fs (a ∷ args) =
      on_built-ends (add_region alloc moves junk r fs (get_range a)) _
        (add_region-ends r fs (get_range a)) (λ s. add_regions-ends s fs args)

  add_group-ends :
      (r : Range) (names regions : List Text)
      → ends (add_group alloc moves junk r names regions) ≡ true
  unfolding add_group
  add_group-ends r names regions =
      with_pointers-ends (add_files alloc moves junk r [] names) _
        (λ s fs. add_regions-ends s fs regions)

  ended-ends : (started : Bool) (r : Range) → ends (ended alloc moves junk started r) ≡ true
  ended-ends true r = refl
  ended-ends false r = refl

  some_regions-ends :
      (r : Range) (f : Option ℕ) (args : List Text)
      → ends (some_regions alloc moves junk r f args) ≡ true
  unfolding some_regions
  some_regions-ends r none args = refl
  some_regions-ends r (some i) [] = refl
  some_regions-ends r (some i) (a ∷ args) = add_regions-ends r (some i ∷ []) (a ∷ args)

  -- A string that is read again has not the letter that is asked for now.
  ends_again :
      (k d : ℕ) (s : Text) (rest names : List Text) (r : Range)
      → 0 < k
      → ends (
          group_loop alloc moves junk k false true names r
            (from_option ((b'-' ∷ b'r' ∷ d ∷ s) ∷ rest)))
        ≡ true
  unfolding group_loop group_step getopt from_option
  ends_again zero d s rest names r h = absurd (omega arith)
  ends_again (suc k) d s rest names r h = refl

  group_loop-ends :
      (k : ℕ) (is_r started : Bool) (names : List Text) (r : Range) (args : List Text)
      → length args + 2 ≤ k
      → ends (group_loop alloc moves junk k is_r started names r args) ≡ true
  unfolding group_loop group_step
  group_loop-ends zero is_r started names r args l = absurd (omega arith)
  group_loop-ends (suc k) true started names r args l = elim (getopt-cases b'r' args) [
    | inl e ↦ rw e (ended-ends started r)
    | inr (o, e, inl less) ↦
        let left = step_back args o in
        let shorter = length-from_option left in
        rw e (
          on_built-ends (add_group alloc moves junk r names (optargs left)) _
            (add_group-ends r names (optargs left))
            (λ s. group_loop-ends k false true names s (from_option left) (omega arith)))
    | inr (o, e, inr (d, s, rest, same, own)) ↦
        rw (e, own)
          (on_built-ends (add_group alloc moves junk r names (optargs args)) _
            (add_group-ends r names (optargs args))
            (λ u. rw same (ends_again k d s rest names u (omega arith))))
  ]
  group_loop-ends (suc k) false started names r args l = elim (getopt-cases b'f' args) [
    | inl e ↦ rw e (ended-ends started r)
    | inr (o, e, inl less) ↦
        let left = step_back args o in
        let shorter = length-from_option left in
        rw e (
          with_names-ends (optargs left) _
            (λ ns. group_loop-ends k true true ns r (from_option left) (omega arith)))
    | inr (o, e, inr (d, s, rest, same, own)) ↦ rw (e, own, same) (unfold optargs in refl)
  ]

  insert_loop-ends :
      (k : ℕ) (started : Bool) (r : Range) (args : List Text)
      → length args < k
      → ends (insert_loop alloc moves junk k started r args) ≡ true
  unfolding insert_loop insert_step
  insert_loop-ends zero started r args l = absurd (omega arith)
  insert_loop-ends (suc k) started r args l = elim (behind-cases b'f' args) [
    | inl e ↦ rw e (ended-ends started r)
    | inr (o, e, less) ↦
        let shorter = length-from_option o.behind in
        let (s, f) = range_add_new_file alloc alloc junk r o.optarg id_none in
        rw e (
          on_built-ends (some_regions alloc moves junk s f (optargs o.behind)) _
            (some_regions-ends s f (optargs o.behind))
            (λ u. insert_loop-ends k true u (from_option o.behind) (omega arith)))
  ]

  initialized-ends :
      (o : Option (Range × Bool)) (rest : Range → Built)
      → ((r : Range) → ends (rest r) ≡ true)
      → ends (initialized alloc moves junk o rest) ≡ true
  initialized-ends none rest h = refl
  initialized-ends (some (r, true)) rest h = h r
  initialized-ends (some (r, false)) rest h = refl

-- Whatever the arguments, and whether or not memory is given or the array of files moves, the loops of
-- the modes -g and -n end within the rounds that they are given.
pub new_range-ends :
    (alloc moves : Bool) (junk : RangeFile) (global_r : Range) (name : Text) (args : List Text)
    → (ends (new_range alloc moves junk global_r name args) ≡ true)
      × (ends (insert_range alloc moves junk global_r name args) ≡ true)
unfolding new_range insert_range
new_range-ends alloc moves junk global_r name args = (
  initialized-ends alloc moves junk (range_init alloc alloc global_r name) _
      (λ r. group_loop-ends alloc moves junk (length args + 2) false false [] r args (omega arith)),
  initialized-ends alloc moves junk (range_init alloc alloc global_r name) _
      (λ r. insert_loop-ends alloc moves junk (length args + 1) false r args (omega arith)),
)
