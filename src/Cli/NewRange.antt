-- ===== src/Cli/NewRange.antt =====
-- opts in main.c, the modes -g and -n: the range that the arguments describe. `alloc` tells whether the
-- memory that is asked for is given, `moves` whether realloc moves the array of files, and `junk` is
-- what it adds.
pub mod Ends
pub mod Files
pub mod Group
pub mod Rounds
pub mod Groups
use b_project.Base.{
  ℕ, zero, suc, ◌+◌, Bool, true, false, ◌&&◌, Option, none, some, List, [], ◌∷◌, ◌++◌, map, length,
  set, if◌then◌else◌,
}
use b_project.Base.Text.{Text}
use b_project.AList.{slots, is_full}
use b_project.Range.{
  Range, RangeFile, slot_at, range_init, range_add_new_file, range_file_add_it, AddIt, added,
  wild_link, fault,
}
use b_project.Sql.Intervals.{id_none}
use b_project.Cli.{get_range}
use b_project.Cli.Edit.{optargs, from_option}
use b_project.Cli.Getopt.{Opt, step_back, getopt}

-- The range goes on, the program exits with an error, or it follows a pointer that no longer holds.
pub data Built : Type 0 where
  built : Range → Built
  exits : Built
  wild : Built
  out_of_fuel : Built

abbrev pub on_built : Built → (Range → Built) → Built
on_built (built r) rest = rest r
on_built exits rest = exits
on_built wild rest = wild
on_built out_of_fuel rest = out_of_fuel

-- The pointers in fs: the index of a file, or none for one into an array that was freed.
abbrev pub Pointers : Type 0
Pointers = List (Option ℕ)

abbrev set_file : Range → ℕ → RangeFile → Range
set_file r i rf = record r { ls = record (r.ls) { ls = some (set (slots r.ls) i rf) } }

abbrev pub put_file : Range → ℕ → AddIt → Built
put_file r i (added rf true) = built (set_file r i rf)
put_file r i (added rf false) = exits
put_file r i wild_link = wild
put_file r i fault = wild

abbrev after_move : Bool → Pointers → Pointers
after_move moved fs = if moved then map (λ _. none) fs else fs

abbrev pointed : Bool → Pointers → Range × Option ℕ → Option (Range × Pointers)
pointed moved fs (r, none) = none
pointed moved fs (r, some i) = some (r, after_move moved fs ++ some i ∷ [])

abbrev pub with_pointers : Option (Range × Pointers) → (Range → Pointers → Built) → Built
with_pointers none rest = exits
with_pointers (some (r, fs)) rest = rest r fs

abbrev then_files :
    Option (Range × Pointers)
    → (Range → Pointers → Option (Range × Pointers))
    → Option (Range × Pointers)
then_files none rest = none
then_files (some (r, fs)) rest = rest r fs

module _ (alloc moves : Bool) (junk : RangeFile) where
  -- range_file_add_it through a pointer.
  unfoldable pub add_it : Range → ℕ × ℕ → Option ℕ → Built
  unfolding range_file_add_it
  add_it r (base, bound) none = wild
  add_it r (base, bound) (some i) =
      put_file r i (range_file_add_it alloc (slot_at junk (slots r.ls) i) base bound id_none)

  -- The loop over fs for one region.
  unfoldable pub add_its : Range → ℕ × ℕ → Pointers → Built
  unfolding add_it
  add_its r region [] = built r
  add_its r region (f ∷ fs) = on_built (add_it r region f) (λ s. add_its s region fs)

  abbrev pub add_region : Range → Pointers → Option (ℕ × ℕ) → Built
  unfolding add_its
  add_region r fs none = exits
  add_region r fs (some region) = add_its r region fs

  -- foreach_optarg over the regions.
  unfoldable pub add_regions : Range → Pointers → List Text → Built
  unfolding add_region get_range
  add_regions r fs [] = built r
  add_regions r fs (a ∷ args) =
      on_built (add_region r fs (get_range a)) (λ s. add_regions s fs args)

  -- The files of a group. range_add_new_file gives no file that is there, so that none is skipped.
  unfoldable pub add_files : Range → Pointers → List Text → Option (Range × Pointers)
  unfolding range_add_new_file
  add_files r fs [] = some (r, fs)
  add_files r fs (name ∷ names) =
      then_files
        (pointed (moves && is_full (r.ls.sz)) fs
          (range_add_new_file alloc alloc junk r name id_none))
        (λ s gs. add_files s gs names)

  -- One -r of the mode -g.
  unfoldable pub add_group : Range → List Text → List Text → Built
  unfolding add_files add_regions
  add_group r names regions =
      with_pointers (add_files r [] names) (λ s fs. add_regions s fs regions)

  abbrev pub ended : Bool → Range → Built
  ended started r = if started then built r else exits

  -- What follows one -f: its files must be there.
  abbrev pub with_names : List Text → (List Text → Built) → Built
  with_names [] rest = exits
  with_names (name ∷ names) rest = rest (name ∷ names)

  -- The body of the loop of the mode -g, with what follows it: `is_r` is i % 2, `started` tells that i is not 0,
  -- and `names` are in fs.
  unfoldable pub group_step :
      (Bool → List Text → Range → List Text → Built)
      → Bool
      → Bool
      → List Text
      → Range
      → List Text
      → Option Opt
      → Built
  unfolding add_group optargs from_option
  group_step next is_r started names r args none = ended started r
  group_step next true started names r args (some o) =
      let left = step_back args o in
      on_built (add_group r names (optargs left)) (λ s. next false names s (from_option left))
  group_step next false started names r args (some o) =
      let left = step_back args o in
      with_names (optargs left) (λ ns. next true ns r (from_option left))

  unfoldable pub group_loop : ℕ → Bool → Bool → List Text → Range → List Text → Built
  unfolding group_step getopt
  group_loop zero is_r started names r args = out_of_fuel
  group_loop (suc k) is_r started names r args =
      group_step (λ b ns s left. group_loop k b true ns s left) is_r started names r args
        (getopt (if is_r then b'r' ∷ [] else b'f' ∷ []) args)

  abbrev pub initialized : Option (Range × Bool) → (Range → Built) → Built
  initialized none rest = wild
  initialized (some (r, true)) rest = rest r
  initialized (some (r, false)) rest = exits

  -- The mode -g up to query_insert_named_range: the range's name, and the arguments behind it.
  unfoldable pub new_range : Range → Text → List Text → Built
  unfolding range_init group_loop
  new_range global_r name args =
      initialized (range_init alloc alloc global_r name)
        (λ r. group_loop (length args + 2) false false [] r args)

  -- The mode -n: the regions of one file, of which there must be one.
  unfoldable pub some_regions : Range → Option ℕ → List Text → Built
  unfolding add_regions
  some_regions r none args = exits
  some_regions r (some i) [] = exits
  some_regions r (some i) (a ∷ args) = add_regions r (some i ∷ []) (a ∷ args)

  abbrev add_one : Range × Option ℕ → List Text → Built
  add_one (r, f) args = some_regions r f args

  unfoldable pub insert_step : (Range → List Text → Built) → Bool → Range → Option Opt → Built
  unfolding optargs from_option some_regions range_add_new_file
  insert_step next started r none = ended started r
  insert_step next started r (some o) =
      on_built (add_one (range_add_new_file alloc alloc junk r o.optarg id_none) (optargs o.behind))
        (λ s. next s (from_option o.behind))

  unfoldable pub insert_loop : ℕ → Bool → Range → List Text → Built
  unfolding insert_step getopt
  insert_loop zero started r args = out_of_fuel
  insert_loop (suc k) started r args =
      insert_step (λ s left. insert_loop k true s left) started r (getopt (b'f' ∷ []) args)

  unfoldable pub insert_range : Range → Text → List Text → Built
  unfolding range_init insert_loop
  insert_range global_r name args =
      initialized (range_init alloc alloc global_r name)
        (λ r. insert_loop (length args + 1) false r args)
