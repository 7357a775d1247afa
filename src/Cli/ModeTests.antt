-- ===== src/Cli/ModeTests.antt =====
-- The modes -g, -n and -p on a few arguments.
use b_project.Base.{◌≡◌, refl, true, false, none, some, List, [], ◌∷◌, arith}
use b_project.Base.Text.{codes}
use b_project.AList.{a_list_add, is_full}
use b_project.Range.{Range, RangeFile, files}
use b_project.Cli.NewRange.{Built, built, wild, exits, new_range, insert_range}
use b_project.Cli.NewRange.Groups.{IsGroups, Group, args_of, AreFiles, new_range-AreFiles}
use b_project.IntervalTree.{it_node, it_intersect}
use b_project.Sql.Intervals.{id_none}
use b_project.Cli.NewRange.Files.{file_with}
use b_project.Cli.NewRange.Ends.{ends, new_range-ends}
use b_project.IntervalTree.Shape.{touched}
use b_project.IntervalTree.Insert.{inserted}
use b_project.Cli.Print.{print_loop, print_file, print_range}
use b_project.Cli.Print.Threads
use b_project.Cli.Print.Threads.{print_loop_rounds}

abbrev no_range : Range
no_range = record { ls = record { ls = none; sz = 0 }; name = none; id = 0 }

abbrev junk : RangeFile
junk = record { it = none; file_path = none; id = 77; num_it = 5 }

abbrev first_group : Group
first_group = (codes "a", codes "b" ∷ [], (1, 3), (5, 9) ∷ [])

abbrev second_group : Group
second_group = (codes "c", [], (2, 4), [])

both-IsGroups : IsGroups [] (first_group ∷ second_group ∷ [])
unfolding touched it_intersect inserted
both-IsGroups = (
  (refl, omega arith, (refl, omega arith, tt)),
  (refl, (refl, tt)),
  ((omega arith, omega arith, omega arith), ((omega arith, omega arith, omega arith), tt)),
  ((refl, omega arith, tt), (refl, tt), ((omega arith, omega arith, omega arith), tt), tt),
)

new_range-AreFiles_example :
    (s : Range) × (new_range true true junk no_range
        (codes "r")
        (args_of (first_group ∷ second_group ∷ []))
      ≡ built s)
    × (s.name ≡ some (codes "r"))
    × AreFiles (first_group ∷ second_group ∷ []) (files s)
new_range-AreFiles_example =
    new_range-AreFiles true junk no_range (codes "r") first_group (second_group ∷ []) (omega arith)
      (omega arith) both-IsGroups

-- A file that is named twice is refused.
named_twice :
    new_range true false junk no_range (codes "r") (
      codes "-f"
      ∷ codes "a"
      ∷ codes "-r"
      ∷ codes "1,3"
      ∷ codes "-f"
      ∷ codes "a"
      ∷ codes "-r"
      ∷ codes "5,9"
      ∷ [])
    ≡ exits
unfolding new_range a_list_add
named_twice = refl

-- Five files in one group: the array moves below the pointers to the first four.
five_files :
    new_range true true junk no_range (codes "r") (
      codes "-f"
      ∷ codes "a"
      ∷ codes "b"
      ∷ codes "c"
      ∷ codes "d"
      ∷ codes "e"
      ∷ codes "-r"
      ∷ codes "1,3"
      ∷ [])
    ≡ wild
unfolding new_range a_list_add is_full
five_files = refl

abbrev files_of : Built → List RangeFile
files_of (built r) = files r
files_of _ = []

abbrev empty_file : RangeFile
empty_file = record { it = some []; file_path = some (codes "a"); id = id_none; num_it = 0 }

-- The regions of "-r1,3" are not read.
attached :
    files_of
      (new_range true false junk no_range (codes "r") (codes "-f" ∷ codes "a" ∷ codes "-r1,3" ∷ []))
    ≡ empty_file ∷ []
unfolding new_range a_list_add
attached = refl

inserted_file :
    files_of (
      insert_range true false junk no_range (codes "r") (codes "-f" ∷ codes "a" ∷ codes "1,3" ∷ []))
    ≡ file_with (it_node 1 3 id_none ∷ []) (codes "a") ∷ []
unfolding insert_range a_list_add it_intersect
inserted_file = refl

abbrev print_groups : List Threads.Group
print_groups = (b'f', codes "a", codes "b" ∷ []) ∷ (b'g', codes "r", []) ∷ []

print_loop_rounds_example :
    (print_loop 3 (Threads.args_onto print_groups [])
      ≡ some (print_file (codes "a") ∷ print_file (codes "b") ∷ print_range (codes "r") ∷ []))
    × (print_loop 100 (Threads.args_onto print_groups (codes "-fc" ∷ [])) ≡ none)
print_loop_rounds_example =
    print_loop_rounds print_groups 100 b'f' b'c' [] []
      (refl, (refl, (refl, tt)), (refl, (refl, tt), tt)) refl

new_range-ends_example :
    (ends (
        new_range true true junk no_range (codes "r") (codes "-f" ∷ codes "a" ∷ codes "-r1,3" ∷ []))
      ≡ true)
    × (ends (
          insert_range true true junk no_range
            (codes "r")
            (codes "-f" ∷ codes "a" ∷ codes "-r1,3" ∷ []))
        ≡ true)
new_range-ends_example =
    new_range-ends true true junk no_range (codes "r") (codes "-f" ∷ codes "a" ∷ codes "-r1,3" ∷ [])
