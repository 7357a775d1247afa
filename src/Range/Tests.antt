-- ===== src/Range/Tests.antt =====
-- Ranges at concrete files.
use b_project.Base.{◌≡◌, refl, ◌⊎◌, ◌++◌, true, none, some, List, [], ◌∷◌, arith, ℕ, any}
use b_project.Base.Text.{Text, codes}
use b_project.AList.Growth.{IsValid}
use b_project.IntervalTree.{ItNode, it_node, it_intersect}
use b_project.IntervalTree.Shape.{covers, inside, touched}
use b_project.IntervalTree.Shape
use b_project.Range.{
  Range, RangeFile, files, has_path, range_add_new_file, range_file_add_it, fault,
}
use b_project.Range.Paths.{Distinct, range_add_new_file-Distinct}
use b_project.Range.Count.{IsCounted, range_file_add_it_faults}

abbrev file : Text → ℕ → RangeFile
file path id = record { it = some []; file_path = some path; id = id; num_it = 0 }

-- Four files fill the first array.
abbrev four : Range
four = record {
  ls = record {
    ls =
        some
          (file (codes "a") 1 ∷ file (codes "b") 2 ∷ file (codes "c") 3 ∷ file (codes "d") 4 ∷ []);
    sz = 4;
  };
  name = some (codes "r");
  id = 0;
}

four-IsValid : IsValid four.ls
four-IsValid = record { power = refl; least = omega arith; within = omega arith }

-- Memory in which the link happens to hold some address.
abbrev junk : RangeFile
junk = record { it = none; file_path = none; id = 77; num_it = 5 }

four-Distinct : Distinct (files four)
four-Distinct = (
  codes "a",
  refl,
  refl,
  (codes "b", refl, refl, (codes "c", refl, refl, (codes "d", refl, refl, tt))),
)

range_add_new_file-Distinct_example :
    ((any (has_path (codes "e")) (files four) ≡ true)
      × (range_add_new_file true true junk four (codes "e") 9 ≡ (four, none)))
    ⊎ ((s : Range) × (rf : RangeFile) × (range_add_new_file true true junk four (codes "e") 9
          ≡ (s, some 4))
        × (files s ≡ files four ++ rf ∷ [])
        × (rf.file_path ≡ some (codes "e"))
        × Distinct (files s)
        × IsValid s.ls)
range_add_new_file-Distinct_example =
    range_add_new_file-Distinct junk four (codes "e") 9 four-IsValid four-Distinct (omega arith)

abbrev nodes : List ItNode
nodes = it_node 10 20 1 ∷ it_node 30 40 2 ∷ []

abbrev counted : RangeFile
counted = record (file (codes "a") 1) { it = some (Shape.slots nodes); num_it = 2 }

counted-IsCounted : IsCounted counted nodes
counted-IsCounted = (refl, omega arith, refl)

range_file_add_it_faults_example : range_file_add_it true counted 20 30 3 ≡ fault
range_file_add_it_faults_example =
    range_file_add_it_faults true counted nodes 20 30 3 counted-IsCounted (omega arith)
      (unfold touched it_intersect in omega arith)
