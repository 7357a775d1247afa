-- ===== src/IntervalTree/Tests.antt =====
-- Runs of it_insert_new, and its theorems at concrete lists.
use b_project.Base.{
  ◌≡◌, refl, true, false, List, [], ◌∷◌, arith, ℕ, ◌||◌, ltb, length, if◌then◌else◌, ◌+◌,
}
use b_project.IntervalTree.{
  ItNode, it_node, it_insert_new, absorb, widen, extend, it_intersect, live, freed, done,
  use_after_free, emptied, double_free, it_deinit,
}
use b_project.IntervalTree.Shape.{IsTree, slots, covers, inside, touched}
use b_project.IntervalTree.Insert.{it_insert_new-covers, it_insert_new_faults}

abbrev two : List ItNode
two = it_node 10 20 1 ∷ it_node 30 40 2 ∷ []

-- [22, 25) goes between the two nodes; [15, 25) widens the first; [20, 30) touches both.
inserted_between :
    it_insert_new true (slots two) 22 25 3
    ≡ done false (slots (it_node 10 20 1 ∷ it_node 22 25 3 ∷ it_node 30 40 2 ∷ []))
unfolding it_insert_new absorb widen it_intersect
inserted_between = refl

widened :
    it_insert_new true (slots two) 15 25 3
    ≡ done true (slots (it_node 10 25 1 ∷ it_node 30 40 2 ∷ []))
unfolding it_insert_new absorb widen it_intersect
widened = refl

bridged : it_insert_new true (slots two) 20 30 3 ≡ use_after_free
unfolding it_insert_new absorb widen extend it_intersect
bridged = refl

freed_all : it_deinit (slots two) 0 ≡ emptied 2
unfolding it_deinit
freed_all = refl

freed_twice : it_deinit (live (it_node 1 2 3) ∷ freed ∷ []) 0 ≡ double_free
unfolding it_deinit
freed_twice = refl

two-IsTree : IsTree two
two-IsTree = omega arith

it_insert_new-covers_example :
    (ys : List ItNode) × (it_insert_new true (slots two) 22 25 3
      ≡ done (ltb 0 (touched (it_node 22 25 3) two)) (slots ys))
    × IsTree ys
    × (length ys ≡ (if ltb 0 (touched (it_node 22 25 3) two) then length two else length two + 1))
    × ((x : ℕ) → covers ys x ≡ (inside x (it_node 22 25 3) || covers two x))
it_insert_new-covers_example =
    it_insert_new-covers two 22 25 3 two-IsTree (omega arith)
      (unfold touched it_intersect in omega arith)

it_insert_new_faults_example : it_insert_new true (slots two) 20 30 3 ≡ use_after_free
it_insert_new_faults_example =
    it_insert_new_faults true two 20 30 3 two-IsTree (omega arith)
      (unfold touched it_intersect in omega arith)
