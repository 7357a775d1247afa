-- ===== src/Range/Count.antt =====
-- range_file_add_it keeps the count of a file's intervals.
use b_project.Base.{
  sym, ◌∙◌, Bool-cases, inl, inr, ℕ, ◌+◌, ◌≤◌, ◌≡◌, refl, Bool, true, ◌||◌, some, List, arith,
  length, ltb,
}
use b_project.IntervalTree.{ItNode, it_node}
use b_project.IntervalTree.Shape.{IsTree, slots, covers, inside, touched}
use b_project.IntervalTree.Insert.{it_insert_new-covers, it_insert_new_faults}
use b_project.Range.{RangeFile, added, fault, range_file_add_it}

-- The list is well formed and num_it counts it.
abbrev pub IsCounted : RangeFile → List ItNode → Type 0
IsCounted rf xs = (rf.it ≡ some (slots xs)) × IsTree xs × (rf.num_it ≡ length xs)

-- Adding an interval that meets or touches at most one of a file's intervals, when malloc gives a
-- node, returns a node and leaves a well-formed list that num_it counts and that covers the old offsets and the new ones.
range_file_add_it-IsCounted :
    (rf : RangeFile) (xs : List ItNode) (base bound id : ℕ)
    → IsCounted rf xs
    → base ≤ bound
    → touched (it_node base bound id) xs ≤ 1
    → (s : RangeFile) × (ys : List ItNode) × (range_file_add_it true rf base bound id
        ≡ added s true)
      × IsCounted s ys
      × ((x : ℕ) → covers ys x ≡ (inside x (it_node base bound id) || covers xs x))
      × (s.file_path ≡ rf.file_path)
unfolding range_file_add_it
range_file_add_it-IsCounted rf xs base bound id (link, tree, count) v t =
    let (ys, e, tree', size, same) = it_insert_new-covers xs base bound id tree v t in
    elim (Bool-cases (ltb 0 (touched (it_node base bound id) xs))) [
      | inl met ↦ (
        record rf { it = some (slots ys) },
        ys,
        rw (link, e, met),
        (refl, tree', count ∙ sym (rw met at size)),
        same,
        refl,
      )
      | inr free ↦ (
        record rf { it = some (slots ys); num_it = rf.num_it + 1 },
        ys,
        rw (link, e, free),
        (refl, tree', omega (arith, rw free at size)),
        same,
        refl,
      )
    ]

-- Adding one that meets or touches two intervals or more reads freed memory.
pub range_file_add_it_faults :
    (alloc : Bool) (rf : RangeFile) (xs : List ItNode) (base bound id : ℕ)
    → IsCounted rf xs
    → base ≤ bound
    → 2 ≤ touched (it_node base bound id) xs
    → range_file_add_it alloc rf base bound id ≡ fault
unfolding range_file_add_it
range_file_add_it_faults alloc rf xs base bound id (link, tree, count) v t =
    rw (link, it_insert_new_faults alloc xs base bound id tree v t)
