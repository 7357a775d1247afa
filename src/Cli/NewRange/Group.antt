-- ===== src/Cli/NewRange/Group.antt =====
-- One -f and one -r of the mode -g: the regions that the files get.
use b_project.Base.{
  ℕ, suc, ◌+◌, ◌≤◌, ◌<◌, ◌≡◌, refl, Bool, true, ◌&&◌, ◌||◌, some, List, [], ◌∷◌, ◌++◌, map, any,
  length, replicate, leb, ltb, append_assoc, length-append, Bool-cases, inl, inr, arith,
}
use b_project.Base.Text.{Text, decimal}
use b_project.IntervalTree.{ItNode, it_node}
use b_project.IntervalTree.Shape.{IsTree, covers, touched}
use b_project.IntervalTree.Insert.{inserted, it_insert_new-inserted}
use b_project.Range.{RangeFile, zeroed, range_file_add_it, added}
use b_project.Sql.Intervals.{id_none}
use b_project.Cli.{get_range, long_max}
use b_project.Cli.Regions.{get_range-decimal}
use b_project.Cli.NewRange.{built, add_it, add_its, add_regions, add_group}
use b_project.Cli.NewRange.Files.{
  file_with, range_with, behind_list, slot_at-behind, NewNames, room_for, pointers,
  add_files-range_with,
}

-- A region put into each of the files that fs points to.
abbrev with_region : List ItNode → ℕ × ℕ → List ItNode
with_region xs (a, b) = inserted (it_node a b id_none) xs

-- The region may be put into a file with these intervals.
abbrev Fits : List ItNode → ℕ × ℕ → Type 0
Fits xs (a, b) = (a < b) × (b ≤ long_max) × (touched (it_node a b id_none) xs ≤ 1)

range_file_add_it-file_with :
    (xs : List ItNode) (a b : ℕ) (path : Text)
    → IsTree xs
    → Fits xs (a, b)
    → range_file_add_it true (file_with xs path) a b id_none
      ≡ added (file_with (with_region xs (a, b)) path) true
unfolding range_file_add_it
range_file_add_it-file_with xs a b path tree (lt, fits, few) =
    let (e, _, size, _) = it_insert_new-inserted xs a b id_none tree (omega arith) few in
    elim (Bool-cases (ltb 0 (touched (it_node a b id_none) xs))) [
      | inl met ↦ let same = rw met at size in rw (e, met, same)
      | inr free ↦ let same = rw free at size in rw (e, free, same)
    ]

add_it-range_with :
    (moves : Bool) (junk : RangeFile) (name : Text) (id k a b : ℕ) (xs : List ItNode)
    (fs others : List RangeFile) (n : Text)
    → IsTree xs
    → Fits xs (a, b)
    → add_it true moves junk
        (range_with name id (fs ++ file_with xs n ∷ others) k)
        (a, b)
        (some (length fs))
      ≡ built (range_with name id (fs ++ file_with (with_region xs (a, b)) n ∷ others) k)
unfolding add_it
add_it-range_with moves junk name id k a b xs fs others n tree fits =
    let old = file_with xs n in
    let new = file_with (with_region xs (a, b)) n in
    let rep = replicate k zeroed in
    let before = append_assoc fs (old ∷ others) rep in
    let after = append_assoc fs (new ∷ others) rep in
    let at = slot_at-behind junk fs (others ++ rep) old in
    let (_, put) = behind_list fs (others ++ rep) old new in
    let size : length (fs ++ old ∷ others) ≡ length (fs ++ new ∷ others) =
      omega (arith, length-append fs (old ∷ others), length-append fs (new ∷ others)) in
    rw (before, at, range_file_add_it-file_with xs a b n tree fits, put, after, size)

add_its-range_with :
    (moves : Bool) (junk : RangeFile) (name : Text) (id k a b : ℕ) (xs : List ItNode)
    (fs : List RangeFile) (names : List Text)
    → IsTree xs
    → Fits xs (a, b)
    → add_its true moves junk
        (range_with name id (fs ++ map (file_with xs) names) k)
        (a, b)
        (pointers (length fs) names)
      ≡ built (range_with name id (fs ++ map (file_with (with_region xs (a, b))) names) k)
unfolding add_its
add_its-range_with moves junk name id k a b xs fs [] tree fits = refl
add_its-range_with moves junk name id k a b xs fs (n ∷ names) tree fits =
    let new = file_with (with_region xs (a, b)) n in
    let others = map (file_with xs) names in
    let longer : length (fs ++ new ∷ []) ≡ suc (length fs) =
      omega (arith, length-append fs (new ∷ [])) in
    let before = append_assoc fs (new ∷ []) others in
    let after = append_assoc fs (new ∷ []) (map (file_with (with_region xs (a, b))) names) in
    let rest = add_its-range_with moves junk name id k a b xs (fs ++ new ∷ []) names tree fits in
    rw (add_it-range_with moves junk name id k a b xs fs others n tree fits)
      (rw (longer, before, after) at rest)

-- The intervals of a file behind these regions.
abbrev pub with_regions : List ItNode → List (ℕ × ℕ) → List ItNode
with_regions xs [] = xs
with_regions xs (region ∷ regions) = with_regions (with_region xs region) regions

abbrev pub AllFit : List ItNode → List (ℕ × ℕ) → Type 0
AllFit xs [] = Unit
AllFit xs (region ∷ regions) = Fits xs region × AllFit (with_region xs region) regions

abbrev pub region_arg : ℕ × ℕ → Text
region_arg (a, b) = decimal a ++ b',' ∷ decimal b

get_range-Fits :
    (xs : List ItNode) (a b : ℕ) → Fits xs (a, b) → get_range (region_arg (a, b)) ≡ some (a, b)
get_range-Fits xs a b (lt, fits, few) =
    let (read, _) = get_range-decimal a b (omega arith) fits in
    let test : ltb a b ≡ true = ground arith in rw test at read

with_region-IsTree :
    (xs : List ItNode) (a b : ℕ) → IsTree xs → Fits xs (a, b) → IsTree (with_region xs (a, b))
with_region-IsTree xs a b tree (lt, fits, few) =
    let (_, same, _, _) = it_insert_new-inserted xs a b id_none tree (omega arith) few in same

add_regions-range_with :
    (moves : Bool) (junk : RangeFile) (name : Text) (id k : ℕ) (xs : List ItNode)
    (fs : List RangeFile) (names : List Text) (regions : List (ℕ × ℕ))
    → IsTree xs
    → AllFit xs regions
    → add_regions true moves junk
        (range_with name id (fs ++ map (file_with xs) names) k)
        (pointers (length fs) names)
        (map region_arg regions)
      ≡ built (range_with name id (fs ++ map (file_with (with_regions xs regions)) names) k)
unfolding add_regions
add_regions-range_with moves junk name id k xs fs names [] tree fits = refl
add_regions-range_with moves junk name id k xs fs names ((a, b) ∷ regions) tree (fit, fits) =
    let read = get_range-Fits xs a b fit in
    let one = add_its-range_with moves junk name id k a b xs fs names tree fit in
    let tree' = with_region-IsTree xs a b tree fit in
    rw (read, one)
      (add_regions-range_with moves junk name id k (with_region xs (a, b)) fs names regions tree'
        fits)

-- One group: its files stand behind the others, each with the regions.
pub add_group-range_with :
    (moves : Bool) (junk : RangeFile) (name : Text) (id k : ℕ) (fs : List RangeFile)
    (names : List Text) (regions : List (ℕ × ℕ))
    → length fs + length names ≤ 4
    → NewNames fs names
    → AllFit [] regions
    → add_group true moves junk
        (range_with name id fs (room_for names k))
        names
        (map region_arg regions)
      ≡ built (range_with name id (fs ++ map (file_with (with_regions [] regions)) names) k)
unfolding add_group
add_group-range_with moves junk name id k fs names regions l new fits =
    rw (add_files-range_with moves junk name id fs k [] names l new)
      (add_regions-range_with moves junk name id k [] fs names regions tt fits)

pub with_regions-covers :
    (xs : List ItNode) (regions : List (ℕ × ℕ))
    → IsTree xs
    → AllFit xs regions
    → IsTree (with_regions xs regions)
      × ((x : ℕ)
          → covers (with_regions xs regions) x
            ≡ (covers xs x || any (λ r. leb r.0 x && ltb x r.1) regions))
with_regions-covers xs [] tree fits = (tree, λ x. ground arith)
with_regions-covers xs ((a, b) ∷ regions) tree ((lt, high, few), fits) =
    let (_, tree', _, same) = it_insert_new-inserted xs a b id_none tree (omega arith) few in
    let (whole, rest) = with_regions-covers (with_region xs (a, b)) regions tree' fits in
    (whole, λ x. ground (arith, same x, rest x))
