-- ===== src/Sql/Stored.antt =====
-- A range that query_insert_named_range stored, as QUERY_SELECT_NAMED_RANGE reads it back.
pub mod Joins
pub mod Entries
pub mod RoundTrip
use b_project.Base.{
  ℕ, ◌+◌, ◌≤◌, ◌<◌, ◌≡◌, refl, ap, sym, ◌∙◌, Bool, true, false, ◌&&◌, ◌||◌, Option, none, some,
  List, [], ◌∷◌, ◌++◌, map, any, All, ◌==◌, if◌then◌else◌, append_assoc, append-nil, map-append,
  Bool-cases, inl, inr, arith,
}
use b_project.Base.Text.{Text, str_eq, str_eq_refl, str_eq→eq}
use b_project.IntervalTree.{ItNode}
use b_project.Sql.{RangeRow, FileRow, JunctionRow, OffsetRow, Db}
use b_project.Sql.Intervals.{find_file}
use b_project.Sql.Insert.Steps.{says, said, Fresh, Extends, all_said, ids_of, joined}
use b_project.Sql.Select.{
  SelectRow, select_row, join_offsets, join_files, join_junctions, join_ranges,
}

-- A file of the range with the id that its path has.
abbrev pub Entry : Type 0
Entry = (Text × List ItNode) × ℕ

abbrev pub entries : List (Text × List ItNode) → List ℕ → List Entry
entries [] ids = []
entries (f ∷ fs) [] = []
entries (f ∷ fs) (id ∷ ids) = (f, id) ∷ entries fs ids

-- What a row of the SELECT says: file, path, base, bound, conflict.
abbrev Told : Type 0
Told = ℕ × Text × ℕ × ℕ × Bool

abbrev pub tells : SelectRow → Told
tells r = (r.file_id, r.path, r.base, r.bound, r.conflict)

abbrev pub told : Entry → List Told
told (f, id) = map (λ (p : ItNode). (id, f.0, p.base, p.bound, false)) f.1

abbrev pub all_told : List Entry → List Told
all_told [] = []
all_told (e ∷ es) = told e ++ all_told es

-- The offsets of a range and a file among what rows of Offset say.
abbrev Said : Type 0
Said = ℕ × ℕ × ℕ × ℕ × Bool

abbrev pub pick : ℕ → FileRow → List Said → List Told
pick range_id f [] = []
pick range_id f ((r, i, base, bound, conflict) ∷ rows) =
    if i == f.file_id && r == range_id
    then (f.file_id, f.path, base, bound, conflict) ∷ pick range_id f rows
    else pick range_id f rows

abbrev pub all_saids : ℕ → List Entry → List Said
all_saids range_id [] = []
all_saids range_id ((f, id) ∷ es) = map (said range_id id) f.1 ++ all_saids range_id es

pub all_said-entries :
    (range_id : ℕ) (fs : List (Text × List ItNode)) (ids : List ℕ)
    → all_said range_id fs ids ≡ all_saids range_id (entries fs ids)
all_said-entries range_id [] ids = refl
all_said-entries range_id (f ∷ fs) [] = refl
all_said-entries range_id (f ∷ fs) (id ∷ ids) =
    ap (λ l. map (said range_id id) f.1 ++ l) (all_said-entries range_id fs ids)

pub tells-join_offsets :
    (r : RangeRow) (f : FileRow) (offsets : List OffsetRow)
    → map tells (join_offsets r f offsets) ≡ pick r.range_id f (map says offsets)
unfolding join_offsets
tells-join_offsets r f [] = refl
tells-join_offsets r f (o ∷ offsets) =
    elim (Bool-cases (o.file_id == f.file_id && o.range_id == r.range_id)) [
      | inl e ↦ rw (e, tells-join_offsets r f offsets) refl
      | inr n ↦ rw n (tells-join_offsets r f offsets)
    ]

pub pick-append :
    (range_id : ℕ) (f : FileRow) (xs ys : List Said)
    → pick range_id f (xs ++ ys) ≡ pick range_id f xs ++ pick range_id f ys
pick-append range_id f [] ys = refl
pick-append range_id f ((r, i, base, bound, conflict) ∷ xs) ys =
    elim (Bool-cases (i == f.file_id && r == range_id)) [
      | inl e ↦ rw (e, pick-append range_id f xs ys) refl
      | inr n ↦ rw n (pick-append range_id f xs ys)
    ]

-- Offsets of other ranges.
pub pick-older :
    (range_id : ℕ) (f : FileRow) (offsets : List OffsetRow)
    → All (λ (o : OffsetRow). o.range_id < range_id) offsets
    → pick range_id f (map says offsets) ≡ []
pick-older range_id f [] h = refl
pick-older range_id f (o ∷ offsets) (a, h) =
    let n : (o.file_id == f.file_id && o.range_id == range_id) ≡ false = ground arith in
    rw n (pick-older range_id f offsets h)

-- The offsets of one entry.
pub pick-own :
    (range_id : ℕ) (path : Text) (id : ℕ) (ps : List ItNode)
    → pick range_id (record { file_id = id; path = path }) (map (said range_id id) ps)
      ≡ told ((path, ps), id)
pick-own range_id path id [] = refl
pick-own range_id path id (p ∷ ps) =
    let y : (id == id && range_id == range_id) ≡ true = ground arith in
    rw (y, pick-own range_id path id ps) refl

pub pick-other :
    (range_id other : ℕ) (f : FileRow) (ps : List ItNode)
    → (other == f.file_id) ≡ false
    → pick range_id f (map (said range_id other) ps) ≡ []
pick-other range_id other f [] n = refl
pick-other range_id other f (p ∷ ps) n = rw n (pick-other range_id other f ps n)
