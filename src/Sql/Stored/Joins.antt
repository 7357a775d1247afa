-- ===== src/Sql/Stored/Joins.antt =====
-- The joins of QUERY_SELECT_NAMED_RANGE over tables with one row for each file id.
use b_project.Base.{
  ℕ, ◌+◌, ◌<◌, ◌≡◌, refl, ap, subst, ◌∙◌, true, false, ◌&&◌, some, List, [], ◌∷◌, ◌++◌, any, All,
  ◌==◌, append-nil, Bool-cases, inl, inr, arith,
}
use b_project.Base.Text.{Text, str_eq, str_eq→eq}
use b_project.Sql.{RangeRow, FileRow, JunctionRow, Db}
use b_project.Sql.Intervals.{find_file}
use b_project.Sql.Insert.Steps.{Fresh}
use b_project.Sql.Select.{join_offsets, join_files, join_junctions, join_ranges}

-- No row has the id.
abbrev pub Without : ℕ → List FileRow → Type 0
Without id rows = All (λ f. (f.file_id == id) ≡ false) rows

abbrev pub DistinctIds : List FileRow → Type 0
DistinctIds [] = Unit
DistinctIds (f ∷ rows) = Without f.file_id rows × DistinctIds rows

Without-Fresh : (id lo hi : ℕ) (rows : List FileRow) → id < lo → Fresh lo hi rows → Without id rows
Without-Fresh id lo hi [] h f = tt
Without-Fresh id lo hi (r ∷ rows) h (a, f) =
    (ground arith, Without-Fresh id (r.file_id + 1) hi rows (omega arith) f)

DistinctIds-Fresh : (lo hi : ℕ) (rows : List FileRow) → Fresh lo hi rows → DistinctIds rows
DistinctIds-Fresh lo hi [] f = tt
DistinctIds-Fresh lo hi (r ∷ rows) (a, f) = (
  Without-Fresh r.file_id (r.file_id + 1) hi rows (omega arith) f,
  DistinctIds-Fresh (r.file_id + 1) hi rows f,
)

Without-append :
    (id : ℕ) (xs ys : List FileRow) → Without id xs → Without id ys → Without id (xs ++ ys)
Without-append id [] ys h k = k
Without-append id (x ∷ xs) ys (a, h) k = (a, Without-append id xs ys h k)

pub DistinctIds-append :
    (lo hi : ℕ) (xs ys : List FileRow)
    → All (λ f. f.file_id < lo) xs
    → DistinctIds xs
    → Fresh lo hi ys
    → DistinctIds (xs ++ ys)
DistinctIds-append lo hi [] ys b d f = DistinctIds-Fresh lo hi ys f
DistinctIds-append lo hi (x ∷ xs) ys (b, bs) (w, d) f = (
  Without-append x.file_id xs ys w (Without-Fresh x.file_id lo hi ys b f),
  DistinctIds-append lo hi xs ys bs d f,
)

-- A path that is found in rows without an id has another id.
find_file-Without :
    (path : Text) (id other : ℕ) (rows : List FileRow)
    → Without other rows
    → find_file path rows ≡ some id
    → (id == other) ≡ false
unfolding find_file
find_file-Without path id other [] w e = absurd (cc)
find_file-Without path id other (f ∷ rows) (a, w) e =
    ground (arith, find_file-Without path id other rows w)

-- Two paths with one id are the same.
pub find_file-same :
    (p q : Text) (id : ℕ) (rows : List FileRow)
    → DistinctIds rows
    → find_file p rows ≡ some id
    → find_file q rows ≡ some id
    → str_eq p q ≡ true
unfolding find_file
find_file-same p q id [] d e h = absurd (cc)
find_file-same p q id (f ∷ rows) (w, d) e h = elim (Bool-cases (str_eq f.path p)) [
  | inl at_p ↦ elim (Bool-cases (str_eq f.path q)) [
    | inl at_q ↦ rw (← str_eq→eq f.path p at_p) at_q
    | inr not_q ↦ absurd (ground (arith, find_file-Without q id f.file_id rows w))
  ]
  | inr not_p ↦ elim (Bool-cases (str_eq f.path q)) [
    | inl at_q ↦ absurd (ground (arith, find_file-Without p id f.file_id rows w))
    | inr not_q ↦ find_file-same p q id rows d (rw not_p at e) (rw not_q at h)
  ]
]

module _ (d : Db) (r : RangeRow) (j : JunctionRow) where
  join_files-Without : (rows : List FileRow) → Without j.file_id rows → join_files d r j rows ≡ []
  unfolding join_files
  join_files-Without [] w = refl
  join_files-Without (f ∷ rows) (a, w) = rw a (join_files-Without rows w)

  -- A file's junction meets its one row.
  pub join_files-one :
      (path : Text) (rows : List FileRow)
      → DistinctIds rows
      → find_file path rows ≡ some j.file_id
      → join_files d r j rows
        ≡ join_offsets r (record { file_id = j.file_id; path = path }) d.offsets
  unfolding join_files find_file
  join_files-one path [] w e = absurd (cc)
  join_files-one path (f ∷ rows) (w, ds) e = elim (Bool-cases (str_eq f.path path)) [
    | inl same ↦
        let id : f.file_id ≡ j.file_id = ground arith in
        let it : (f.file_id == j.file_id) ≡ true = ground arith in
        let row : f ≡ record { file_id = j.file_id; path = path } =
          ground (arith, str_eq→eq f.path path same) in
        rw (it, join_files-Without rows (subst (λ i. Without i rows) id w))
          (append-nil _ ∙ ap (λ g. join_offsets r g d.offsets) row)
    | inr other ↦
        let later : find_file path rows ≡ some j.file_id = rw other at e in
        let n : (f.file_id == j.file_id) ≡ false =
          ground (arith, find_file-Without path j.file_id f.file_id rows w later) in
        rw n (join_files-one path rows ds later)
  ]

-- No junction of the range.
pub join_junctions-older :
    (d : Db) (r : RangeRow) (older rest : List JunctionRow)
    → All (λ (j : JunctionRow). j.range_id < r.range_id) older
    → join_junctions d r (older ++ rest) ≡ join_junctions d r rest
unfolding join_junctions
join_junctions-older d r [] rest h = refl
join_junctions-older d r (j ∷ older) rest (a, h) =
    let n : (j.range_id == r.range_id) ≡ false = ground arith in
    rw n (join_junctions-older d r older rest h)

-- No range of the name.
pub join_ranges-older :
    (d : Db) (name : Text) (older rest : List RangeRow)
    → any (λ (r : RangeRow). str_eq r.name name) older ≡ false
    → join_ranges d name (older ++ rest) ≡ join_ranges d name rest
unfolding join_ranges
join_ranges-older d name [] rest h = refl
join_ranges-older d name (r ∷ older) rest h =
    let n : (str_eq r.name name && r.init) ≡ false = ground arith in
    rw n (join_ranges-older d name older rest (ground arith))
