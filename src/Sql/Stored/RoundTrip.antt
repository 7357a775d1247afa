-- ===== src/Sql/Stored/RoundTrip.antt =====
-- query_insert_named_range and then the SELECT: the intervals come back.
use mathlib.Core.List.{head-eq_of_cons-eq, tail-eq_of_cons-eq}
use b_project.Base.{
  ℕ, ◌+◌, ◌<◌, ◌≡◌, refl, ap, subst, sym, ◌∙◌, false, some, List, [], ◌∷◌, map, any, All, ◌==◌,
  append-nil, Bool-cases, inl, inr, arith,
}
use b_project.Base.Text.{Text, str_eq, str_eq_refl}
use b_project.Base.Qsort.{qsort}
use b_project.IntervalTree.{ItNode}
use b_project.Sql.{RangeRow, FileRow, JunctionRow, OffsetRow, Db, Conn}
use b_project.Sql.Intervals.{find_file}
use b_project.Sql.Insert.{query_insert_named_range}
use b_project.Sql.Insert.Steps.{says, joined, ids_of}
use b_project.Sql.Insert.Rows.{ready, Stored, query_insert_named_range-Stored}
use b_project.Sql.Select.{SelectRow, row_order, join_junctions, join_ranges, select_rows}
use b_project.Sql.Stored.{
  Entry, entries, tells, all_told, pick, all_said-entries, pick-append, pick-older,
}
use b_project.Sql.Stored.Joins.{
  DistinctIds, DistinctIds-append, find_file-same, join_junctions-older, join_ranges-older,
}
use b_project.Sql.Stored.Entries.{Away, Pairwise, Found, tells-join_junctions}

abbrev pub Files : Type 0
Files = List (Text × List ItNode)

Found-entries :
    (rows : List FileRow) (fs : Files) (ids : List ℕ)
    → ids_of rows fs ≡ map some ids
    → Found rows (entries fs ids)
Found-entries rows [] ids e = tt
Found-entries rows (f ∷ fs) [] e = tt
Found-entries rows (f ∷ fs) (id ∷ ids) e =
    (head-eq_of_cons-eq e, Found-entries rows fs ids (tail-eq_of_cons-eq e))

joined-entries :
    (range_id : ℕ) (rows : List FileRow) (fs : Files) (ids : List ℕ)
    → ids_of rows fs ≡ map some ids
    → map (joined range_id) ids ≡ map (λ (e : Entry). joined range_id e.1) (entries fs ids)
joined-entries range_id rows [] [] e = refl
joined-entries range_id rows [] (id ∷ ids) e = absurd (cc)
joined-entries range_id rows (f ∷ fs) [] e = absurd (cc)
joined-entries range_id rows (f ∷ fs) (id ∷ ids) e =
    ap (λ l. joined range_id id ∷ l) (joined-entries range_id rows fs ids (tail-eq_of_cons-eq e))

-- Every file has its entry.
abbrev pub filed : List Entry → Files
filed es = map (λ (e : Entry). e.0) es

filed-entries :
    (rows : List FileRow) (fs : Files) (ids : List ℕ)
    → ids_of rows fs ≡ map some ids
    → filed (entries fs ids) ≡ fs
filed-entries rows [] ids e = refl
filed-entries rows (f ∷ fs) [] e = absurd (cc)
filed-entries rows (f ∷ fs) (id ∷ ids) e =
    ap (λ l. f ∷ l) (filed-entries rows fs ids (tail-eq_of_cons-eq e))

-- The paths of a range's files, which range_add_new_file keeps different.
abbrev pub Apart : Text → Files → Type 0
Apart path fs = All (λ f. str_eq path f.0 ≡ false) fs

abbrev PathsApart : Files → Type 0
PathsApart [] = Unit
PathsApart (f ∷ fs) = Apart f.0 fs × PathsApart fs

Away-entries :
    (rows : List FileRow) (path : Text) (id : ℕ) (fs : Files) (ids : List ℕ)
    → DistinctIds rows
    → find_file path rows ≡ some id
    → Found rows (entries fs ids)
    → Apart path fs
    → Away id (entries fs ids)
Away-entries rows path id [] ids d e found a = tt
Away-entries rows path id (f ∷ fs) [] d e found a = tt
Away-entries rows path id (f ∷ fs) (other ∷ ids) d e (h, found) (n, a) = (
  elim (Bool-cases (other == id)) [
    | inl same ↦
        let it : find_file f.0 rows ≡ some id = h ∙ ap some (ground arith) in
        absurd (cc (find_file-same path f.0 id rows d e it))
    | inr differs ↦ differs
  ],
  Away-entries rows path id fs ids d e found a,
)

Pairwise-entries :
    (rows : List FileRow) (fs : Files) (ids : List ℕ)
    → DistinctIds rows
    → Found rows (entries fs ids)
    → PathsApart fs
    → Pairwise (entries fs ids)
Pairwise-entries rows [] ids d found a = tt
Pairwise-entries rows (f ∷ fs) [] d found a = tt
Pairwise-entries rows (f ∷ fs) (id ∷ ids) d (h, found) (n, a) =
    (Away-entries rows f.0 id fs ids d h found n, Pairwise-entries rows fs ids d found a)

-- The ids of tables stay below the next one, and no two files have the same.
pub record IsTables (d : Db) : Type 0 where
  pub ranges : All (λ (r : RangeRow). r.range_id < d.next_id) d.ranges
  pub junctions : All (λ (j : JunctionRow). j.range_id < d.next_id) d.junctions
  pub offsets : All (λ (o : OffsetRow). o.range_id < d.next_id) d.offsets
  pub files : All (λ (f : FileRow). f.file_id < d.next_id + 1) d.files
  pub distinct : DistinctIds d.files

-- The join over tables that hold what was stored.
tells-join_ranges :
    (name : Text) (fs : Files) (ids : List ℕ) (old new : Db)
    → any (λ (r : RangeRow). str_eq r.name name) old.ranges ≡ false
    → IsTables old
    → PathsApart fs
    → Stored old.next_id name fs ids old new
    → map tells (join_ranges new name new.ranges) ≡ all_told (entries fs ids)
unfolding join_ranges
tells-join_ranges name fs ids old new fresh t a (e1, (more, e2, above), e3, e4, e5) =
    let r = ready old.next_id name in
    let es = entries fs ids in
    let ds : DistinctIds new.files =
      subst DistinctIds (sym e2) (
        DistinctIds-append (old.next_id + 1) new.next_id old.files more t.files t.distinct above) in
    let found = Found-entries new.files fs ids e3 in
    let offsets = λ (f : FileRow).
      ap (pick old.next_id f) e5
      ∙ pick-append old.next_id f (map says old.offsets) _
      ∙ rw (pick-older old.next_id f old.offsets t.offsets)
          (ap (pick old.next_id f) (all_said-entries old.next_id fs ids)) in
    let junctions =
      ap (join_junctions new r) e4
      ∙ join_junctions-older new r old.junctions _ t.junctions
      ∙ ap (join_junctions new r) (joined-entries old.next_id new.files fs ids e3) in
    let named = str_eq_refl name in
    ap (λ l. map tells (join_ranges new name l)) e1
    ∙ ap (map tells) (join_ranges-older new name old.ranges (r ∷ []) fresh)
    ∙ rw named (
        ap (map tells) (append-nil _ ∙ junctions)
        ∙ tells-join_junctions new r ds es offsets found
            (Pairwise-entries new.files fs ids ds found a))

-- On a server that answers every call, in tables whose ids stay below the next one with no two files of
-- the same id: a new name and files with different paths are stored with success, and the SELECT for the
-- name then gives, ordered by path and base, rows that say of each file in turn its intervals, with the
-- id that the call gave the file, and of nothing else.
pub query_insert_named_range-select_rows :
    (old : ℕ) (name : Text) (fs : Files) (c : Conn)
    → c.replies ≡ []
    → any (λ (r : RangeRow). str_eq r.name name) c.db.ranges ≡ false
    → IsTables c.db
    → PathsApart fs
    → let stored = query_insert_named_range old name fs c in
      (ids : List ℕ) × (rows : List SelectRow) × (stored.ids ≡ some ids)
      × (filed (entries fs ids) ≡ fs)
      × (select_rows name stored.conn.db ≡ qsort row_order rows)
      × (map tells rows ≡ all_told (entries fs ids))
unfolding select_rows
query_insert_named_range-select_rows old name fs c e fresh t a =
    let stored = query_insert_named_range old name fs c in
    let (ids, ok, s) = query_insert_named_range-Stored old name fs c e fresh t.ranges in
    (
      ids,
      join_ranges stored.conn.db name stored.conn.db.ranges,
      ok,
      filed-entries stored.conn.db.files fs ids s.2,
      refl,
      tells-join_ranges name fs ids c.db stored.conn.db fresh t a s,
    )
