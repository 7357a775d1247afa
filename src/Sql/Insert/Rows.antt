-- ===== src/Sql/Insert/Rows.antt =====
-- query_insert_named_range: the rows that it leaves.
use b_project.Base.{
  none, ℕ, ◌+◌, ◌<◌, ◌≡◌, refl, ap, ◌∙◌, true, false, some, List, [], ◌∷◌, ◌++◌, map, map-append,
  any, All, ◌==◌, if◌then◌else◌, arith,
}
use b_project.Base.Text.{Text, str_eq}
use b_project.IntervalTree.{ItNode}
use b_project.Sql.{RangeRow, FileRow, JunctionRow, OffsetRow, Db, Conn, pure, ◌>>=◌}
use b_project.Sql.Answered.{exec-ok, calls-ok}
use b_project.Sql.Insert.{
  insert_range, set_init, insert_files, insert_body, query_insert_named_range,
}
use b_project.Sql.Insert.Steps.{
  says, try_insert-ok, Extends, with_rows, joined, all_said, ids_of, insert_files-rows,
}

module _ (range_id : ℕ) where
  marked : RangeRow → RangeRow
  marked r = if r.range_id == range_id then record r { init = true } else r

  map-marked_older :
      (rows : List RangeRow) → All (λ r. r.range_id < range_id) rows → map marked rows ≡ rows
  unfolding marked
  map-marked_older [] h = refl
  map-marked_older (r ∷ rows) (a, h) =
      let b : (r.range_id == range_id) ≡ false = ground arith in
      rw (b, map-marked_older rows h) refl

  map-marked :
      (rows : List RangeRow) (r : RangeRow)
      → All (λ r. r.range_id < range_id) rows
      → r.range_id ≡ range_id
      → map marked (rows ++ r ∷ []) ≡ rows ++ record r { init = true } ∷ []
  unfolding marked
  map-marked rows r h e =
      let b : (r.range_id == range_id) ≡ true = ground arith in
      map-append marked rows _
      ∙ ap (λ l. l ++ marked r ∷ []) (map-marked_older rows h)
      ∙ ap (λ x. rows ++ x ∷ []) (rw b refl)

abbrev pub ready : ℕ → Text → RangeRow
ready range_id name = record { range_id = range_id; name = name; init = true }

abbrev named : Text → Conn → Conn
named name c = record c {
  db = record (c.db) {
    ranges = c.db.ranges ++ record { range_id = c.db.next_id; name = name; init = false } ∷ [];
    next_id = c.db.next_id + 1;
  };
}

-- What the call leaves: the row of the range, a row for each path, and the new rows of the other tables
-- behind those that were there.
abbrev pub Stored : ℕ → Text → List (Text × List ItNode) → List ℕ → Db → Db → Type 0
Stored range_id name files ids old new =
    (new.ranges ≡ old.ranges ++ ready range_id name ∷ [])
    × Extends (range_id + 1) new.next_id old.files new.files
    × (ids_of new.files files ≡ map some ids)
    × (new.junctions ≡ old.junctions ++ map (joined range_id) ids)
    × (map says new.offsets ≡ map says old.offsets ++ all_said range_id files ids)

abbrev settled : Conn → Conn
settled c = record c { saved = none }

abbrev begun : Conn → Conn
begun c = record c { saved = some c.db }

query_insert-run :
    (old : ℕ) (name : Text) (files : List (Text × List ItNode)) (c : Conn)
    → c.replies ≡ []
    → any (λ (r : RangeRow). str_eq r.name name) c.db.ranges ≡ false
    → (ids : List ℕ) (rows : List FileRow) (junctions : List JunctionRow) (offsets : List OffsetRow)
      (n : ℕ)
    → insert_files c.db.next_id old files (named name (begun c))
      ≡ (some ids, with_rows rows junctions offsets n (named name (begun c)))
    → let done =
        set_init c.db.next_id (with_rows rows junctions offsets n (named name (begun c))) in
      query_insert_named_range old name files c ≡ record { ids = some ids; conn = settled done }
unfolding query_insert_named_range insert_body ◌>>=◌ pure insert_range set_init
query_insert-run old name files c e new ids rows junctions offsets n run =
    let s = begun c in
    let f = with_rows rows junctions offsets n (named name s) in
    let g = set_init c.db.next_id f in
    rw
      (
        calls-ok 19 c e,
        exec-ok begun c e,
        try_insert-ok (insert_range name) s e,
        new,
        run,
        exec-ok (set_init c.db.next_id) f e,
        exec-ok settled g e,
      )
      refl

-- On a server that answers every call, with a name that no range has and ids of ranges below the next
-- one: the call returns 0, gives each file of the range the id that its path now has in the table, old or
-- new, keeps the rows that were there, and appends the range (marked as complete), a junction for each
-- file and, in their order, the offsets of all intervals.
pub query_insert_named_range-Stored :
    (old : ℕ) (name : Text) (files : List (Text × List ItNode)) (c : Conn)
    → c.replies ≡ []
    → any (λ (r : RangeRow). str_eq r.name name) c.db.ranges ≡ false
    → All (λ r. r.range_id < c.db.next_id) c.db.ranges
    → (ids : List ℕ) × ((query_insert_named_range old name files c).ids ≡ some ids)
      × Stored c.db.next_id name files ids c.db (query_insert_named_range old name files c).conn.db
unfolding set_init marked
query_insert_named_range-Stored old name files c e new older =
    let id = c.db.next_id in
    let (ids, rows, junctions, offsets, n, run, more, known, joins, says') =
      insert_files-rows id old files (named name (begun c)) e in
    let same = query_insert-run old name files c e new ids rows junctions offsets n run in
    (
      ids,
      rw same refl,
      rw same (
        map-marked id c.db.ranges (record { range_id = id; name = name; init = false }) older refl,
        more,
        known,
        joins,
        says',
      ),
    )
