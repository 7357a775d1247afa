-- ===== src/Sql/QueryTests.antt =====
-- Storing and reading back a range, at small tables.
use b_project.Base.{none, map, ◌≡◌, refl, true, some, Bool, List, [], ◌∷◌, arith, ℕ}
use b_project.Base.Text.{Text, codes}
use b_project.IntervalTree.{ItNode, it_node}
use b_project.Sql.{Db, Conn, ◌>>=◌, calls, exec, pure, fail}
use b_project.Sql.Insert.{query_insert_named_range, try_insert}
use b_project.Sql.Insert.Atomic.{query_insert_named_range_atomic}
use b_project.Base.Qsort.{qsort}
use b_project.Sql.Select.{SelectRow, row_order, select_rows}
use b_project.Sql.Stored.{entries, tells, all_told}
use b_project.Sql.Stored.RoundTrip.{IsTables, filed, query_insert_named_range-select_rows}
use b_project.Sql.Insert.Rows.{Stored, query_insert_named_range-Stored}

-- One range, 1, with the file /b.
abbrev db : Db
db = record {
  ranges = record { range_id = 1; name = codes "old"; init = true } ∷ [];
  files = record { file_id = 2; path = codes "/b" } ∷ [];
  junctions = record { range_id = 1; file_id = 2 } ∷ [];
  offsets = [];
  next_id = 4;
}

abbrev conn : List Bool → Conn
conn replies = record { db = db; saved = none; oid = 0; ns = 0; b = 0; ob = 0; replies = replies }

abbrev new_files : List (Text × List ItNode)
new_files =
    (codes "/a", it_node 0 5 0 ∷ it_node 9 12 0 ∷ []) ∷ (codes "/b", it_node 3 4 0 ∷ []) ∷ []

query_insert_named_range-Stored_example :
    (ids : List ℕ) × ((query_insert_named_range 99 (codes "new") new_files (conn [])).ids
      ≡ some ids)
    × Stored 4
        (codes "new")
        new_files
        ids
        db
        (query_insert_named_range 99 (codes "new") new_files (conn [])).conn.db
query_insert_named_range-Stored_example =
    query_insert_named_range-Stored 99 (codes "new") new_files (conn []) refl refl (omega arith, tt)

-- The name is taken: the INSERT is refused.
query_insert_named_range_atomic_example :
    (query_insert_named_range 99 (codes "old") new_files (conn [])).conn.db ≡ db
unfolding query_insert_named_range ◌>>=◌ calls exec pure try_insert fail
query_insert_named_range_atomic_example =
    query_insert_named_range_atomic 99 (codes "old") new_files (conn []) refl refl

db-IsTables : IsTables db
db-IsTables = record {
  ranges = (omega arith, tt);
  junctions = (omega arith, tt);
  offsets = tt;
  files = (omega arith, tt);
  distinct = (tt, tt);
}

query_insert_named_range-select_rows_example :
    let stored = query_insert_named_range 99 (codes "new") new_files (conn []) in
    (ids : List ℕ) × (rows : List SelectRow) × (stored.ids ≡ some ids)
    × (filed (entries new_files ids) ≡ new_files)
    × (select_rows (codes "new") stored.conn.db ≡ qsort row_order rows)
    × (map tells rows ≡ all_told (entries new_files ids))
query_insert_named_range-select_rows_example =
    query_insert_named_range-select_rows 99 (codes "new") new_files (conn []) refl refl db-IsTables
      ((refl, tt), (tt, tt))
