-- ===== src/Sql/Tests.antt =====
-- query_resize_file at a file with three offsets, of which two are edited.
use b_project.Base.{none, ◌≡◌, refl, true, false, Bool, some, List, [], ◌∷◌, arith, ℕ}
use b_project.Base.Int.{pos}
use b_project.IntervalTree.{it_node}
use b_project.Sql.{Db, Conn, OffsetRow}
use b_project.Sql.Resize.{resize_loop, query_resize_file, find_offset}
use b_project.Sql.Resize.Atomic.{query_resize_file_atomic}
use b_project.Sql.Resize.Offsets.{Edit, nodes, updates, Tracks, resize_loop-updates}

abbrev row : ℕ → ℕ → ℕ → OffsetRow
row id base bound = record {
  offset_id = id;
  base = base;
  bound = bound;
  conflict = false;
  file_id = 5;
  range_id = 1;
}

abbrev db : Db
db = record {
  ranges = [];
  files = [];
  junctions = [];
  offsets = row 1 10 20 ∷ row 2 30 40 ∷ row 3 50 60 ∷ [];
  next_id = 4;
}

abbrev conn : List Bool → Conn
conn replies = record { db = db; saved = none; oid = 0; ns = 0; b = 0; ob = 0; replies = replies }

-- The first interval grew to 15 bytes, the third shrank to 4.
abbrev edits : List Edit
edits =
    record { node = it_node 12 27 1; base = 10; bound = 20 }
    ∷ record { node = it_node 60 64 3; base = 50; bound = 60 }
    ∷ []

edits-Tracks : Tracks 5 db.offsets (pos 0) 0 edits
unfolding find_offset
edits-Tracks = (
  row 1 10 20,
  refl,
  refl,
  refl,
  refl,
  omega arith,
  omega arith,
  omega arith,
  omega arith,
  omega arith,
  omega arith,
  (
    row 3 50 60,
    refl,
    refl,
    refl,
    refl,
    omega arith,
    omega arith,
    omega arith,
    omega arith,
    omega arith,
    tt,
    tt,
  ),
)

resize_loop-updates_example :
    (resize_loop 5 (nodes edits) (pos 0) (0, 0) (conn [])).0 ≡ some (updates edits)
resize_loop-updates_example =
    resize_loop-updates 5 edits (pos 0) (0, 0) 0 (conn []) refl edits-Tracks

-- The server fails the COMMIT or an earlier call.
query_resize_file_atomic_example :
    ((query_resize_file true (λ _. true) 5 (nodes edits) (conn (true ∷ false ∷ []))).ret_ok ≡ false
      → (query_resize_file true (λ _. true) 5 (nodes edits) (conn (true ∷ false ∷ []))).conn.db
        ≡ db)
    × ((query_resize_file true (λ _. true) 5 (nodes edits) (conn (true ∷ false ∷ []))).unlocks ≡ 1)
query_resize_file_atomic_example =
    query_resize_file_atomic true (λ _. true) 5 (nodes edits) (conn (true ∷ false ∷ [])) refl
