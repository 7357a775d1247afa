-- ===== src/Sql/SelectTests.antt =====
-- Reading a range of two files, of which one is asked for.
use b_project.Base.{◌≡◌, refl, true, false, none, some, Bool, List, [], ◌∷◌, ℕ, ◌+◌, replicate}
use b_project.Base.Text.{codes, text_order}
use b_project.Base.Qsort.{qsort}
use b_project.AList.{a_list_add}
use b_project.IntervalTree.{live, it_node, it_intersect}
use b_project.Range.{RangeFile, Range, zeroed, range_add_file, range_file_add_it}
use b_project.Sql.{Db, Conn, FileRow, OffsetRow, ◌>>=◌, calls, exec, pure}
use b_project.Sql.Select.{
  Scan, next, scan_rows, select_rows, Locked, NamedRange, query_select_named_range,
}
use b_project.Sql.Select.Groups.{Group, rows_of_groups, add_groups, ending, scan_rows-add_groups}
use b_project.Sql.Select.Locks.{Edited, query_select_named_range-Edited}

abbrev row : ℕ → ℕ → ℕ → ℕ → OffsetRow
row id file base bound = record {
  offset_id = id;
  base = base;
  bound = bound;
  conflict = false;
  file_id = file;
  range_id = 1;
}

abbrev file_a : FileRow
file_a = record { file_id = 2; path = codes "/a" }

abbrev file_b : FileRow
file_b = record { file_id = 3; path = codes "/b" }

abbrev db : Db
db = record {
  ranges = record { range_id = 1; name = codes "r"; init = true } ∷ [];
  files = file_b ∷ file_a ∷ [];
  junctions = record { range_id = 1; file_id = 3 } ∷ record { range_id = 1; file_id = 2 } ∷ [];
  offsets = row 7 3 10 20 ∷ row 8 2 30 40 ∷ row 6 3 0 5 ∷ [];
  next_id = 9;
}

abbrev conn : Conn
conn = record { db = db; saved = none; oid = 0; ns = 0; b = 0; ob = 0; replies = [] }

abbrev empty : Range
empty = record {
  ls = record { ls = some (replicate 4 zeroed); sz = 0 };
  name = some (codes "r");
  id = 0;
}

abbrev groups : List Group
groups =
    record { file = file_a; first = row 8 2 30 40; others = [] }
    ∷ record { file = file_b; first = row 6 3 0 5; others = row 7 3 10 20 ∷ [] }
    ∷ []

-- The rows come ordered by path and base.
ordered : select_rows (codes "r") db ≡ rows_of_groups groups
unfolding select_rows qsort text_order
ordered = refl

scan_rows-add_groups_example :
    let s : Scan = record { range = empty; old_buf = []; rf = none } in
    scan_rows true true zeroed (codes "/b" ∷ []) (rows_of_groups groups) s conn
    ≡ ending true true zeroed conn (add_groups true true zeroed (codes "/b" ∷ []) groups (next s))
scan_rows-add_groups_example =
    scan_rows-add_groups true true zeroed (codes "/b" ∷ []) groups
      (record { range = empty; old_buf = []; rf = none }) conn refl ((refl, tt), (tt, tt))
      (refl, (refl, tt))

-- Every lock is given; the world counts the calls.
abbrev lock_intervals : RangeFile → ℕ → Locked ℕ
lock_intervals f w = record { all = true; file = f; world = w + 1 }

abbrev prepare : Range → ℕ → Bool × ℕ
prepare r w = (true, w + 10)

-- /b with its two intervals.
abbrev edited : NamedRange ℕ
edited = record {
  ok = true;
  range = record empty {
    ls = record {
      ls = some (
          record zeroed {
            it = some (live (it_node 0 5 6) ∷ live (it_node 10 20 7) ∷ []);
            file_path = some (codes "/b");
            id = 3;
            num_it = 2;
          }
          ∷ replicate 3 zeroed);
      sz = 1;
    };
  };
  conn = conn;
  world = 11;
}

query_select_named_range-Edited_example : Edited lock_intervals prepare 0 edited
unfolding query_select_named_range ◌>>=◌ calls exec pure qsort text_order range_add_file a_list_add
    range_file_add_it it_intersect
query_select_named_range-Edited_example =
    query_select_named_range-Edited lock_intervals prepare true true zeroed (codes "/b" ∷ [])
      (codes "r") empty conn 0 edited refl refl
