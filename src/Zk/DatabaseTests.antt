-- ===== src/Zk/DatabaseTests.antt =====
-- An interval lock over a small database and a small ZooKeeper.
use b_project.Base.{
  none, ◌≡◌, refl, true, false, some, List, [], ◌∷◌, ◌++◌, ◌≤◌, ◌+◌, arith, ℕ, map,
}
use b_project.Base.Text.{Text, codes}
use b_project.IntervalTree.{ItNode, it_node, it_conflict}
use b_project.Sql.{Db, Conn, OffsetRow}
use b_project.Sql.Resize.{find_offset}
use b_project.Sql.Intervals.{find_file, rows_of}
use b_project.Sql.Intervals.Conflicts.{conflicting}
use b_project.Zk.{Zookeeper, zok, znonode, out, lock_type_interval}
use b_project.Zk.Names.{get_sequence_number}
use b_project.Zk.Master.{set_acquired}
use b_project.Zk.Interval.{Memory, scan_lock, determine_interval, ask_for}
use b_project.Zk.Interval.Runs.{locks_in_order}
use b_project.Zk.Interval.First.{Among, none_before}
use b_project.Zk.Interval.Exclusion.{determine_interval-came_first}
use b_project.Zk.Interval.Database.{select_from, determine_interval-conflicting}

abbrev row : ℕ → ℕ → ℕ → ℕ → OffsetRow
row id file base bound = record {
  offset_id = id;
  base = base;
  bound = bound;
  conflict = false;
  file_id = file;
  range_id = 1;
}

-- The offsets 7 and 8 of the file 5 overlap; 9 is another file's.
abbrev conn : Conn
conn =
    let db : Db = record {
      ranges = [];
      files =
          record { file_id = 4; path = codes "/e" }
          ∷ record { file_id = 5; path = codes "/f" }
          ∷ [];
      junctions = [];
      offsets = row 8 5 4 30 ∷ row 9 4 0 10 ∷ row 7 5 0 10 ∷ row 6 5 20 30 ∷ [];
      next_id = 10;
    } in
    record { db = db; saved = none; oid = 0; ns = 0; b = 0; ob = 0; replies = [] }

two_conflicting :
    conflicting (it_node 0 10 7) (rows_of 5 conn) ≡ it_node 4 30 8 ∷ it_node 0 10 7 ∷ []
unfolding it_conflict
two_conflicting = refl

-- The locks of the offset 8 and the context's own, which came later.
abbrev names : List Text
names = codes "7-0000000005" ∷ codes "8-0000000004" ∷ []

abbrev held : Zookeeper
held = record {
  State = ℕ;
  zoo_exists = λ path s. (zok, s);
  zoo_create = λ path sequential s. (zok, path ++ codes "0000000005", s + 1);
  zoo_delete = λ path s. (znonode, s);
  zoo_get_children = λ path s. (zok, names, s);
  zoo_wexists = λ path s. (zok, s);
}

abbrev memory : Memory
memory = record { nodes = true; copies = true; junk = it_node 11 12 13 }

abbrev waiting : ItNode
waiting = record (it_node 0 10 7) {
  file_path = some (codes "/f");
  lock_name = some (codes "7-0000000005");
  lock_type = lock_type_interval;
}

determine_interval-conflicting_example :
    let rows = conflicting (it_node 0 10 7) (rows_of 5 conn) in
    let relevant = locks_in_order (map (scan_lock (it_node 11 12 13)) names) rows in
    let run = determine_interval held (select_from true true conn) memory waiting 0 in
    (none_before 5 relevant ≡ true → run ≡ out zok (set_acquired true waiting) 0)
    × (none_before 5 relevant ≡ false
        → (w : ItNode) × (w.sequence ≤ 5)
          × Among w relevant
          × (run ≡ ask_for held waiting (some w) 0))
unfolding get_sequence_number it_conflict
determine_interval-conflicting_example =
    determine_interval-conflicting held memory waiting (codes "7-0000000005")
      (codes "8-0000000004" ∷ []) 5 (row 7 5 0 10) conn 0 0 refl refl refl refl
      (unfold find_file in refl) (unfold find_offset in refl) refl
      (unfold scan_lock in (omega arith, (omega arith, tt))) (omega arith, (omega arith, tt))
      (unfold locks_in_order scan_lock in refl)

-- The lock of 8, with the number 4, keeps that of 7, with the number 5, out.
determine_interval-came_first_example :
    (w : ItNode) × (w.sequence ≤ 5)
    × Among w (
        locks_in_order
          (map (scan_lock (it_node 11 12 13)) names)
          (conflicting (it_node 0 10 7) (rows_of 5 conn)))
    × (determine_interval held (select_from true true conn) memory waiting 0
        ≡ ask_for held waiting (some w) 0)
unfolding get_sequence_number it_conflict
determine_interval-came_first_example =
    determine_interval-came_first held memory waiting (codes "7-0000000005")
      (codes "8-0000000004" ∷ []) 5 8 (row 7 5 0 10) conn 0 0 refl refl refl refl
      (unfold find_file in refl) (unfold find_offset in refl) refl
      (unfold scan_lock in (omega arith, (omega arith, tt))) (omega arith, (omega arith, tt))
      (unfold locks_in_order scan_lock in refl) refl (unfold scan_lock in refl)
