-- ===== src/Sql/Intervals/Conflicts.antt =====
-- query_select_file_intervals for an interval lock: what it finds, and who then gets the lock.
use b_project.Base.{
  none, ℕ, ◌≡◌, refl, true, false, Option, some, List, [], ◌∷◌, ◌==◌, if◌then◌else◌,
}
use b_project.Base.Text.{Text}
use b_project.IntervalTree.{ItNode, it_conflict, Walk}
use b_project.Sql.{OffsetRow, Conn, pure, ◌>>=◌, fail_check}
use b_project.Sql.Answered.{exec-ok, calls-ok, call-ok}
use b_project.Sql.Resize.{find_offset}
use b_project.Sql.Intervals.{
  id_none, find_file, fetch_first, node_of, lock_rows, FileIntervals, live_nodes, rows_of,
  intervals_of, own_row, select_body, query_select_file_intervals,
}

-- The rows that conflict with an interval, in the order of the table.
abbrev pub conflicting : ItNode → List OffsetRow → List ItNode
conflicting own [] = []
conflicting own (r ∷ rows) =
    if it_conflict own (node_of r) then node_of r ∷ conflicting own rows else conflicting own rows

lock_rows-conflicting :
    (own : ItNode) (rows : List OffsetRow) (c : Conn)
    → c.replies ≡ []
    → lock_rows true own rows c ≡ (some (conflicting own rows), c)
unfolding lock_rows ◌>>=◌ pure fail_check
lock_rows-conflicting own [] c e = rw (call-ok c e) refl
lock_rows-conflicting own (r ∷ rows) c e = rw (call-ok c e, lock_rows-conflicting own rows c e) refl

fetch_first-ok :
    {A : Type 0} (query : Conn → Option A) (c : Conn)
    → c.replies ≡ []
    → fetch_first query c ≡ (some (query c), c)
unfolding ◌>>=◌ pure
fetch_first-ok query c e = rw (calls-ok 3 c e) refl

own_row-ok :
    (cur_id : ℕ) (own : OffsetRow) (c : Conn)
    → c.replies ≡ []
    → find_offset cur_id c.db.offsets ≡ some own
    → (cur_id == id_none) ≡ false
    → own_row cur_id c ≡ (some (some own), c)
unfolding ◌>>=◌ pure fail_check
own_row-ok cur_id own c e f n =
    rw (n, fetch_first-ok (λ c. find_offset cur_id c.db.offsets) c e, f) refl

intervals_of-ok :
    (id : ℕ) (own : OffsetRow) (c : Conn)
    → c.replies ≡ []
    → intervals_of true id (some own) c
      ≡ (some (Walk.done false (live_nodes (conflicting (node_of own) (rows_of id c)))), c)
unfolding ◌>>=◌ pure
intervals_of-ok id own c e =
    rw (calls-ok 2 c e, lock_rows-conflicting (node_of own) (rows_of id c) c e) refl

-- What a lock's call finds in the tables of c.
abbrev locked_rows : ℕ → OffsetRow → Conn → FileIntervals
locked_rows id own c = record {
  id = id;
  it = Walk.done false (live_nodes (conflicting (node_of own) (rows_of id c)));
}

abbrev pub settled : Conn → Conn
settled c = record c { saved = none }

select_body-ok :
    (path : Text) (cur_id id : ℕ) (own : OffsetRow) (c : Conn)
    → c.replies ≡ []
    → find_file path c.db.files ≡ some id
    → find_offset cur_id c.db.offsets ≡ some own
    → (cur_id == id_none) ≡ false
    → select_body true true path cur_id c ≡ (some (locked_rows id own c), settled c)
unfolding select_body ◌>>=◌ pure fail_check
select_body-ok path cur_id id own c e f g n =
    let d = record c { saved = some c.db } in
    rw
      (
        exec-ok (λ c. record c { saved = some c.db }) c e,
        fetch_first-ok (λ c. find_file path c.db.files) d e,
        f,
        own_row-ok cur_id own d e g n,
        intervals_of-ok id own d e,
        exec-ok settled d e,
      )
      refl

-- With the server answering every call and memory for the copies, a file with a row for the path and a
-- row with the id of the lock (which is not ID_NONE), the call gives the file's id and, in the order of
-- the table, a node for each of the file's rows that conflicts with that row; the tables are as before.
pub query_select_file_intervals-conflicting :
    (path : Text) (cur_id id : ℕ) (own : OffsetRow) (c : Conn)
    → c.replies ≡ []
    → find_file path c.db.files ≡ some id
    → find_offset cur_id c.db.offsets ≡ some own
    → (cur_id == id_none) ≡ false
    → let s = query_select_file_intervals true true path cur_id c in
      (s.found ≡ some (locked_rows id own c)) × (s.conn ≡ settled c) × (s.wild_free ≡ false)
unfolding query_select_file_intervals
query_select_file_intervals-conflicting path cur_id id own c e f g n =
    rw (calls-ok 12 c e, select_body-ok path cur_id id own c e f g n) (refl, refl, refl)
