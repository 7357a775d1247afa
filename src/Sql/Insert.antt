-- ===== src/Sql/Insert.antt =====
-- query_insert_named_range: a new range with its files and their intervals.
pub mod Atomic
pub mod Steps
pub mod Rows
use b_project.Base.{
  ℕ, suc, ◌+◌, Bool, true, false, Option, none, some, List, [], ◌∷◌, ◌++◌, map, any, ◌==◌,
  if◌then◌else◌,
}
use b_project.Base.Text.{Text, str_eq}
use b_project.IntervalTree.{ItNode}
use b_project.Sql.{
  RangeRow, FileRow, JunctionRow, OffsetRow, Conn, M, pure, ◌>>=◌, ◌>>◌, fail, exec, answer, call,
  calls, txn_start, txn_commit, txn_rollback,
}
use b_project.Sql.Intervals.{find_file}

-- An INSERT gives the id that mysql_insert_id gives afterwards, or none if it is refused.
abbrev pub Insertion : Type 0
Insertion = Conn → Option ℕ × Conn

abbrev pub attempted : Insertion → Bool × Conn → Option ℕ × Conn
attempted f (true, c) = f c
attempted f (false, c) = (none, c)

abbrev pub noted : Option ℕ × Conn → Option (Option ℕ) × Conn
noted (id, c) = (some id, c)

-- An INSERT whose failure does not jump to `fail`.
unfoldable pub try_insert : Insertion → M (Option ℕ)
try_insert f c = noted (attempted f (answer c.replies c))

abbrev pub required : Option ℕ → M ℕ
required none = fail
required (some id) = pure id

-- INSERT INTO RangeName (Name, Init) VALUES (?, FALSE); names are unique. Names and paths fit their
-- columns, by range_init and range_add_file.
unfoldable pub insert_range : Text → Insertion
insert_range name c =
    let id = c.db.next_id in
    if any (λ (r : RangeRow). str_eq r.name name) c.db.ranges then (none, c) else (
      some id,
      record c {
        db = record (c.db) {
          ranges = c.db.ranges ++ record { range_id = id; name = name; init = false } ∷ [];
          next_id = id + 1;
        };
      },
    )

abbrev pub add_file_unless : Text → Conn → Option ℕ → Option ℕ × Conn
add_file_unless path c (some old) = (none, c)
add_file_unless path c none = (
  some c.db.next_id,
  record c {
    db = record (c.db) {
      files = c.db.files ++ record { file_id = c.db.next_id; path = path } ∷ [];
      next_id = c.db.next_id + 1;
    };
  },
)

-- INSERT INTO File (FilePath) VALUES (?); paths are unique.
unfoldable pub insert_file : Text → Insertion
unfolding find_file
insert_file path c = add_file_unless path c (find_file path c.db.files)

abbrev has_file : ℕ → Conn → Bool
has_file file_id c = any (λ (f : FileRow). f.file_id == file_id) c.db.files

-- INSERT INTO RangeFileJunction (RangeId, FileId) VALUES (?, ?); the file must be there.
unfoldable pub insert_junction : ℕ → ℕ → Insertion
insert_junction range_id file_id c =
    if has_file file_id c
    then (
      some c.db.next_id,
      record c {
        db = record (c.db) {
          junctions = c.db.junctions ++ record { range_id = range_id; file_id = file_id } ∷ [];
          next_id = c.db.next_id + 1;
        };
      },
    )
    else (none, c)

-- INSERT INTO Offset (RangeId, FileId, Base, Bound) VALUES (?, ?, ?, ?); the junction before it has seen
-- the file.
unfoldable pub insert_offset : ℕ → ℕ → ItNode → Insertion
insert_offset range_id file_id p c =
    let id = c.db.next_id in
    (
      some id,
      record c {
        db = record (c.db) {
          offsets =
              c.db.offsets
              ++ record {
                offset_id = id;
                base = p.base;
                bound = p.bound;
                conflict = false;
                file_id = file_id;
                range_id = range_id;
              }
                ∷ [];
          next_id = id + 1;
        };
      },
    )

-- UPDATE RangeName SET RangeName.Init = TRUE WHERE RangeName.RangeId = ?
unfoldable pub set_init : ℕ → Conn → Conn
set_init range_id c = record c {
  db = record (c.db) {
    ranges = map (λ r. if r.range_id == range_id then record r { init = true } else r) c.db.ranges;
  };
}

-- it_foreach; what the server refuses is printed and left out.
unfoldable pub insert_offsets : ℕ → ℕ → List ItNode → M (Unit {0})
unfolding insert_offset
insert_offsets range_id file_id [] = pure tt
insert_offsets range_id file_id (p ∷ ps) = do
  id ← try_insert (insert_offset range_id file_id p)
  insert_offsets range_id file_id ps

-- The rows of stmt[2], fetched to the end into fileId; with none it keeps its value.
abbrev pub fetch_id : ℕ → Option ℕ → M ℕ
fetch_id old none = do call; pure old
fetch_id old (some id) = do calls 2; pure id

-- mysql_insert_id, or the id of the file that is there when the INSERT failed.
abbrev pub known_id : ℕ → Text → Option ℕ → M ℕ
known_id old path (some id) = pure id
known_id old path none = do calls 2; λ c. fetch_id old (find_file path c.db.files) c

-- The INSERT of the path and what follows on its failure.
unfoldable pub find_or_insert : ℕ → Text → M ℕ
unfolding insert_file
find_or_insert old path = do new ← try_insert (insert_file path); known_id old path new

-- One file; `old` is what fileId holds.
unfoldable pub insert_one : ℕ → ℕ → Text × List ItNode → M ℕ
unfolding insert_offsets find_or_insert insert_junction
insert_one range_id old file = do
  id ← find_or_insert old file.0
  junction ← try_insert (insert_junction range_id id)
  _ ← required junction
  insert_offsets range_id id file.1
  pure id

-- The loop over the files, each with its path and its intervals; it gives their new ids.
unfoldable pub insert_files : ℕ → ℕ → List (Text × List ItNode) → M (List ℕ)
unfolding insert_one
insert_files range_id old [] = pure []
insert_files range_id old (file ∷ files) = do
  id ← insert_one range_id old file
  ids ← insert_files range_id id files
  pure (id ∷ ids)

unfoldable pub insert_body : ℕ → Text → List (Text × List ItNode) → M (List ℕ)
unfolding insert_files insert_range set_init
insert_body old name files = do
  txn_start
  new ← try_insert (insert_range name)
  range_id ← required new
  ids ← insert_files range_id old files
  exec (set_init range_id)
  txn_commit
  pure ids

-- How the call ends: the ids that the files of the range were given if it returns 0, none for -1.
pub record Inserted : Type 0 where
  pub ids : Option (List ℕ)
  pub conn : Conn

abbrev pub insert_end : Option (List ℕ) × Conn → Inserted
insert_end (none, c) = record { ids = none; conn = txn_rollback c }
insert_end (some ids, c) = record { ids = some ids; conn = c }

-- Six statements are prepared, each with its binds. `old` is what fileId holds before.
unfoldable pub query_insert_named_range : ℕ → Text → List (Text × List ItNode) → Conn → Inserted
unfolding insert_body
query_insert_named_range old name files c = insert_end ((calls 19 >> insert_body old name files) c)
