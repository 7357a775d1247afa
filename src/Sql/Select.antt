-- ===== src/Sql/Select.antt =====
-- query_select_named_range: a range is read from the tables into a struct range.
pub mod Groups
pub mod Locks
use Prim.Native.Nat.{Ordering, lt, eq, gt, compare}
use b_project.Base.{
  ℕ, suc, ◌+◌, Bool, true, false, not, ◌&&◌, ◌||◌, Option, none, some, List, [], ◌∷◌, ◌++◌, any,
  map, set, get_elem?, drop, ◌==◌, if◌then◌else◌,
}
use b_project.Base.Text.{Text, str_eq, text_order}
use b_project.Base.Qsort.{qsort}
use b_project.AList.{slots}
use b_project.Range.{
  RangeFile, Range, AddIt, added, wild_link, fault, range_add_file, range_file_add_it, files,
}
use b_project.Sql.{
  RangeRow, FileRow, JunctionRow, OffsetRow, Db, Conn, M, ◌>>◌, call, calls, txn_start, txn_commit,
  txn_rollback,
}

-- A row of QUERY_SELECT_NAMED_RANGE.
pub record SelectRow : Type 0 where
  pub file_id : ℕ
  pub path : Text
  pub offset_id : ℕ
  pub base : ℕ
  pub bound : ℕ
  pub conflict : Bool

abbrev pub select_row : FileRow → OffsetRow → SelectRow
select_row f o = record {
  file_id = f.file_id;
  path = f.path;
  offset_id = o.offset_id;
  base = o.base;
  bound = o.bound;
  conflict = o.conflict;
}

-- The joins from the inside: the offsets of a file and a range, those of the junction's file, those of the
-- range's junctions, those of the complete ranges with the name.
unfoldable pub join_offsets : RangeRow → FileRow → List OffsetRow → List SelectRow
join_offsets r f [] = []
join_offsets r f (o ∷ offsets) =
    if o.file_id == f.file_id && o.range_id == r.range_id
    then select_row f o ∷ join_offsets r f offsets
    else join_offsets r f offsets

unfoldable pub join_files : Db → RangeRow → JunctionRow → List FileRow → List SelectRow
unfolding join_offsets
join_files d r j [] = []
join_files d r j (f ∷ rest) =
    if f.file_id == j.file_id
    then join_offsets r f d.offsets ++ join_files d r j rest
    else join_files d r j rest

unfoldable pub join_junctions : Db → RangeRow → List JunctionRow → List SelectRow
unfolding join_files
join_junctions d r [] = []
join_junctions d r (j ∷ junctions) =
    if j.range_id == r.range_id
    then join_files d r j d.files ++ join_junctions d r junctions
    else join_junctions d r junctions

unfoldable pub join_ranges : Db → Text → List RangeRow → List SelectRow
unfolding join_junctions
join_ranges d name [] = []
join_ranges d name (r ∷ ranges) =
    if str_eq r.name name && r.init
    then join_junctions d r d.junctions ++ join_ranges d name ranges
    else join_ranges d name ranges

-- ORDER BY File.FilePath, Offset.Base
unfoldable pub row_order : SelectRow → SelectRow → Ordering
row_order a b = text_order a.path b.path (compare a.base b.base)

unfoldable pub select_rows : Text → Db → List SelectRow
unfolding join_ranges row_order
select_rows name d = qsort row_order (join_ranges d name d.ranges)

-- What the loop keeps: the range, old_buf, and the file that rf points to, none for NULL.
pub record Scan : Type 0 where
  pub range : Range
  pub old_buf : Text
  pub rf : Option ℕ

-- One row: the next state, the jump to `fail`, or a read through rf or a link that leads nowhere.
pub data Row : Type 0 where
  next : Scan → Row
  stop : Range → Row
  wild : Row

abbrev pub added_at : Scan → ℕ → AddIt → Row
added_at s i (added f ok) = next (record s {
  range = record (s.range) { ls = record (s.range.ls) { ls = some (set (slots s.range.ls) i f) } };
})
added_at s i wild_link = wild
added_at s i fault = wild

-- How the loop ends.
pub data Scanned : Type 0 where
  scanned : Range → Conn → Scanned
  failed : Range → Conn → Scanned
  wild_read : Scanned

abbrev pub fetched : Range → (Conn → Scanned) → Option (Unit {0}) × Conn → Scanned
fetched r k (none, c) = failed r c
fetched r k (some _, c) = k c

abbrev pub after_row : (Scan → Conn → Scanned) → Conn → Row → Scanned
after_row k c (next s) = k s c
after_row k c (stop r) = failed r c
after_row k c wild = wild_read

-- *files is NULL where no file is asked for.
abbrev pub asked : List Text → Text → Bool
asked [] path = true
asked (f ∷ fs) path = any (λ g. str_eq g path) (f ∷ fs)

-- `dup` and `alloc` tell whether strdup, malloc and realloc give memory, which holds `junk`.
module _ (dup alloc : Bool) (junk : RangeFile) where
  abbrev pub add_to : Scan → SelectRow → ℕ → Option RangeFile → Row
  add_to s row i none = wild
  add_to s row i (some f) =
      added_at s i (range_file_add_it alloc f row.base row.bound row.offset_id)

  abbrev pub add_interval : Scan → SelectRow → Option ℕ → Row
  add_interval s row none = wild
  add_interval s row (some i) = add_to s row i (get_elem? (slots s.range.ls) i)

  abbrev pub in_new_file : SelectRow → Range × Option ℕ → Row
  in_new_file row (r, none) = stop r
  in_new_file row (r, some i) =
      add_interval (record { range = r; old_buf = row.path; rf = some i }) row (some i)

  -- The body of the loop behind the fetch.
  unfoldable pub scan_row : List Text → Scan → SelectRow → Row
  scan_row wanted s row =
      if str_eq s.old_buf row.path
      then add_interval s row s.rf
      else if asked wanted row.path
      then in_new_file row (range_add_file dup alloc junk s.range row.path row.file_id)
      else next s

  -- The loop: a fetch, and the row that it gave.
  unfoldable pub scan_rows : List Text → List SelectRow → Scan → Conn → Scanned
  unfolding scan_row
  scan_rows wanted [] s c = fetched s.range (λ d. scanned s.range d) (call c)
  scan_rows wanted (row ∷ rows) s c =
      fetched s.range (λ d. after_row (scan_rows wanted rows) d (scan_row wanted s row)) (call c)

-- What zk_lock_intervals did for a file: whether it gave at least num_it.
pub record Locked (W : Type 0) : Type 0 where
  pub all : Bool
  pub file : RangeFile
  pub world : W

pub record LockedFiles (W : Type 0) : Type 0 where
  pub all : Bool
  pub files : List RangeFile
  pub world : W

-- How the call ends.
pub record NamedRange (W : Type 0) : Type 0 where
  pub ok : Bool
  pub range : Range
  pub conn : Conn
  pub world : W

-- zk_lock_intervals of zkclient.c and prepare_file_threads of file.c, which change the world of
-- ZooKeeper, the files and the editor.
module _ {W : Type 0} (lock_intervals : RangeFile → W → Locked W)
    (prepare : Range → W → Bool × W) where
  abbrev lock_rest : RangeFile → LockedFiles W → LockedFiles W
  lock_rest f l = record l { files = f ∷ l.files }

  unfoldable pub lock_files : List RangeFile → W → LockedFiles W
  lock_files [] w = record { all = true; files = []; world = w }
  lock_files (f ∷ fs) w =
      let l = lock_intervals f w in
      let rest = lock_files fs l.world in
      if l.all
      then lock_rest l.file rest
      else record { all = false; files = l.file ∷ fs; world = l.world }

  abbrev pub ended : Bool → Range → Conn → W → NamedRange W
  ended ok r c w = record { ok = ok; range = r; conn = c; world = w }

  abbrev pub prepared : Range → Conn → Bool × W → NamedRange W
  prepared r c (ok, w) = ended ok r c w

  -- TXN_COMMIT, and the threads if the range is to be used.
  abbrev pub finish : Bool → Range → W → Option (Unit {0}) × Conn → NamedRange W
  finish lock r w (none, c) = ended false r (txn_rollback c) w
  finish true r w (some _, c) = prepared r c (prepare r w)
  finish false r w (some _, c) = ended true r c w

  abbrev pub used_files : Range → List RangeFile → Range
  used_files r fs = record r { ls = record (r.ls) { ls = some (fs ++ drop r.ls.sz (slots r.ls)) } }

  abbrev pub after_locks : Range → Conn → LockedFiles W → NamedRange W
  after_locks r c l =
      if l.all
      then finish true (used_files r l.files) l.world (txn_commit c)
      else ended false (used_files r l.files) (txn_rollback c) l.world

  unfoldable pub after_scan : Bool → W → Scanned → Option (NamedRange W)
  unfolding lock_files
  after_scan lock w wild_read = none
  after_scan lock w (failed r c) = some (ended false r (txn_rollback c) w)
  after_scan false w (scanned r c) = some (finish false r w (txn_commit c))
  after_scan true w (scanned r c) = some (after_locks r c (lock_files (files r) w))

  module _ (dup alloc : Bool) (junk : RangeFile) where
    abbrev pub scan_from :
        Bool → List Text → Text → Range → W → Option (Unit {0}) × Conn → Option (NamedRange W)
    scan_from lock wanted name r w (none, c) = some (ended false r (txn_rollback c) w)
    scan_from lock wanted name r w (some _, c) =
        let s : Scan = record { range = r; old_buf = []; rf = none } in
        after_scan lock w (scan_rows dup alloc junk wanted (select_rows name c.db) s c)

    -- none for a read that leads nowhere. The range has its name.
    unfoldable pub query_select_named_range :
        Bool → List Text → Text → Range → Conn → W → Option (NamedRange W)
    unfolding after_scan scan_rows select_rows
    query_select_named_range lock wanted name r c w =
        scan_from lock wanted name r w ((txn_start >> calls 6) c)
