-- ===== src/Sql/Intervals.antt =====
-- query_select_file_intervals: the intervals of a file, all of them for printing, or those that conflict
-- with one of them for the interval locks.
pub mod Conflicts
use b_project.Base.{
  ℕ, suc, ◌+◌, ◌-◌, ◌^◌, Bool, true, false, not, ◌||◌, Option, none, some, List, [], ◌∷◌, ◌++◌,
  ◌==◌, if◌then◌else◌,
}
use b_project.Base.Text.{Text, str_eq}
use b_project.IntervalTree.{
  ItNode, it_node, it_conflict, it_insert_new, Slot, live, Walk, Walk.done, use_after_free,
  out_of_fuel,
}
use b_project.Sql.{
  answer, FileRow, OffsetRow, Conn, M, pure, ◌>>=◌, ◌>>◌, fail, fail_check, exec, call, calls,
  txn_start, txn_commit, txn_rollback,
}
use b_project.Sql.Resize.{find_offset, of_file}

-- (unsigned long)(-1)
abbrev pub id_none : ℕ
id_none = 2 ^ 64 - 1

-- SELECT FileId FROM File WHERE FilePath = ?
unfoldable pub find_file : Text → List FileRow → Option ℕ
find_file path [] = none
find_file path (r ∷ rows) = if str_eq r.path path then some r.file_id else find_file path rows

-- The first row of a result that was executed and stored; the fetch that gives no row does not fail.
abbrev pub fetch_first : {A : Type 0} → (Conn → Option A) → M (Option A)
fetch_first query = do calls 3; λ c. pure (query c) c

-- fail_check(succ != 1 && succ != MYSQL_NO_DATA)
abbrev needed : {A : Type 0} → Option A → M A
needed none = fail
needed (some a) = pure a

abbrev pub node_of : OffsetRow → ItNode
node_of r = it_node r.base r.bound r.offset_id

-- it_insert gives no NULL: a node absorbed the interval.
abbrev merged_into : Walk → Bool
merged_into (Walk.done merged it) = merged
merged_into _ = true

-- The rows for printing go through it_insert; `alloc` tells whether malloc gives the nodes. A read of a
-- freed node ends the loop.
unfoldable pub print_rows : Bool → List OffsetRow → Walk → M Walk
print_rows alloc [] w = do call; pure w
print_rows alloc (r ∷ rows) use_after_free = pure use_after_free
print_rows alloc (r ∷ rows) out_of_fuel = pure out_of_fuel
print_rows alloc (r ∷ rows) (Walk.done merged it) = do
  call
  fail_check (alloc || merged_into (it_insert_new alloc it r.base r.bound r.offset_id))
  print_rows alloc rows (it_insert_new alloc it r.base r.bound r.offset_id)

-- The rows for a lock: a node for each row, kept at the end of the list if it conflicts.
unfoldable pub lock_rows : Bool → ItNode → List OffsetRow → M (List ItNode)
lock_rows alloc own [] = do call; pure []
lock_rows alloc own (r ∷ rows) = do
  call
  fail_check alloc
  rest ← lock_rows alloc own rows
  pure (if it_conflict own (node_of r) then node_of r ∷ rest else rest)

-- What the call found: the file's id and the list that it filled.
pub record FileIntervals : Type 0 where
  pub id : ℕ
  pub it : Walk

abbrev pub live_nodes : List ItNode → List Slot
live_nodes [] = []
live_nodes (p ∷ ps) = live p ∷ live_nodes ps

abbrev pub rows_of : ℕ → Conn → List OffsetRow
rows_of id c = of_file id c.db.offsets

-- stmt[2] for one or the other use. The lists are empty before.
abbrev pub intervals_of : Bool → ℕ → Option OffsetRow → M Walk
intervals_of alloc id none = do calls 2; λ c. print_rows alloc (rows_of id c) (Walk.done false []) c
intervals_of alloc id (some own) = do
  calls 2
  nodes ← λ c. lock_rows alloc (node_of own) (rows_of id c) c
  pure (Walk.done false (live_nodes nodes))

-- A fetch whose result is not looked at.
abbrev ignored_call : M (Unit {0})
ignored_call c = (some tt, (answer c.replies c).1)

abbrev no_row : M (Option OffsetRow)
no_row = do calls 2; ignored_call; pure none

abbrev needed_row : ℕ → M (Option OffsetRow)
needed_row cur_id = do
  found ← fetch_first (λ c. find_offset cur_id c.db.offsets)
  own ← needed found
  pure (some own)

-- The row with cur_id, which only a lock needs.
abbrev pub own_row : ℕ → M (Option OffsetRow)
own_row cur_id = if cur_id == id_none then no_row else needed_row cur_id

-- From TXN_START to the end; `dup` tells whether strdup gives memory.
unfoldable pub select_body : Bool → Bool → Text → ℕ → M FileIntervals
unfolding print_rows lock_rows find_file
select_body dup alloc path cur_id = do
  txn_start
  found ← fetch_first (λ c. find_file path c.db.files)
  id ← needed found
  fail_check dup
  own ← own_row cur_id
  it ← intervals_of alloc id own
  txn_commit
  pure (record { id = id; it = it })

-- The end of the call. A failure before rf->file_path was set to NULL hands to free() what it held.
pub record Selected : Type 0 where
  pub found : Option FileIntervals
  pub conn : Conn
  pub wild_free : Bool

abbrev select_end : Bool → Option FileIntervals × Conn → Selected
select_end wild (none, c) = record { found = none; conn = txn_rollback c; wild_free = wild }
select_end wild (some f, c) = record { found = some f; conn = c; wild_free = false }

abbrev select_go : Bool → Bool → Text → ℕ → Option (Unit {0}) × Conn → Selected
select_go dup alloc path cur_id (none, c) = select_end true (none, c)
select_go dup alloc path cur_id (some _, c) = select_end false (select_body dup alloc path cur_id c)

-- Three statements are prepared, each with its binds.
unfoldable pub query_select_file_intervals : Bool → Bool → Text → ℕ → Conn → Selected
unfolding select_body
query_select_file_intervals dup alloc path cur_id c = select_go dup alloc path cur_id (calls 12 c)
