-- ===== src/Sql/Resize.antt =====
-- query_resize_file: the offsets of a file after its intervals were edited.
pub mod Offsets
pub mod Atomic
pub mod Cases
use b_project.Base.{
  ℕ, suc, ◌+◌, ◌-◌, ◌%◌, ◌^◌, Bool, true, false, not, ◌&&◌, ◌||◌, Option, none, some, List, [], ◌∷◌,
  map, length, ltb, leb, ◌==◌, if◌then◌else◌,
}
use b_project.Base.Int.{ℤ, pos, negsuc, ◌+ℤ◌, ◌-ℤ◌}
use b_project.IntervalTree.{ItNode}
use b_project.Sql.{
  OffsetRow, Db, Conn, M, pure, ◌>>=◌, ◌>>◌, fail, fail_check, exec, call, calls, txn_start,
  txn_commit, txn_rollback, and_then,
}

abbrev pub size_mod : ℕ
size_mod = 2 ^ 64

-- The new Base and Bound of the UPDATE. MySQL assigns from left to right, so the Conflict column is
-- computed from the new Base and the new Bound. `Base + @ns - (@ob - @b)` is written with one
-- subtraction, which does not truncate where the statement uses it.
unfoldable pub new_base : ℕ → ℕ → ℕ → ℕ → OffsetRow → ℕ
new_base oid ns b ob r =
    if not (r.offset_id == oid) && leb ob r.base then r.base + ns + b - ob else r.base

unfoldable pub new_bound : ℕ → ℕ → ℕ → OffsetRow → ℕ
new_bound ns b ob r = if leb ob r.bound then r.bound + ns + b - ob else r.bound

-- The three disjuncts of the Conflict column.
unfoldable pub overlaps_edit : ℕ → ℕ → ℕ → ℕ → Bool
overlaps_edit b ob base bound =
    (ltb b base && ltb ob bound && ltb base ob)
    || (leb b base && leb bound ob)
    || (ltb base b && ltb b bound && ltb bound ob)

unfoldable pub update_row : ℕ → ℕ → ℕ → ℕ → OffsetRow → OffsetRow
unfolding new_base new_bound overlaps_edit
update_row oid ns b ob r =
    let base = new_base oid ns b ob r in
    let bound = new_bound ns b ob r in
    record r {
      base = base;
      bound = bound;
      conflict =
          if r.offset_id == oid
          then false
          else if overlaps_edit b ob base bound
          then true
          else r.conflict;
    }

-- The whole UPDATE, with its WHERE.
unfoldable pub update_offsets : ℕ → Conn → Conn
unfolding update_row
update_offsets file_id c = record c {
  db = record (c.db) {
    offsets =
        map (λ r. if r.file_id == file_id then update_row c.oid c.ns c.b c.ob r else r)
          c.db.offsets;
  };
}

unfoldable pub find_offset : ℕ → List OffsetRow → Option OffsetRow
find_offset id [] = none
find_offset id (r ∷ rows) = if r.offset_id == id then some r else find_offset id rows

-- SET @oid = ?, @ns = ?
unfoldable pub set_vars : ℕ → ℕ → Conn → Conn
set_vars id new_sz c = record c { oid = id; ns = new_sz }

-- SELECT Base, Bound INTO @b, @ob: with no row the variables keep their values.
unfoldable pub select_into : Conn → Conn
unfolding find_offset
select_into c = elim (find_offset c.oid c.db.offsets) [
  | none ↦ c
  | some r ↦ record c { b = r.base; ob = r.bound }
]

abbrev pub fetch_bounds : ℕ × ℕ → Option OffsetRow → M (ℕ × ℕ)
fetch_bounds old none = call >> pure old
fetch_bounds old (some r) = calls 2 >> pure (r.base, r.bound)

-- SELECT Base, Bound, stored and fetched to its end into db_base and db_bound: with no row they keep
-- their values.
unfoldable pub select_bounds : ℕ × ℕ → M (ℕ × ℕ)
select_bounds old = do calls 2; λ c. fetch_bounds old (find_offset c.oid c.db.offsets) c

-- struct offset_update
pub record OffsetUpdate : Type 0 where
  pub backing_start : ℕ
  pub backing_end : ℕ
  pub swp_start : ℕ
  pub swp_end : ℕ

-- The conversion of a signed value to size_t.
unfoldable pub to_size : ℤ → ℕ
to_size (pos n) = n % size_mod
to_size (negsuc n) = size_mod - 1 - n % size_mod

-- a - b on unsigned long
abbrev pub sub64 : ℕ → ℕ → ℕ
sub64 a b = (a + size_mod - b) % size_mod

-- The statements that the loop runs for one interval; `old` holds db_base and db_bound.
unfoldable pub resize_step : ℕ → ItNode → ℕ × ℕ → M (ℕ × ℕ)
resize_step file_id p old = do
  exec (set_vars p.id (sub64 p.bound p.base))
  exec select_into
  found ← select_bounds old
  exec (update_offsets file_id)
  pure found

-- The entry for one interval. `delta` is what the earlier ones have moved the rows by.
abbrev offset_update : ItNode → ℤ → ℕ × ℕ → OffsetUpdate
offset_update p delta (db_base, db_bound) = record {
  backing_start = to_size (pos db_base -ℤ delta);
  backing_end = to_size (pos db_bound -ℤ delta);
  swp_start = p.base;
  swp_end = p.bound;
}

abbrev pub next_delta : ItNode → ℤ → ℕ × ℕ → ℤ
next_delta p delta (db_base, db_bound) =
    delta +ℤ pos (sub64 p.bound p.base) -ℤ (pos db_bound -ℤ pos db_base)

-- The loop over the intervals.
unfoldable pub resize_loop : ℕ → List ItNode → ℤ → ℕ × ℕ → M (List OffsetUpdate)
resize_loop file_id [] delta old = pure []
resize_loop file_id (p ∷ ps) delta old = do
  found ← resize_step file_id p old
  rest ← resize_loop file_id ps (next_delta p delta found) found
  pure (offset_update p delta found ∷ rest)

-- What query_resize_file did: its result, the connection, how often it called zk_unlock_intervals,
-- and the updates that it handed to write_offset_update.
pub record Resized : Type 0 where
  pub ret_ok : Bool
  pub conn : Conn
  pub unlocks : ℕ
  pub written : Option (List OffsetUpdate)

abbrev pub of_file : ℕ → List OffsetRow → List OffsetRow
of_file file_id [] = []
of_file file_id (r ∷ rows) =
    if r.file_id == file_id then r ∷ of_file file_id rows else of_file file_id rows

-- The result of the locking SELECT is stored, and its rows are fetched to the end.
abbrev read_locked : ℕ → M (Unit {0})
read_locked file_id c = calls (length (of_file file_id c.db.offsets) + 2) c

-- From the first line to the locking of the file's rows. Five statements are prepared: stmt_init,
-- prepare and the binds that each has. `alloc` tells whether malloc gives memory.
unfoldable pub resize_start : Bool → M (Unit {0})
resize_start alloc = do calls 14; fail_check alloc; txn_start; call

-- What follows zk_unlock_intervals. `write` stands for write_offset_update (>= 0 is true).
unfoldable pub resize_body : (List OffsetUpdate → Bool) → ℕ → List ItNode → M (List OffsetUpdate)
resize_body write file_id nodes = do
  read_locked file_id
  ou ← resize_loop file_id nodes (pos 0) (0, 0)
  fail_check (write ou)
  txn_commit
  pure ou

-- The label `fail`: the intervals are unlocked if they have not been.
abbrev resize_fail : ℕ → Conn → Resized
resize_fail unlock c = record {
  ret_ok = false;
  conn = txn_rollback c;
  unlocks = if unlock == 0 then unlock + 1 else unlock;
  written = none;
}

-- `unlock` is what the call has done so far.
abbrev pub resize_end : ℕ → Option (List OffsetUpdate) × Conn → Resized
resize_end unlock (some ou, c) = record {
  ret_ok = true;
  conn = c;
  unlocks = unlock;
  written = some ou;
}
resize_end unlock (none, c) = resize_fail unlock c

abbrev pub resize_go :
    (List OffsetUpdate → Bool) → ℕ → List ItNode → Option (Unit {0}) × Conn → Resized
resize_go write file_id nodes (none, c) = resize_fail 0 c
resize_go write file_id nodes (some _, c) = resize_end (0 + 1) (resize_body write file_id nodes c)

unfoldable pub query_resize_file :
    Bool → (List OffsetUpdate → Bool) → ℕ → List ItNode → Conn → Resized
query_resize_file alloc write file_id nodes c = resize_go write file_id nodes (resize_start alloc c)
