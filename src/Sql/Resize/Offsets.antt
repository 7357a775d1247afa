-- ===== src/Sql/Resize/Offsets.antt =====
-- The offsets that query_resize_file hands to write_offset_update.
use b_project.Base.{
  ℕ, ◌+◌, ◌-◌, ◌≤◌, ◌<◌, ◌≡◌, refl, ap, sym, ◌∙◌, ◌≢◌, some, List, [], ◌∷◌, map, arith, ◌==◌,
  if◌then◌else◌,
}
use b_project.Base.Int.{ℤ, pos, ◌-ℤ◌, +ℤ_parts, -ℤ_parts, eq_of_parts, pos_part, neg_part}
use b_project.IntervalTree.{ItNode}
use b_project.Sql.{OffsetRow, Conn, pure, ◌>>=◌}
use b_project.Sql.Answered.{exec-ok, calls-ok}
use b_project.Sql.Resize.{
  size_mod, sub64, to_size, update_row, update_offsets, find_offset, set_vars, select_into,
  fetch_bounds, select_bounds, OffsetUpdate, resize_step, next_delta, resize_loop,
}

-- An interval of the swap file with the base and bound that its row had before the edits.
pub record Edit : Type 0 where
  pub node : ItNode
  pub base : ℕ
  pub bound : ℕ

abbrev pub nodes : List Edit → List ItNode
nodes [] = []
nodes (t ∷ ts) = t.node ∷ nodes ts

abbrev pub updates : List Edit → List OffsetUpdate
updates [] = []
updates (t ∷ ts) =
    record {
      backing_start = t.base;
      backing_end = t.bound;
      swp_start = t.node.base;
      swp_end = t.node.bound;
    }
    ∷ updates ts

-- No later interval has this id.
abbrev pub Fresh : ℕ → List Edit → Type 0
Fresh id [] = Unit {0}
Fresh id (t ∷ ts) = (t.node.id ≢ id) × Fresh id ts

-- The rows of the intervals stand in the table, moved by delta; before that they were in order from m on,
-- without overlap, and all numbers are sizes of 64 bits.
abbrev pub Tracks : ℕ → List OffsetRow → ℤ → ℕ → List Edit → Type 0
Tracks file_id rows delta m [] = Unit {0}
Tracks file_id rows delta m (t ∷ ts) =
    (r : OffsetRow) × (find_offset t.node.id rows ≡ some r)
    × (r.file_id ≡ file_id)
    × (r.base + neg_part delta ≡ t.base + pos_part delta)
    × (r.bound + neg_part delta ≡ t.bound + pos_part delta)
    × (m ≤ t.base)
    × (t.base ≤ t.bound)
    × (t.bound < size_mod)
    × (t.node.base ≤ t.node.bound)
    × (t.node.bound < size_mod)
    × Fresh t.node.id ts
    × Tracks file_id rows delta t.bound ts

-- The row function of the UPDATE, with its WHERE.
abbrev update_in : ℕ → ℕ → ℕ → ℕ → ℕ → OffsetRow → OffsetRow
update_in file_id oid ns b ob r = if r.file_id == file_id then update_row oid ns b ob r else r

update_row-id :
    (oid ns b ob : ℕ) (r : OffsetRow)
    → ((update_row oid ns b ob r).offset_id ≡ r.offset_id)
      × ((update_row oid ns b ob r).file_id ≡ r.file_id)
unfolding update_row
update_row-id oid ns b ob r = (refl, refl)

find_offset-map :
    (id file_id oid ns b ob : ℕ) (rows : List OffsetRow) (r : OffsetRow)
    → find_offset id rows ≡ some r
    → find_offset id (map (update_in file_id oid ns b ob) rows)
      ≡ some (update_in file_id oid ns b ob r)
unfolding find_offset
find_offset-map id file_id oid ns b ob [] r e = cc
find_offset-map id file_id oid ns b ob (x ∷ rows) r e =
    ground (arith, find_offset-map id file_id oid ns b ob rows r, update_row-id oid ns b ob x)

-- A row behind the edited one, after the UPDATE.
update_in_after :
    (file_id oid ns b ob : ℕ) (r : OffsetRow)
    → r.file_id ≡ file_id
    → r.offset_id ≢ oid
    → ob ≤ r.base
    → r.base ≤ r.bound
    → let r' = update_in file_id oid ns b ob r in
      (r'.base + ob ≡ r.base + ns + b) × (r'.bound + ob ≡ r.bound + ns + b) × (r'.file_id ≡ file_id)
unfolding update_row
update_in_after file_id oid ns b ob r e n h v = ground arith

find_offset-id :
    (id : ℕ) (rows : List OffsetRow) (r : OffsetRow)
    → find_offset id rows ≡ some r
    → r.offset_id ≡ id
unfolding find_offset
find_offset-id id [] r e = cc
find_offset-id id (x ∷ rows) r e = ground (arith, find_offset-id id rows r)

ruleset int_laws = (arith, +ℤ_parts, -ℤ_parts, eq_of_parts)

Tracks-update :
    (file_id oid ns b ob : ℕ) (rows : List OffsetRow) (delta delta' : ℤ) (m : ℕ) (ts : List Edit)
    → ob + neg_part delta ≤ m + pos_part delta
    → pos_part delta' + neg_part delta + ob ≡ neg_part delta' + pos_part delta + ns + b
    → Fresh oid ts
    → Tracks file_id rows delta m ts
    → Tracks file_id (map (update_in file_id oid ns b ob) rows) delta' m ts
Tracks-update file_id oid ns b ob rows delta delta' m [] e d f t = tt
Tracks-update file_id oid ns b ob rows delta delta' m (t ∷ ts) e d f
      (r, found, owned, at_base, at_bound, from, size, fits, size', fits', fresh, rest) =
    let r' = update_in file_id oid ns b ob r in
    let other : r.offset_id ≢ oid = λ x. f.0 (sym (find_offset-id t.node.id rows r found) ∙ x) in
    let (moved, moved', owned') =
      update_in_after file_id oid ns b ob r owned other (omega arith) (omega arith) in
    (
      r',
      find_offset-map t.node.id file_id oid ns b ob rows r found,
      owned',
      omega arith,
      omega arith,
      from,
      size,
      fits,
      size',
      fits',
      fresh,
      Tracks-update file_id oid ns b ob rows delta delta' t.bound ts (omega arith) d f.1 rest,
    )

select_bounds-ok :
    (old : ℕ × ℕ) (c : Conn) (r : OffsetRow)
    → c.replies ≡ []
    → find_offset c.oid c.db.offsets ≡ some r
    → select_bounds old c ≡ (some (r.base, r.bound), c)
unfolding select_bounds ◌>>=◌ pure
select_bounds-ok old c r e found = rw (calls-ok 2 c e, found, fetch_bounds) (rw (calls-ok 2 c e))

select_into-ok :
    (c : Conn) (r : OffsetRow)
    → find_offset c.oid c.db.offsets ≡ some r
    → select_into c ≡ record c { b = r.base; ob = r.bound }
unfolding select_into
select_into-ok c r found = rw (select_into, found)

to_size-back :
    (x y : ℕ) (delta : ℤ)
    → x + neg_part delta ≡ y + pos_part delta
    → y < size_mod
    → to_size (pos x -ℤ delta) ≡ y
unfolding to_size
to_size-back x y delta e h =
    ap to_size (eq_of_parts (pos x -ℤ delta) (pos y) (omega int_laws)) ∙ omega arith

pub sub64-exact : (a b : ℕ) → b ≤ a → a < size_mod → sub64 a b ≡ a - b
sub64-exact a b h k = omega arith

-- The connection after the statements for one interval.
abbrev after_step : ℕ → ItNode → OffsetRow → Conn → Conn
after_step file_id p r c =
    let ns = sub64 p.bound p.base in
    record c {
      db = record (c.db) { offsets = map (update_in file_id p.id ns r.base r.bound) c.db.offsets };
      oid = p.id;
      ns = ns;
      b = r.base;
      ob = r.bound;
    }

resize_step-ok :
    (file_id : ℕ) (p : ItNode) (old : ℕ × ℕ) (c : Conn) (r : OffsetRow)
    → c.replies ≡ []
    → find_offset p.id c.db.offsets ≡ some r
    → resize_step file_id p old c ≡ (some (r.base, r.bound), after_step file_id p r c)
unfolding resize_step ◌>>=◌ pure set_vars update_offsets
resize_step-ok file_id p old c r e found =
    let c1 = set_vars p.id (sub64 p.bound p.base) c in
    let c2 : Conn = record c1 { b = r.base; ob = r.bound } in
    rw (
      exec-ok (set_vars p.id (sub64 p.bound p.base)) c e,
      exec-ok select_into c1 e,
      select_into-ok c1 r found,
      select_bounds-ok old c2 r e found,
      exec-ok (update_offsets file_id) c2 e,
    )

-- With every call answered, query_resize_file's loop hands on, for each interval in order, the offsets
-- that its row had before any of this run's updates, beside the interval's place in the swap file,
-- although the rows have been moved by the updates for the intervals in front of it. The rows must
-- stand in the table in that order, without overlap, each with an id of its own.
pub resize_loop-updates :
    (file_id : ℕ) (ts : List Edit) (delta : ℤ) (old : ℕ × ℕ) (m : ℕ) (c : Conn)
    → c.replies ≡ []
    → Tracks file_id c.db.offsets delta m ts
    → (resize_loop file_id (nodes ts) delta old c).0 ≡ some (updates ts)
unfolding resize_loop ◌>>=◌ pure
resize_loop-updates file_id [] delta old m c e t = refl
resize_loop-updates file_id (t ∷ ts) delta old m c e
      (r, found, owned, at_base, at_bound, from, size, fits, size', fits', fresh, rest) =
    let p = t.node in
    let ns = sub64 p.bound p.base in
    let exact = sub64-exact p.bound p.base size' fits' in
    let found' : ℕ × ℕ = (r.base, r.bound) in
    let d' = next_delta p delta found' in
    let moved : pos_part d' + neg_part delta + r.bound
        ≡ neg_part d' + pos_part delta + ns + r.base =
      omega int_laws in
    let tracks =
      Tracks-update file_id p.id ns r.base r.bound c.db.offsets delta d' t.bound ts (omega arith)
        moved fresh rest in
    rw (
      resize_step-ok file_id p old c r e found,
      resize_loop-updates file_id ts d' found' t.bound (after_step file_id p r c) e tracks,
      to_size-back r.base t.base delta at_base (omega arith),
      to_size-back r.bound t.bound delta at_bound fits,
    )
