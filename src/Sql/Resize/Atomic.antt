-- ===== src/Sql/Resize/Atomic.antt =====
-- query_resize_file changes the tables wholly or not at all.
use b_project.Base.{ℕ, ◌≡◌, refl, ◌∙◌, Bool, false, Option, none, some, List, [], ◌∷◌, arith}
use b_project.Base.Int.{ℤ, pos}
use b_project.IntervalTree.{ItNode}
use b_project.Sql.{OffsetRow, Conn, call, calls, Db}
use b_project.Sql.Keeps.{
  Keeps, FailKeeps, >>=-Keeps, >>=-FailKeeps, exec-Keeps, call-Keeps, calls-Keeps, pure-Keeps,
  fail_check-Keeps, commit-FailKeeps,
}
use b_project.Sql.Untouched.{
  Opened, Opens, >>=-Opens, started-Opens, rollback-saved, calls-Stays, fail_check-Stays,
}
use b_project.Sql.Resize.{
  fetch_bounds, OffsetUpdate, Resized, resize_start, resize_body, resize_step, resize_loop,
  resize_end, resize_go, query_resize_file, set_vars, select_into, select_bounds, update_offsets,
  find_offset,
}

select_into-saved : (c : Conn) → (select_into c).saved ≡ c.saved
unfolding select_into
select_into-saved c = ground arith

set_vars-saved : (id new_sz : ℕ) (c : Conn) → (set_vars id new_sz c).saved ≡ c.saved
unfolding set_vars
set_vars-saved id new_sz c = refl

update_offsets-saved : (file_id : ℕ) (c : Conn) → (update_offsets file_id c).saved ≡ c.saved
unfolding update_offsets
update_offsets-saved file_id c = refl

fetch-Keeps : (r : Option OffsetRow) (old : ℕ × ℕ) → Keeps (fetch_bounds old r)
fetch-Keeps none old = >>=-Keeps call _ call-Keeps (λ _. pure-Keeps _)
fetch-Keeps (some r) old = >>=-Keeps (calls 2) _ (calls-Keeps 2) (λ _. pure-Keeps _)

select_bounds-Keeps : (old : ℕ × ℕ) → Keeps (select_bounds old)
unfolding select_bounds
select_bounds-Keeps old =
    >>=-Keeps (calls 2) _ (calls-Keeps 2)
      (λ _ c. fetch-Keeps (find_offset c.oid c.db.offsets) old c)

resize_step-Keeps : (file_id : ℕ) (p : ItNode) (old : ℕ × ℕ) → Keeps (resize_step file_id p old)
unfolding resize_step
resize_step-Keeps file_id p old = >>=-Keeps _ _ (exec-Keeps _ (set_vars-saved p.id _)) λ _.
    >>=-Keeps _ _ (exec-Keeps _ select_into-saved) λ _.
      >>=-Keeps _ _ (select_bounds-Keeps old)
        λ found. >>=-Keeps _ _ (exec-Keeps _ (update_offsets-saved file_id)) λ _. pure-Keeps found

resize_loop-Keeps :
    (file_id : ℕ) (nodes : List ItNode) (delta : ℤ) (old : ℕ × ℕ)
    → Keeps (resize_loop file_id nodes delta old)
unfolding resize_loop
resize_loop-Keeps file_id [] delta old = pure-Keeps _
resize_loop-Keeps file_id (p ∷ ps) delta old =
    >>=-Keeps _ _ (resize_step-Keeps file_id p old)
      λ found. >>=-Keeps _ _ (resize_loop-Keeps file_id ps _ found) λ rest. pure-Keeps _

resize_body-FailKeeps :
    (write : List OffsetUpdate → Bool) (file_id : ℕ) (nodes : List ItNode)
    → FailKeeps (resize_body write file_id nodes)
unfolding resize_body
resize_body-FailKeeps write file_id nodes =
    >>=-FailKeeps _ _ (λ c. calls-Keeps _ c)
      λ _.
        >>=-FailKeeps _ _ (resize_loop-Keeps file_id nodes (pos 0) (0, 0))
          λ ou. >>=-FailKeeps _ _ (fail_check-Keeps (write ou)) λ _. commit-FailKeeps ou

resize_start-Opens : (alloc : Bool) → Opens (resize_start alloc)
unfolding resize_start
resize_start-Opens alloc =
    >>=-Opens _ _ (calls-Stays 14)
      λ _. >>=-Opens _ _ (fail_check-Stays alloc) λ _. started-Opens call call-Keeps

-- What query_resize_file owes: on a failure the tables of before, and one call of zk_unlock_intervals.
abbrev Owed : Db → Resized → Type 0
Owed d r = (r.ret_ok ≡ false → r.conn.db ≡ d) × (r.unlocks ≡ 1)

resize_end-Owed :
    (r : Option (List OffsetUpdate) × Conn) (d : Db)
    → (r.0 ≡ none → r.1.saved ≡ some d)
    → Owed d (resize_end 1 r)
resize_end-Owed (none, c) d k = (λ h. rollback-saved d c (k refl), refl)
resize_end-Owed (some ou, c) d k = (λ h. cc, refl)

resize_go-Owed :
    (write : List OffsetUpdate → Bool) (file_id : ℕ) (nodes : List ItNode)
    (r : Option (Unit {0}) × Conn) (d : Db)
    → Opened d r
    → Owed d (resize_go write file_id nodes r)
resize_go-Owed write file_id nodes (none, c) d h = (λ _. h, refl)
resize_go-Owed write file_id nodes (some _, c) d h =
    resize_end-Owed (resize_body write file_id nodes c) d
      λ e. resize_body-FailKeeps write file_id nodes c e ∙ h

-- However the server answers, whether or not memory is there and whatever write_offset_update returns:
-- on a connection with no open transaction, a query_resize_file that does not return 0 leaves the tables
-- as they were, and on every path it unlocks the intervals exactly once.
pub query_resize_file_atomic :
    (alloc : Bool) (write : List OffsetUpdate → Bool) (file_id : ℕ) (nodes : List ItNode) (c : Conn)
    → c.saved ≡ none
    → ((query_resize_file alloc write file_id nodes c).ret_ok ≡ false
        → (query_resize_file alloc write file_id nodes c).conn.db ≡ c.db)
      × ((query_resize_file alloc write file_id nodes c).unlocks ≡ 1)
unfolding query_resize_file
query_resize_file_atomic alloc write file_id nodes c h =
    resize_go-Owed write file_id nodes (resize_start alloc c) c.db
      (resize_start-Opens alloc c.db c (refl, rw h))
