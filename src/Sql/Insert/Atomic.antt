-- ===== src/Sql/Insert/Atomic.antt =====
-- query_insert_named_range changes the tables wholly or not at all, whatever the server refuses.
use b_project.Base.{ℕ, ◌≡◌, refl, Bool, true, false, Option, none, some, List, [], ◌∷◌, arith}
use b_project.Base.Text.{Text}
use b_project.IntervalTree.{ItNode}
use b_project.Sql.{Conn, Db, pure, ◌>>◌, fail, answer, call, calls, txn_rollback}
use b_project.Sql.Keeps.{
  Keeps, >>=-Keeps, >>=-FailKeeps, exec-Keeps, call-Keeps, calls-Keeps, pure-Keeps,
  commit-FailKeeps,
}
use b_project.Sql.Untouched.{Undone, >>=-Undone, started-Undone, calls-Stays}
use b_project.Sql.Intervals.{find_file}
use b_project.Sql.Insert.{
  Insertion, attempted, noted, try_insert, required, insert_range, insert_file, add_file_unless,
  insert_junction, insert_offset, set_init, insert_offsets, fetch_id, known_id, find_or_insert,
  insert_one, insert_files, insert_body, insert_end, query_insert_named_range,
}

Saves : Insertion → Type 0
Saves f = (c : Conn) → (f c).1.saved ≡ c.saved

attempted-saved :
    (f : Insertion) (replies : List Bool) (c : Conn)
    → Saves f
    → (noted (attempted f (answer replies c))).1.saved ≡ c.saved
unfolding Saves
attempted-saved f [] c k = k c
attempted-saved f (true ∷ rs) c k = k (record c { replies = rs })
attempted-saved f (false ∷ rs) c k = refl

try_insert-Keeps : (f : Insertion) → Saves f → Keeps (try_insert f)
unfolding try_insert
try_insert-Keeps f k c = attempted-saved f c.replies c k

insert_range-Saves : (name : Text) → Saves (insert_range name)
unfolding Saves insert_range
insert_range-Saves name c = ground arith

unless-saved :
    (path : Text) (c : Conn) (o : Option ℕ) → (add_file_unless path c o).1.saved ≡ c.saved
unless-saved path c none = refl
unless-saved path c (some old) = refl

insert_file-Saves : (path : Text) → Saves (insert_file path)
unfolding Saves insert_file
insert_file-Saves path c = unless-saved path c (find_file path c.db.files)

insert_junction-Saves : (range_id file_id : ℕ) → Saves (insert_junction range_id file_id)
unfolding Saves insert_junction
insert_junction-Saves range_id file_id c = ground arith

insert_offset-Saves : (range_id file_id : ℕ) (p : ItNode) → Saves (insert_offset range_id file_id p)
unfolding Saves insert_offset
insert_offset-Saves range_id file_id p c = refl

required-Keeps : (id : Option ℕ) → Keeps (required id)
unfolding fail pure
required-Keeps none c = refl
required-Keeps (some id) c = refl

fetch_id-Keeps : (old : ℕ) (id : Option ℕ) → Keeps (fetch_id old id)
fetch_id-Keeps old none = >>=-Keeps call _ call-Keeps (λ _. pure-Keeps _)
fetch_id-Keeps old (some id) = >>=-Keeps (calls 2) _ (calls-Keeps 2) (λ _. pure-Keeps _)

known_id-Keeps : (old : ℕ) (path : Text) (new : Option ℕ) → Keeps (known_id old path new)
known_id-Keeps old path (some id) = pure-Keeps id
known_id-Keeps old path none =
    >>=-Keeps (calls 2) _ (calls-Keeps 2) (λ _ c. fetch_id-Keeps old (find_file path c.db.files) c)

insert_offsets-Keeps :
    (range_id file_id : ℕ) (ps : List ItNode) → Keeps (insert_offsets range_id file_id ps)
unfolding insert_offsets
insert_offsets-Keeps range_id file_id [] = pure-Keeps tt
insert_offsets-Keeps range_id file_id (p ∷ ps) =
    >>=-Keeps _ _ (try_insert-Keeps _ (insert_offset-Saves range_id file_id p))
      λ _. insert_offsets-Keeps range_id file_id ps

find_or_insert-Keeps : (old : ℕ) (path : Text) → Keeps (find_or_insert old path)
unfolding find_or_insert
find_or_insert-Keeps old path =
    >>=-Keeps _ _ (try_insert-Keeps _ (insert_file-Saves path)) λ new. known_id-Keeps old path new

insert_one-Keeps :
    (range_id old : ℕ) (file : Text × List ItNode) → Keeps (insert_one range_id old file)
unfolding insert_one
insert_one-Keeps range_id old file = >>=-Keeps _ _ (find_or_insert-Keeps old file.0) λ id.
    >>=-Keeps _ _ (try_insert-Keeps _ (insert_junction-Saves range_id id)) λ junction.
      >>=-Keeps _ _ (required-Keeps junction)
        λ _. >>=-Keeps _ _ (insert_offsets-Keeps range_id id file.1) λ _. pure-Keeps id

insert_files-Keeps :
    (range_id old : ℕ) (files : List (Text × List ItNode)) → Keeps (insert_files range_id old files)
unfolding insert_files
insert_files-Keeps range_id old [] = pure-Keeps []
insert_files-Keeps range_id old (file ∷ files) =
    >>=-Keeps _ _ (insert_one-Keeps range_id old file)
      λ id. >>=-Keeps _ _ (insert_files-Keeps range_id id files) λ ids. pure-Keeps _

set_init-saved : (range_id : ℕ) (c : Conn) → (set_init range_id c).saved ≡ c.saved
unfolding set_init
set_init-saved range_id c = refl

insert_body-Undone :
    (old : ℕ) (name : Text) (files : List (Text × List ItNode))
    → Undone (insert_body old name files)
unfolding insert_body
insert_body-Undone old name files = started-Undone _ (
    >>=-FailKeeps _ _ (try_insert-Keeps _ (insert_range-Saves name)) λ new.
      >>=-FailKeeps _ _ (required-Keeps new) λ range_id.
        >>=-FailKeeps _ _ (insert_files-Keeps range_id old files) λ ids.
          >>=-FailKeeps _ _ (exec-Keeps _ (set_init-saved range_id)) λ _. commit-FailKeeps ids)

insert_end-db :
    (r : Option (List ℕ) × Conn) (d : Db)
    → (r.0 ≡ none → (txn_rollback r.1).db ≡ d)
    → (insert_end r).ids ≡ none
    → (insert_end r).conn.db ≡ d
insert_end-db (none, c) d k h = k refl
insert_end-db (some ids, c) d k h = absurd (cc)

-- However the server answers, a query_insert_named_range that does not return 0, on a connection with no
-- open transaction, leaves the tables as they were.
pub query_insert_named_range_atomic :
    (old : ℕ) (name : Text) (files : List (Text × List ItNode)) (c : Conn)
    → c.saved ≡ none
    → (query_insert_named_range old name files c).ids ≡ none
    → (query_insert_named_range old name files c).conn.db ≡ c.db
unfolding query_insert_named_range
query_insert_named_range_atomic old name files c h =
    insert_end-db ((calls 19 >> insert_body old name files) c) c.db (
      >>=-Undone (calls 19) _ (calls-Stays 19) (λ _. insert_body-Undone old name files) c.db c
        (refl, rw h))
