-- ===== src/Sql/Insert/Steps.antt =====
-- The loops of query_insert_named_range on a server that answers: the rows that they append.
use b_project.Base.{
  ℕ, ◌+◌, ◌≤◌, ◌≡◌, refl, ap, ◌∙◌, Bool, true, false, Option, none, some, List, [], ◌∷◌, ◌++◌, map,
  append_assoc, append-nil, map-append, sym, any, ◌==◌, Option-cases, inl, inr, arith,
}
use b_project.Base.Text.{Text, str_eq_refl}
use b_project.IntervalTree.{ItNode}
use b_project.Sql.{FileRow, JunctionRow, OffsetRow, Conn, pure, ◌>>=◌}
use b_project.Sql.Answered.{calls-ok}
use b_project.Sql.Intervals.{find_file}
use b_project.Sql.Insert.{
  Insertion, noted, try_insert, insert_file, insert_junction, insert_offset, insert_offsets,
  find_or_insert, insert_one, insert_files,
}

-- What a row of Offset says: range, file, base, bound, conflict.
abbrev pub says : OffsetRow → ℕ × ℕ × ℕ × ℕ × Bool
says r = (r.range_id, r.file_id, r.base, r.bound, r.conflict)

abbrev pub said : ℕ → ℕ → ItNode → ℕ × ℕ × ℕ × ℕ × Bool
said range_id file_id p = (range_id, file_id, p.base, p.bound, false)

abbrev with_offsets : List OffsetRow → ℕ → Conn → Conn
with_offsets rows n c = record c { db = record (c.db) { offsets = rows; next_id = n } }

pub try_insert-ok : (f : Insertion) (c : Conn) → c.replies ≡ [] → try_insert f c ≡ noted (f c)
unfolding try_insert
try_insert-ok f c e = rw e refl

insert_offsets-says :
    (range_id file_id : ℕ) (ps : List ItNode) (c : Conn)
    → c.replies ≡ []
    → (rows : List OffsetRow) × (n : ℕ) × (insert_offsets range_id file_id ps c
        ≡ (some tt, with_offsets rows n c))
      × (c.db.next_id ≤ n)
      × (map says rows ≡ map says c.db.offsets ++ map (said range_id file_id) ps)
unfolding insert_offsets ◌>>=◌ pure insert_offset
insert_offsets-says range_id file_id [] c e =
    (c.db.offsets, c.db.next_id, refl, omega arith, sym (append-nil _))
insert_offsets-says range_id file_id (p ∷ ps) c e =
    let (rows, n, run, le, says') =
      insert_offsets-says range_id file_id ps (insert_offset range_id file_id p c).1 e in
    let step : map says rows ≡ map says c.db.offsets ++ map (said range_id file_id) (p ∷ ps) =
      says'
      ∙ ap (λ l. l ++ map (said range_id file_id) ps) (map-append says c.db.offsets _)
      ∙ append_assoc (map says c.db.offsets) _ _ in
    (
      rows,
      n,
      rw (try_insert-ok (insert_offset range_id file_id p) c e, run) refl,
      omega arith,
      step,
    )

find_file-append :
    (path : Text) (xs ys : List FileRow) (id : ℕ)
    → find_file path xs ≡ some id
    → find_file path (xs ++ ys) ≡ some id
unfolding find_file
find_file-append path [] ys id e = absurd (cc)
find_file-append path (x ∷ xs) ys id e = ground (arith, find_file-append path xs ys id)

find_file-new :
    (path : Text) (id : ℕ) (xs : List FileRow)
    → find_file path xs ≡ none
    → find_file path (xs ++ record { file_id = id; path = path } ∷ []) ≡ some id
unfolding find_file
find_file-new path id [] e = rw (str_eq_refl path) refl
find_file-new path id (x ∷ xs) e = ground (arith, find_file-new path id xs)

file_there :
    (path : Text) (id : ℕ) (xs : List FileRow)
    → find_file path xs ≡ some id
    → any (λ (f : FileRow). f.file_id == id) xs ≡ true
unfolding find_file
file_there path id [] e = absurd (cc)
file_there path id (x ∷ xs) e = ground (arith, file_there path id xs)

abbrev with_files : List FileRow → ℕ → Conn → Conn
with_files rows n c = record c { db = record (c.db) { files = rows; next_id = n } }

-- The ids go up, from lo on and below hi.
abbrev pub Fresh : ℕ → ℕ → List FileRow → Type 0
Fresh lo hi [] = lo ≤ hi
Fresh lo hi (r ∷ rows) = (lo ≤ r.file_id) × Fresh (r.file_id + 1) hi rows

-- Rows with such ids are appended.
abbrev pub Extends : ℕ → ℕ → List FileRow → List FileRow → Type 0
Extends lo hi xs ys = (more : List FileRow) × (ys ≡ xs ++ more) × Fresh lo hi more

Fresh-le : (lo hi k : ℕ) (rows : List FileRow) → hi ≤ k → Fresh lo hi rows → Fresh lo k rows
Fresh-le lo hi k [] h f = omega arith
Fresh-le lo hi k (r ∷ rows) h (a, f) = (a, Fresh-le (r.file_id + 1) hi k rows h f)

Fresh-below : (k lo hi : ℕ) (rows : List FileRow) → k ≤ lo → Fresh lo hi rows → Fresh k hi rows
Fresh-below k lo hi [] h f = omega arith
Fresh-below k lo hi (r ∷ rows) h (a, f) = (omega arith, f)

Fresh-append :
    (lo mid hi : ℕ) (xs ys : List FileRow)
    → Fresh lo mid xs
    → Fresh mid hi ys
    → Fresh lo hi (xs ++ ys)
Fresh-append lo mid hi [] ys f g = Fresh-below lo mid hi ys f g
Fresh-append lo mid hi (x ∷ xs) ys (a, f) g = (a, Fresh-append (x.file_id + 1) mid hi xs ys f g)

find_or_insert-ok :
    (old : ℕ) (path : Text) (c : Conn)
    → c.replies ≡ []
    → (id : ℕ) × (rows : List FileRow) × (n : ℕ) × (find_or_insert old path c
        ≡ (some id, with_files rows n c))
      × Extends c.db.next_id n c.db.files rows
      × (find_file path rows ≡ some id)
unfolding find_or_insert ◌>>=◌ pure insert_file
find_or_insert-ok old path c e = elim (Option-cases (find_file path c.db.files)) [
  | inl new ↦ (
    c.db.next_id,
    c.db.files ++ record { file_id = c.db.next_id; path = path } ∷ [],
    c.db.next_id + 1,
    rw (try_insert-ok (insert_file path) c e, new) refl,
    (_, refl, (omega arith, omega arith)),
    find_file-new path c.db.next_id c.db.files new,
  )
  | inr (id, there) ↦ (
    id,
    c.db.files,
    c.db.next_id,
    rw (try_insert-ok (insert_file path) c e, there, calls-ok 2 c e, there, calls-ok 2 c e) refl,
    ([], sym (append-nil _), omega arith),
    there,
  )
]

abbrev pub with_rows : List FileRow → List JunctionRow → List OffsetRow → ℕ → Conn → Conn
with_rows files junctions offsets n c = record c {
  db = record (c.db) { files = files; junctions = junctions; offsets = offsets; next_id = n };
}

abbrev pub joined : ℕ → ℕ → JunctionRow
joined range_id file_id = record { range_id = range_id; file_id = file_id }

insert_one-rows :
    (range_id old : ℕ) (file : Text × List ItNode) (c : Conn)
    → c.replies ≡ []
    → (id : ℕ) × (files : List FileRow) × (offsets : List OffsetRow) × (n : ℕ) × (insert_one
          range_id old file c
        ≡ (some id, with_rows files (c.db.junctions ++ joined range_id id ∷ []) offsets n c))
      × Extends c.db.next_id n c.db.files files
      × (find_file file.0 files ≡ some id)
      × (map says offsets ≡ map says c.db.offsets ++ map (said range_id id) file.1)
unfolding insert_one ◌>>=◌ pure insert_junction
insert_one-rows range_id old file c e =
    let (id, files, n, run, (more, same, fresh), there) = find_or_insert-ok old file.0 c e in
    let d = with_files files n c in
    let seen = file_there file.0 id files there in
    let f = with_rows files (c.db.junctions ++ joined range_id id ∷ []) c.db.offsets (n + 1) c in
    let (offsets, k, run', le, says') = insert_offsets-says range_id id file.1 f e in
    (
      id,
      files,
      offsets,
      k,
      rw (run, try_insert-ok (insert_junction range_id id) d e, seen, run') refl,
      (more, same, Fresh-le c.db.next_id n k more (omega arith) fresh),
      there,
      says',
    )

-- What the new rows of Offset say: for each file, in order, its intervals.
abbrev pub all_said : ℕ → List (Text × List ItNode) → List ℕ → List (ℕ × ℕ × ℕ × ℕ × Bool)
all_said range_id [] ids = []
all_said range_id (file ∷ files) [] = []
all_said range_id (file ∷ files) (id ∷ ids) =
    map (said range_id id) file.1 ++ all_said range_id files ids

-- The id that the table has for each file.
abbrev pub ids_of : List FileRow → List (Text × List ItNode) → List (Option ℕ)
ids_of rows files = map (λ file. find_file file.0 rows) files

Extends-trans :
    (lo mid hi : ℕ) (xs ys zs : List FileRow)
    → Extends lo mid xs ys
    → Extends mid hi ys zs
    → Extends lo hi xs zs
Extends-trans lo mid hi xs ys zs (a, e, f) (b, g, h) =
    (a ++ b, g ∙ ap (λ l. l ++ b) e ∙ append_assoc xs a b, Fresh-append lo mid hi a b f h)

still_there :
    (path : Text) (id lo hi : ℕ) (xs ys : List FileRow)
    → Extends lo hi xs ys
    → find_file path xs ≡ some id
    → find_file path ys ≡ some id
still_there path id lo hi xs ys (more, e, fresh) f = rw e (find_file-append path xs more id f)

pub insert_files-rows :
    (range_id old : ℕ) (files : List (Text × List ItNode)) (c : Conn)
    → c.replies ≡ []
    → (ids : List ℕ) × (rows : List FileRow) × (junctions : List JunctionRow) × (offsets : List
        OffsetRow)
      × (n : ℕ) × (insert_files range_id old files c
          ≡ (some ids, with_rows rows junctions offsets n c))
      × Extends c.db.next_id n c.db.files rows
      × (ids_of rows files ≡ map some ids)
      × (junctions ≡ c.db.junctions ++ map (joined range_id) ids)
      × (map says offsets ≡ map says c.db.offsets ++ all_said range_id files ids)
unfolding insert_files ◌>>=◌ pure
insert_files-rows range_id old [] c e = (
  [],
  c.db.files,
  c.db.junctions,
  c.db.offsets,
  c.db.next_id,
  refl,
  ([], sym (append-nil _), omega arith),
  refl,
  sym (append-nil _),
  sym (append-nil _),
)
insert_files-rows range_id old (file ∷ files) c e =
    let (id, rows1, offsets1, n1, run1, more1, there, says1) =
      insert_one-rows range_id old file c e in
    let d = with_rows rows1 (c.db.junctions ++ joined range_id id ∷ []) offsets1 n1 c in
    let (ids, rows, junctions, offsets, n, run, more, known, joins, says') =
      insert_files-rows range_id id files d e in
    (
      id ∷ ids,
      rows,
      junctions,
      offsets,
      n,
      rw (run1, run) refl,
      Extends-trans c.db.next_id n1 n _ _ _ more1 more,
      rw (still_there file.0 id n1 n _ _ more there, known) refl,
      joins ∙ append_assoc c.db.junctions _ _,
      says'
          ∙ ap (λ l. l ++ all_said range_id files ids) says1
          ∙ append_assoc (map says c.db.offsets) _ _,
    )
