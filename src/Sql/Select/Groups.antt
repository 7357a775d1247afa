-- ===== src/Sql/Select/Groups.antt =====
-- The loop of query_select_named_range: one file after the other.
use b_project.Base.{
  ℕ, ◌≡◌, refl, ◌∙◌, Bool, true, false, Option, none, some, List, [], ◌∷◌, ◌++◌, map, get_elem?,
  if◌then◌else◌, All, Bool-cases, inl, inr,
}
use b_project.Base.Text.{Text, str_eq, str_eq_refl}
use b_project.AList.{slots}
use b_project.Range.{RangeFile, Range, range_add_file, AddIt, added, wild_link, fault}
use b_project.Sql.{FileRow, OffsetRow, Conn}
use b_project.Sql.Answered.{call-ok}
use b_project.Sql.Select.{
  SelectRow, select_row, Scan, Row, next, stop, wild, Scanned, scanned, failed, wild_read,
  after_row, asked, added_at, add_to, add_interval, in_new_file, scan_row, scan_rows,
}

-- A file and its intervals in the result.
pub record Group : Type 0 where
  pub file : FileRow
  pub first : OffsetRow
  pub others : List OffsetRow

abbrev rows_of_group : Group → List SelectRow
rows_of_group g = select_row g.file g.first ∷ map (select_row g.file) g.others

abbrev pub rows_of_groups : List Group → List SelectRow
rows_of_groups [] = []
rows_of_groups (g ∷ gs) = rows_of_group g ++ rows_of_groups gs

-- The paths are not the text, and differ from each other.
abbrev pub Apart : Text → List Group → Type 0
Apart path gs = All (λ g. str_eq path g.file.path ≡ false) gs

abbrev AllApart : List Group → Type 0
AllApart [] = Unit
AllApart (g ∷ gs) = Apart g.file.path gs × AllApart gs

module _ (dup alloc : Bool) (junk : RangeFile) where
  -- The intervals of one file.
  abbrev add_all : FileRow → List OffsetRow → Row → Row
  add_all f [] r = r
  add_all f (o ∷ os) (next s) = add_all f os (add_interval dup alloc junk s (select_row f o) s.rf)
  add_all f (o ∷ os) (stop r) = stop r
  add_all f (o ∷ os) wild = wild

  -- The same by files: a file that is asked for is added, and its intervals; another is left out.
  abbrev pub add_groups : List Text → List Group → Row → Row
  add_groups wanted [] r = r
  add_groups wanted (g ∷ gs) (next s) =
      if asked wanted g.file.path
      then add_groups wanted gs (
          add_all g.file g.others (
            in_new_file dup alloc junk (select_row g.file g.first)
              (range_add_file dup alloc junk s.range g.file.path g.file.file_id)))
      else add_groups wanted gs (next s)
  add_groups wanted (g ∷ gs) (stop r) = stop r
  add_groups wanted (g ∷ gs) wild = wild

  abbrev pub ending : Conn → Row → Scanned
  ending c (next s) = scanned s.range c
  ending c (stop r) = failed r c
  ending c wild = wild_read

  -- The rest of the loop behind a row.
  go_on : List Text → List SelectRow → Conn → Row → Scanned
  go_on wanted rows c r = after_row (scan_rows dup alloc junk wanted rows) c r

  scan_step :
      (wanted : List Text) (row : SelectRow) (rows : List SelectRow) (s : Scan) (c : Conn)
      → c.replies ≡ []
      → scan_rows dup alloc junk wanted (row ∷ rows) s c
        ≡ go_on wanted rows c (scan_row dup alloc junk wanted s row)
  unfolding scan_rows go_on
  scan_step wanted row rows s c e = rw (call-ok c e) refl

  scan_end :
      (wanted : List Text) (s : Scan) (c : Conn)
      → c.replies ≡ []
      → scan_rows dup alloc junk wanted [] s c ≡ scanned s.range c
  unfolding scan_rows
  scan_end wanted s c e = rw (call-ok c e) refl

  -- A file that is not asked for.
  skipped :
      (wanted : List Text) (f : FileRow) (os : List OffsetRow) (rest : List SelectRow) (s : Scan)
      (c : Conn)
      → c.replies ≡ []
      → str_eq s.old_buf f.path ≡ false
      → asked wanted f.path ≡ false
      → scan_rows dup alloc junk wanted (map (select_row f) os ++ rest) s c
        ≡ scan_rows dup alloc junk wanted rest s c
  unfolding scan_row go_on
  skipped wanted f [] rest s c e n a = refl
  skipped wanted f (o ∷ os) rest s c e n a =
      scan_step wanted (select_row f o) (map (select_row f) os ++ rest) s c e
      ∙ rw (n, a) (skipped wanted f os rest s c e n a)

  -- The loop stands in the file of this path, or has ended.
  InFile : Text → Row → Type 0
  InFile path (next s) = s.old_buf ≡ path
  InFile path (stop r) = Unit
  InFile path wild = Unit

  added_at-InFile :
      (path : Text) (s : Scan) (i : ℕ) (a : AddIt) → s.old_buf ≡ path → InFile path (added_at s i a)
  unfolding InFile
  added_at-InFile path s i (added f ok) h = h
  added_at-InFile path s i wild_link h = tt
  added_at-InFile path s i fault h = tt

  add_to-InFile :
      (path : Text) (s : Scan) (row : SelectRow) (i : ℕ) (f : Option RangeFile)
      → s.old_buf ≡ path
      → InFile path (add_to dup alloc junk s row i f)
  unfolding InFile
  add_to-InFile path s row i none h = tt
  add_to-InFile path s row i (some f) h = added_at-InFile path s i _ h

  add_interval-InFile :
      (path : Text) (s : Scan) (row : SelectRow) (i : Option ℕ)
      → s.old_buf ≡ path
      → InFile path (add_interval dup alloc junk s row i)
  unfolding InFile
  add_interval-InFile path s row none h = tt
  add_interval-InFile path s row (some i) h =
      add_to-InFile path s row i (get_elem? (slots s.range.ls) i) h

  add_all-InFile :
      (f : FileRow) (os : List OffsetRow) (r : Row)
      → InFile f.path r
      → InFile f.path (add_all f os r)
  unfolding InFile
  add_all-InFile f [] r h = h
  add_all-InFile f (o ∷ os) (next s) h =
      add_all-InFile f os _ (add_interval-InFile f.path s (select_row f o) s.rf h)
  add_all-InFile f (o ∷ os) (stop r) h = tt
  add_all-InFile f (o ∷ os) wild h = tt

  in_new_file-InFile :
      (f : FileRow) (o : OffsetRow) (r : Range × Option ℕ)
      → InFile f.path (in_new_file dup alloc junk (select_row f o) r)
  unfolding InFile
  in_new_file-InFile f o (r, none) = tt
  in_new_file-InFile f o (r, some i) =
      add_interval-InFile f.path (record { range = r; old_buf = f.path; rf = some i })
        (select_row f o) (some i) refl

  -- The rows of the file that the loop stands in.
  filled :
      (wanted : List Text) (f : FileRow) (os : List OffsetRow) (rest : List SelectRow) (r : Row)
      (c : Conn)
      → c.replies ≡ []
      → InFile f.path r
      → go_on wanted (map (select_row f) os ++ rest) c r ≡ go_on wanted rest c (add_all f os r)
  unfolding InFile go_on scan_row
  filled wanted f [] rest r c e h = refl
  filled wanted f (o ∷ os) rest (next s) c e h =
      let same : str_eq s.old_buf f.path ≡ true = rw h (str_eq_refl f.path) in
      scan_step wanted (select_row f o) (map (select_row f) os ++ rest) s c e
      ∙ rw same (
          filled wanted f os rest (add_interval dup alloc junk s (select_row f o) s.rf) c e
            (add_interval-InFile f.path s (select_row f o) s.rf h))
  filled wanted f (o ∷ os) rest (stop r) c e h = refl
  filled wanted f (o ∷ os) rest wild c e h = refl

  Ahead : Row → List Group → Type 0
  Ahead (next s) gs = Apart s.old_buf gs
  Ahead (stop r) gs = Unit
  Ahead wild gs = Unit

  InFile-Ahead :
      (path : Text) (r : Row) (gs : List Group) → InFile path r → Apart path gs → Ahead r gs
  unfolding InFile Ahead
  InFile-Ahead path (next s) gs h a = rw h a
  InFile-Ahead path (stop r) gs h a = tt
  InFile-Ahead path wild gs h a = tt

  go_on-groups :
      (wanted : List Text) (gs : List Group) (r : Row) (c : Conn)
      → c.replies ≡ []
      → AllApart gs
      → Ahead r gs
      → go_on wanted (rows_of_groups gs) c r ≡ ending c (add_groups wanted gs r)
  unfolding Ahead go_on scan_row
  go_on-groups wanted [] (next s) c e ap' h = scan_end wanted s c e
  go_on-groups wanted [] (stop r) c e ap' h = refl
  go_on-groups wanted [] wild c e ap' h = refl
  go_on-groups wanted (g ∷ gs) (stop r) c e ap' h = refl
  go_on-groups wanted (g ∷ gs) wild c e ap' h = refl
  go_on-groups wanted (g ∷ gs) (next s) c e (a, ap') (n, h) =
      elim (Bool-cases (asked wanted g.file.path)) [
        | inl wants ↦
            let r0 =
              in_new_file dup alloc junk (select_row g.file g.first)
                (range_add_file dup alloc junk s.range g.file.path g.file.file_id) in
            let at =
              in_new_file-InFile g.file g.first
                (range_add_file dup alloc junk s.range g.file.path g.file.file_id) in
            let r1 = add_all g.file g.others r0 in
            scan_step wanted (select_row g.file g.first)
              (map (select_row g.file) g.others ++ rows_of_groups gs) s c e
            ∙ rw (n, wants)
                (filled wanted g.file g.others (rows_of_groups gs) r0 c e at
                  ∙ go_on-groups wanted gs r1 c e ap'
                      (InFile-Ahead g.file.path r1 gs (add_all-InFile g.file g.others r0 at) a))
        | inr leaves ↦
            skipped wanted g.file (g.first ∷ g.others) (rows_of_groups gs) s c e n leaves
            ∙ rw leaves (go_on-groups wanted gs (next s) c e ap' h)
      ]

  -- On a server that answers every fetch, for rows that stand file by file with different paths, none of
  -- them the path before: the loop does for one file after the other what the plain reading says, and a
  -- file that is not asked for is left out with all its intervals.
  pub scan_rows-add_groups :
      (wanted : List Text) (gs : List Group) (s : Scan) (c : Conn)
      → c.replies ≡ []
      → AllApart gs
      → Apart s.old_buf gs
      → scan_rows dup alloc junk wanted (rows_of_groups gs) s c
        ≡ ending c (add_groups wanted gs (next s))
  unfolding go_on Ahead
  scan_rows-add_groups wanted gs s c e a h = go_on-groups wanted gs (next s) c e a h
