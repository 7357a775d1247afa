-- ===== src/Sql/Stored/Entries.antt =====
-- The junctions of a range, one file after the other.
use b_project.Base.{
  ℕ, ◌≡◌, refl, ap, sym, ◌∙◌, true, false, some, List, [], ◌∷◌, ◌++◌, map, All, ◌==◌, append_assoc,
  append-nil, map-append, arith,
}
use b_project.Base.Text.{Text}
use b_project.IntervalTree.{ItNode}
use b_project.Sql.{RangeRow, FileRow, Db}
use b_project.Sql.Intervals.{find_file}
use b_project.Sql.Insert.Steps.{says, said, joined}
use b_project.Sql.Select.{join_files, join_junctions}
use b_project.Sql.Stored.{
  Entry, tells, told, all_told, pick, all_saids, tells-join_offsets, pick-append, pick-own,
  pick-other,
}
use b_project.Sql.Stored.Joins.{DistinctIds, join_files-one}

-- No entry has the id; no two entries have the same.
abbrev pub Away : ℕ → List Entry → Type 0
Away id es = All (λ e. (e.1 == id) ≡ false) es

abbrev pub Pairwise : List Entry → Type 0
Pairwise [] = Unit
Pairwise (e ∷ es) = Away e.1 es × Pairwise es

pick-Away :
    (range_id : ℕ) (f : FileRow) (es : List Entry)
    → Away f.file_id es
    → pick range_id f (all_saids range_id es) ≡ []
pick-Away range_id f [] h = refl
pick-Away range_id f ((file, id) ∷ es) (n, h) =
    pick-append range_id f (map (said range_id id) file.1) (all_saids range_id es)
    ∙ rw (pick-other range_id id f file.1 n) (pick-Away range_id f es h)

all_saids-append :
    (range_id : ℕ) (xs ys : List Entry)
    → all_saids range_id (xs ++ ys) ≡ all_saids range_id xs ++ all_saids range_id ys
all_saids-append range_id [] ys = refl
all_saids-append range_id ((f, id) ∷ xs) ys =
    ap (λ l. map (said range_id id) f.1 ++ l) (all_saids-append range_id xs ys)
    ∙ sym (append_assoc (map (said range_id id) f.1) _ _)

-- Among the rows of all entries, those of one.
pick-entry :
    (range_id : ℕ) (front behind : List Entry) (path : Text) (ps : List ItNode) (id : ℕ)
    → Away id front
    → Away id behind
    → pick range_id
        (record { file_id = id; path = path })
        (all_saids range_id (front ++ ((path, ps), id) ∷ behind))
      ≡ told ((path, ps), id)
pick-entry range_id front behind path ps id a b =
    let f : FileRow = record { file_id = id; path = path } in
    ap (pick range_id f) (all_saids-append range_id front (((path, ps), id) ∷ behind))
    ∙ pick-append range_id f (all_saids range_id front) _
    ∙ rw (pick-Away range_id f front a) (
        pick-append range_id f (map (said range_id id) ps) (all_saids range_id behind)
        ∙ rw (pick-Away range_id f behind b, pick-own range_id path id ps) (append-nil _))

abbrev pub Found : List FileRow → List Entry → Type 0
Found rows es = All (λ e. find_file e.0.0 rows ≡ some e.1) es

abbrev AllAway : List Entry → List Entry → Type 0
AllAway front es = All (λ e. Away e.1 front) es

Away-append :
    (id : ℕ) (xs : List Entry) (e : Entry)
    → Away id xs
    → (e.1 == id) ≡ false
    → Away id (xs ++ e ∷ [])
Away-append id [] e h n = (n, tt)
Away-append id (x ∷ xs) e (a, h) n = (a, Away-append id xs e h n)

AllAway-append :
    (front : List Entry) (e : Entry) (es : List Entry)
    → AllAway front es
    → Away e.1 es
    → AllAway (front ++ e ∷ []) es
AllAway-append front e [] h k = tt
AllAway-append front e (x ∷ es) (a, h) (n, k) =
    (Away-append x.1 front e a (ground arith), AllAway-append front e es h k)

AllAway-nil : (es : List Entry) → AllAway [] es
AllAway-nil [] = tt
AllAway-nil (e ∷ es) = (tt, AllAway-nil es)

module _ (d : Db) (r : RangeRow) (ds : DistinctIds d.files) where
  tells-entries :
      (front es : List Entry)
      → ((f : FileRow)
          → pick r.range_id f (map says d.offsets)
            ≡ pick r.range_id f (all_saids r.range_id (front ++ es)))
      → Found d.files es
      → AllAway front es
      → Pairwise es
      → map tells (join_junctions d r (map (λ e. joined r.range_id e.1) es)) ≡ all_told es
  unfolding join_junctions
  tells-entries front [] offsets found apart pairs = refl
  tells-entries front (((path, ps), id) ∷ es) offsets (e, found) (a, apart) (b, pairs) =
      let j = joined r.range_id id in
      let f : FileRow = record { file_id = id; path = path } in
      let y : (r.range_id == r.range_id) ≡ true = ground arith in
      let first : map tells (join_files d r j d.files) ≡ told ((path, ps), id) =
        ap (map tells) (join_files-one d r j path d.files ds e)
        ∙ tells-join_offsets r f d.offsets
        ∙ offsets f
        ∙ pick-entry r.range_id front es path ps id a b in
      let later =
        tells-entries (front ++ ((path, ps), id) ∷ []) es
          (λ g.
            offsets g
            ∙ ap (λ l. pick r.range_id g (all_saids r.range_id l)) (sym (append_assoc front _ es)))
          found (AllAway-append front ((path, ps), id) es apart b) pairs in
      rw y (map-append tells (join_files d r j d.files) _ ∙ rw (first, later) refl)

  pub tells-join_junctions :
      (es : List Entry)
      → ((f : FileRow)
          → pick r.range_id f (map says d.offsets) ≡ pick r.range_id f (all_saids r.range_id es))
      → Found d.files es
      → Pairwise es
      → map tells (join_junctions d r (map (λ e. joined r.range_id e.1) es)) ≡ all_told es
  tells-join_junctions es offsets found pairs =
      tells-entries [] es offsets found (AllAway-nil es) pairs
