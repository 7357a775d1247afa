-- ===== src/Zk/Interval/Exclusion.antt =====
-- The interval locks: a conflicting lock that came earlier keeps a client out.
use b_project.Base.{
  ℕ, ◌≡◌, ◌≤◌, refl, ap, ◌∙◌, Bool, true, false, ◌&&◌, some, List, [], ◌∷◌, ◌++◌, map, any, All,
  ◌==◌, ltb, Bool-cases, inl, inr, arith,
}
use b_project.Base.Text.{Text, codes}
use b_project.Base.Qsort.{with_key}
use b_project.IntervalTree.{ItNode, it_conflict}
use b_project.Sql.{Conn, OffsetRow}
use b_project.Sql.Resize.{find_offset}
use b_project.Sql.Intervals.{id_none, find_file, node_of, rows_of}
use b_project.Sql.Intervals.Conflicts.{conflicting}
use b_project.Zk.{Zookeeper, zok}
use b_project.Zk.Names.{get_sequence_number}
use b_project.Zk.Master.{or_empty}
use b_project.Zk.Interval.{scan_lock, Memory, ask_for, determine_interval}
use b_project.Zk.Interval.Runs.{SmallId, locks_in_order}
use b_project.Zk.Interval.First.{Among, none_before, holds_own}
use b_project.Zk.Interval.Database.{select_from, determine_interval-conflicting}

-- A row with this id that conflicts with the interval.
abbrev rival : ItNode → ℕ → List OffsetRow → Bool
rival own other rows =
    any (λ (r : OffsetRow). r.offset_id == other && it_conflict own (node_of r)) rows

-- A lock with this id and a smaller sequence number.
abbrev came_first : ℕ → ℕ → List ItNode → Bool
came_first other current locks = any (λ (l : ItNode). l.id == other && ltb l.sequence current) locks

abbrev with_id : ℕ → List ItNode → Bool
with_id other nodes = any (λ (n : ItNode). n.id == other) nodes

rival-conflicting :
    (own : ItNode) (other : ℕ) (rows : List OffsetRow)
    → rival own other rows ≡ true
    → with_id other (conflicting own rows) ≡ true
rival-conflicting own other [] h = absurd (cc)
rival-conflicting own other (r ∷ rows) h = ground (arith, rival-conflicting own other rows)

none_before-append :
    (k : ℕ) (xs ys : List ItNode)
    → none_before k (xs ++ ys) ≡ (none_before k xs && none_before k ys)
none_before-append k [] ys = refl
none_before-append k (x ∷ xs) ys = ground (arith, none_before-append k xs ys)

none_before-copies :
    (row : ItNode) (k : ℕ) (locks : List ItNode)
    → came_first row.id k locks ≡ true
    → none_before k
        (map (λ l. record row { sequence = l.sequence }) (with_key (λ n. n.id) row.id locks))
      ≡ false
none_before-copies row k [] h = absurd (cc)
none_before-copies row k (l ∷ locks) h = ground (arith, none_before-copies row k locks)

none_before-rival :
    (k other : ℕ) (locks rows : List ItNode)
    → came_first other k locks ≡ true
    → with_id other rows ≡ true
    → none_before k (locks_in_order locks rows) ≡ false
unfolding locks_in_order
none_before-rival k other locks [] h e = absurd (cc)
none_before-rival k other locks (row ∷ rows) h e =
    let copies = map (λ (l : ItNode). record row { sequence = l.sequence }) in
    none_before-append k (copies (with_key (λ n. n.id) row.id locks)) (locks_in_order locks rows)
    ∙ elim (Bool-cases (row.id == other)) [
      | inl same ↦
          let is_it : row.id ≡ other = ground arith in
          let first : came_first row.id k locks ≡ true = ap (λ o. came_first o k locks) is_it ∙ h in
          ap (λ b. b && none_before k (locks_in_order locks rows))
            (none_before-copies row k locks first)
      | inr differs ↦
          let there : with_id other rows ≡ true = ground arith in
          let rest = none_before-rival k other locks rows h there in
          ap (λ b. none_before k (copies (with_key (λ n. n.id) row.id locks)) && b) rest
          ∙ ground arith
    ]

module _ (Z : Zookeeper) (m : Memory) where
  open Z use {State, zoo_get_children}

  -- Under the conditions under which an interval lock is decided (the children read, memory, a server that
  -- answers, rows for the file and the context's interval, ids below 2^31, the context's own lock among
  -- those of the conflicting rows): if another row of the file conflicts with the context's and a lock with
  -- its id and a smaller sequence number is among the children, the lock is not acquired; the context is
  -- marked as waiting, and ZooKeeper is asked for the node of a lock of a conflicting row that is not behind
  -- the context's.
  pub determine_interval-came_first :
      (context : ItNode) (name : Text) (names : List Text) (id other : ℕ) (own : OffsetRow)
      (c : Conn) (s t : State)
      → zoo_get_children (or_empty context.file_path ++ codes "/interval") s
        ≡ (zok, name ∷ names, t)
      → m.nodes ≡ true
      → m.copies ≡ true
      → c.replies ≡ []
      → find_file (or_empty context.file_path) c.db.files ≡ some id
      → find_offset context.id c.db.offsets ≡ some own
      → (context.id == id_none) ≡ false
      → All SmallId (map (scan_lock m.junk) (name ∷ names))
      → All SmallId (conflicting (node_of own) (rows_of id c))
      → let current = get_sequence_number (or_empty context.lock_name) in
        let locks = map (scan_lock m.junk) (name ∷ names) in
        holds_own current (locks_in_order locks (conflicting (node_of own) (rows_of id c))) ≡ true
        → rival (node_of own) other (rows_of id c) ≡ true
        → came_first other current locks ≡ true
        → (w : ItNode) × (w.sequence ≤ current)
          × Among w (locks_in_order locks (conflicting (node_of own) (rows_of id c)))
          × (determine_interval Z (select_from true true c) m context s
              ≡ ask_for Z context (some w) t)
  determine_interval-came_first context name names id other own c s t e1 e2 e3 e f g n small srows
        held conflicts first =
      let current = get_sequence_number (or_empty context.lock_name) in
      let rows = conflicting (node_of own) (rows_of id c) in
      let locks = map (scan_lock m.junk) (name ∷ names) in
      (determine_interval-conflicting Z m context name names id own c s t e1 e2 e3 e f g n small
          srows held).1
        (none_before-rival current other locks rows first
          (rival-conflicting (node_of own) other (rows_of id c) conflicts))
