-- ===== src/Zk/Interval/Database.antt =====
-- The interval locks over the database: _get_sorted_shifted_relevant_intervals gets its rows from
-- query_select_file_intervals.
use b_project.Base.{
  ℕ, ◌≡◌, refl, ap, ◌∙◌, ◌≤◌, Bool, true, false, Option, none, some, List, [], ◌∷◌, ◌++◌, map, All,
  ◌==◌,
}
use b_project.Base.Text.{Text, codes}
use b_project.IntervalTree.{ItNode, Slot, live, Walk}
use b_project.Sql.{Conn, OffsetRow}
use b_project.Sql.Resize.{find_offset}
use b_project.Sql.Intervals.{
  id_none, find_file, node_of, rows_of, live_nodes, FileIntervals, query_select_file_intervals,
}
use b_project.Sql.Intervals.Conflicts.{conflicting, query_select_file_intervals-conflicting}
use b_project.Zk.{Zookeeper, zok, out}
use b_project.Zk.Names.{get_sequence_number}
use b_project.Zk.Master.{or_empty, set_acquired}
use b_project.Zk.Interval.{scan_lock, Memory, ask_for, determine_interval}
use b_project.Zk.Interval.Runs.{SmallId, locks_in_order}
use b_project.Zk.Interval.First.{Among, none_before, holds_own, determine_interval-first}

-- it_foreach over the list that the call filled.
abbrev pub kept : List Slot → List ItNode
kept [] = []
kept (live p ∷ l) = p ∷ kept l
kept (_ ∷ l) = kept l

abbrev kept_nodes : Walk → Option (List ItNode)
kept_nodes (Walk.done merged l) = some (kept l)
kept_nodes _ = none

abbrev rows_found : Option FileIntervals → Option (List ItNode)
rows_found none = none
rows_found (some f) = kept_nodes f.it

-- The rows for a context, at the database as the connection c sees it.
abbrev pub select_from : Bool → Bool → Conn → Text → ℕ → Option (List ItNode)
select_from dup alloc c path cur_id =
    rows_found (query_select_file_intervals dup alloc path cur_id c).found

kept-live : (ps : List ItNode) → kept (live_nodes ps) ≡ ps
kept-live [] = refl
kept-live (p ∷ ps) = ap (λ l. p ∷ l) (kept-live ps)

select_from-conflicting :
    (path : Text) (cur_id id : ℕ) (own : OffsetRow) (c : Conn)
    → c.replies ≡ []
    → find_file path c.db.files ≡ some id
    → find_offset cur_id c.db.offsets ≡ some own
    → (cur_id == id_none) ≡ false
    → select_from true true c path cur_id ≡ some (conflicting (node_of own) (rows_of id c))
select_from-conflicting path cur_id id own c e f g n =
    ap rows_found (query_select_file_intervals-conflicting path cur_id id own c e f g n).0
    ∙ ap some (kept-live (conflicting (node_of own) (rows_of id c)))

module _ (Z : Zookeeper) (m : Memory) where
  open Z use {State, zoo_get_children}

  -- With the children of the interval directory read and memory for everything, the server answering,
  -- rows for the file and for the context's interval (whose id is not ID_NONE), ids below 2^31 and the
  -- context's own lock among those of the conflicting rows, an interval lock is acquired if no lock of a
  -- row of the same file that conflicts with the context's row has a smaller sequence number; if one has,
  -- the context is marked as not having the lock and ZooKeeper is asked
  -- for the node of a lock of a conflicting row.
  pub determine_interval-conflicting :
      (context : ItNode) (name : Text) (names : List Text) (id : ℕ) (own : OffsetRow) (c : Conn)
      (s t : State)
      → zoo_get_children (or_empty context.file_path ++ codes "/interval") s
        ≡ (zok, name ∷ names, t)
      → m.nodes ≡ true
      → m.copies ≡ true
      → c.replies ≡ []
      → find_file (or_empty context.file_path) c.db.files ≡ some id
      → find_offset context.id c.db.offsets ≡ some own
      → (context.id == id_none) ≡ false
      → All SmallId (map (scan_lock m.junk) (name ∷ names))
      → All SmallId (conflicting (node_of own) (rows_of id c))
      → let current = get_sequence_number (or_empty context.lock_name) in
        let rows = conflicting (node_of own) (rows_of id c) in
        let relevant = locks_in_order (map (scan_lock m.junk) (name ∷ names)) rows in
        let run = determine_interval Z (select_from true true c) m context s in
        holds_own current relevant ≡ true
        → (none_before current relevant ≡ true → run ≡ out zok (set_acquired true context) t)
          × (none_before current relevant ≡ false
              → (w : ItNode) × (w.sequence ≤ current)
                × Among w relevant
                × (run ≡ ask_for Z context (some w) t))
  determine_interval-conflicting context name names id own c s t e1 e2 e3 e f g n small srows held =
      determine_interval-first Z (select_from true true c) m context name names
        (conflicting (node_of own) (rows_of id c)) s t e1 e2 e3
        (select_from-conflicting (or_empty context.file_path) context.id id own c e f g n) small
        srows held
