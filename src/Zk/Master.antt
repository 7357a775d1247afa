-- ===== src/Zk/Master.antt =====
-- The master read and write locks of a file: the eligibility tests of zkclient.c.
pub mod Order
pub mod Watch
use b_project.Base.{
  ℕ, zero, suc, Bool, true, false, Option, none, some, List, [], ◌∷◌, ◌++◌, ◌&&◌, ltb, ◌==◌,
  if◌then◌else◌,
}
use b_project.Base.Text.{Text, codes}
use b_project.IntervalTree.{ItNode}
use b_project.Zk.{Zookeeper, Code, zok, is_zok, Out, out, crash, retry_until_ok}
use b_project.Zk.Names.{get_lock_name, get_sequence_number, sequence_after_dash, write_part}

-- minSeq, nextSmallestSeq and nextSmallestLock.
pub record Scan : Type 0 where
  pub min_seq : ℕ
  pub next_smallest_seq : ℕ
  pub next_smallest_lock : Option Text

abbrev pub scan_start : ℕ → Scan
scan_start current = record { min_seq = current; next_smallest_seq = 0; next_smallest_lock = none }

-- The two ifs for one lock with sequence s.
unfoldable pub scan_seq : ℕ → Text → ℕ → Scan → Scan
scan_seq current lock s a = record {
  min_seq = if ltb s a.min_seq then s else a.min_seq;
  next_smallest_seq = if ltb a.next_smallest_seq s && ltb s current then s else a.next_smallest_seq;
  next_smallest_lock =
      if ltb a.next_smallest_seq s && ltb s current then some lock else a.next_smallest_lock;
}

-- The write lock's loop: every master lock counts.
unfoldable pub scan_all : ℕ → List Text → Scan → Scan
scan_all current [] a = a
scan_all current (lock ∷ locks) a =
    scan_all current locks (scan_seq current lock (get_sequence_number lock) a)

-- The read lock's loop: the locks that the test takes for write locks count. None is a read through NULL.
unfoldable pub scan_writes : ℕ → List Text → Scan → Option Scan
scan_writes current [] a = some a
scan_writes current (lock ∷ locks) a =
    let skipped = scan_writes current locks a in
    let counted = λ (s : ℕ). scan_writes current locks (scan_seq current lock s a) in
    elim (write_part lock) [
      | none ↦ skipped
      | some znode ↦ elim (sequence_after_dash znode) [ none ↦ none | some s ↦ counted s ]
    ]

abbrev pub set_acquired : Bool → ItNode → ItNode
set_acquired b n = record n { lock_acquired = b }

abbrev pub or_empty : Option Text → Text
or_empty none = []
or_empty (some s) = s

module _ (Z : Zookeeper) where
  open Z use {State, zoo_get_children, zoo_wexists, zoo_create}

  -- What follows the loop: the lock is acquired if no counted lock is smaller; if not, the largest
  -- smaller one is watched.
  unfoldable pub decide : ItNode → ℕ → Scan → State → Out State
  decide context current a s =
      let watch = zoo_wexists a.next_smallest_lock in
      let (c, s') = retry_until_ok Z 3 watch (watch s) in
      if current == a.min_seq
      then out zok (set_acquired true context) s
      else out c (set_acquired false context) s'

  abbrev pub master_path : ItNode → Text
  master_path context = or_empty (context.file_path) ++ codes "/master"

  abbrev pub read_with : ItNode → Option ℕ → List Text → State → Out State
  read_with context none locks s = crash
  read_with context (some current) locks s = elim (scan_writes current locks (scan_start current)) [
    | none ↦ crash
    | some a ↦ decide context current a s
  ]

  abbrev read_children : ItNode → Code × List Text × State → Out State
  read_children context (zok, locks, s) =
      read_with context (sequence_after_dash (or_empty (context.lock_name))) locks s
  read_children context (c, locks, s) = out c context s

  -- _zk_determine_master_read_lock_eligibility
  unfoldable pub determine_master_read : ItNode → State → Out State
  determine_master_read context s = read_children context (zoo_get_children (master_path context) s)

  abbrev write_children : ItNode → Code × List Text × State → Out State
  write_children context (zok, locks, s) =
      let current = get_sequence_number (or_empty (context.lock_name)) in
      decide context current (scan_all current locks (scan_start current)) s
  write_children context (c, locks, s) = out c context s

  -- _zk_determine_master_write_lock_eligibility
  unfoldable pub determine_master_write : ItNode → State → Out State
  determine_master_write context s =
      write_children context (zoo_get_children (master_path context) s)

  -- The lock node is created and its name kept; then the test.
  abbrev pub created : (ItNode → State → Out State) → ItNode → Code × Text × State → Out State
  created test context (zok, full_path, s) =
      test (record context { lock_name = get_lock_name full_path }) s
  created test context (c, full_path, s) = out c context s

  -- _zk_master_read_lock_operation
  unfoldable pub master_read_lock_operation : ItNode → State → Out State
  unfolding determine_master_read
  master_read_lock_operation context s =
      created (determine_master_read) context
        (zoo_create (or_empty (context.file_path) ++ codes "/master/read-") true s)

  -- _zk_master_write_lock_operation
  unfoldable pub master_write_lock_operation : ItNode → State → Out State
  unfolding determine_master_write
  master_write_lock_operation context s =
      created (determine_master_write) context
        (zoo_create (or_empty (context.file_path) ++ codes "/master/write-") true s)
