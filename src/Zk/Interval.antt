-- ===== src/Zk/Interval.antt =====
-- zkclient.c: the interval locks. The rows of the file that conflict with the context's come from
-- query_select_file_intervals, a parameter here (`select`, none for -1); Sql/Intervals models it.
pub mod Runs
pub mod First
pub mod Database
pub mod Exclusion
use Prim.Native.Nat.{Ordering, lt, eq, gt, compare}
use b_project.Base.{
  ℕ, zero, suc, ◌+◌, ◌-◌, ◌%◌, ◌^◌, Bool, true, false, Option, none, some, List, [], ◌∷◌, ◌++◌, map,
  ltb, ◌==◌, ◌&&◌, if◌then◌else◌, get_elem?,
}
use b_project.Base.Text.{Text, codes, is_digit, read_digits, decimal, decimal10}
use b_project.Base.Qsort.{qsort, by_key}
use b_project.Base.Bsearch.{bsearch, run_at}
use b_project.IntervalTree.{ItNode}
use b_project.Zk.{Zookeeper, Code, zok, failed, is_zok, Out, out, crash, retry_until_ok}
use b_project.Zk.Names.{get_lock_name, get_sequence_number}
use b_project.Zk.Master.{or_empty, set_acquired}

abbrev begins_with_digit : Text → Bool
begins_with_digit [] = false
begins_with_digit (c ∷ s) = is_digit c

-- The part of sscanf(name, "%lu-%d", ...) behind the first number.
abbrev scan_sequence : ItNode → Text → ItNode
scan_sequence n [] = n
scan_sequence n (c ∷ s) =
    if c == b'-' && begins_with_digit s then record n { sequence = (read_digits 0 s).0 } else n

-- sscanf into a node of which malloc gave the memory, `junk`: what does not match is left as it is.
-- Names begin with a digit or not at all; blanks and signs in front are not read.
unfoldable pub scan_lock : ItNode → Text → ItNode
scan_lock junk name =
    if begins_with_digit name
    then scan_sequence (record junk { id = (read_digits 0 name).0 }) (read_digits 0 name).1
    else junk

-- The int that the difference of two unsigned longs is converted to, by its sign.
unfoldable pub sign_of_difference : ℕ → ℕ → Ordering
sign_of_difference a b =
    let d = (a + 2 ^ 64 - b) % 2 ^ 32 in if d == 0 then eq else if ltb d (2 ^ 31) then gt else lt

unfoldable pub cmp_offset_id_func : ItNode → ItNode → Ordering
unfolding sign_of_difference
cmp_offset_id_func a b = sign_of_difference a.id b.id

-- Sequence numbers are ints from 0 on, whose difference is an int.
abbrev pub cmp_sequence_func : ItNode → ItNode → Ordering
cmp_sequence_func = by_key (λ n. n.sequence)

unfoldable pub sort_interval_locks_by_offset_id : ItNode → List Text → List ItNode
unfolding cmp_offset_id_func scan_lock
sort_interval_locks_by_offset_id junk names = qsort cmp_offset_id_func (map (scan_lock junk) names)

-- The locks of one row: the run round what bsearch finds, copies of the row with their sequences.
unfoldable pub locks_of_row : List ItNode → ItNode → List ItNode
locks_of_row locks row =
    let found = bsearch (cmp_offset_id_func row) locks in
    map (λ l. record row { sequence = l.sequence }) (run_at (λ n. n.id) row.id locks found)

unfoldable pub collect_locks : List ItNode → List ItNode → List ItNode
unfolding locks_of_row
collect_locks locks [] = []
collect_locks locks (row ∷ rows) = locks_of_row locks row ++ collect_locks locks rows

-- What _get_sorted_shifted_relevant_intervals meets in memory: whether malloc gives the nodes of the
-- names and the copies of the rows, and what it leaves in the nodes.
pub record Memory : Type 0 where
  pub nodes : Bool
  pub copies : Bool
  pub junk : ItNode

abbrev pub copied : Bool → List ItNode → Option (List ItNode)
copied true found = some (qsort cmp_sequence_func found)
copied false [] = some []
copied false (l ∷ found) = none

-- The array that is returned; none for -1.
abbrev relevant_rows : Memory → List Text → Option (List ItNode) → Option (List ItNode)
relevant_rows m names none = none
relevant_rows m names (some rows) =
    copied m.copies (collect_locks (sort_interval_locks_by_offset_id m.junk names) rows)

unfoldable pub relevant_intervals : Memory → List Text → Option (List ItNode) → Option (List ItNode)
unfolding collect_locks sort_interval_locks_by_offset_id
relevant_intervals m [] rows = some []
relevant_intervals m (name ∷ names) rows =
    if m.nodes then relevant_rows m (name ∷ names) rows else none

-- The path of a lock's node.
abbrev lock_path : Text → ItNode → Text
lock_path path l = path ++ codes "/interval/" ++ decimal l.id ++ codes "-" ++ decimal10 l.sequence

-- The element in front of the one that bsearch gives: NULL - 1 and the element in front of the first are
-- not there to be read.
abbrev pub before : List ItNode → Option ℕ → Option ItNode
before locks none = none
before locks (some zero) = none
before locks (some (suc i)) = get_elem? locks i

module _ (Z : Zookeeper) where
  open Z use {State, zoo_exists, zoo_create, zoo_get_children}

  abbrev pub ask_for : ItNode → Option ItNode → State → Out State
  ask_for context none s = crash
  ask_for context (some l) s =
      let ask = zoo_exists (lock_path (or_empty context.file_path) l) in
      let (c, s') = retry_until_ok Z 3 ask (ask s) in out c (set_acquired false context) s'

  -- Step 3: the lock is acquired if the first relevant lock is the context's.
  unfoldable pub decide_interval : ItNode → ℕ → Option (List ItNode) → State → Out State
  decide_interval context current none s = out failed context s
  decide_interval context current (some []) s = out failed context s
  decide_interval context current (some (l ∷ locks)) s =
      let key = record context { sequence = current } in
      let found = bsearch (cmp_sequence_func key) (l ∷ locks) in
      if l.sequence == current
      then out zok (set_acquired true context) s
      else ask_for context (before (l ∷ locks) found) s

  module _ (select : Text → ℕ → Option (List ItNode)) (m : Memory) where
    abbrev interval_children : ItNode → Code × List Text × State → Out State
    interval_children context (zok, names, s) =
        let path = or_empty context.file_path in
        let current = get_sequence_number (or_empty context.lock_name) in
        decide_interval context current (relevant_intervals m names (select path context.id)) s
    interval_children context (c, names, s) = out c context s

    -- _zk_determine_interval_lock_eligibility
    unfoldable pub determine_interval : ItNode → State → Out State
    unfolding decide_interval relevant_intervals
    determine_interval context s =
        interval_children context
          (zoo_get_children (or_empty context.file_path ++ codes "/interval") s)

    abbrev interval_created : ItNode → Code × Text × State → Out State
    interval_created context (zok, full_path, s) =
        determine_interval (record context { lock_name = get_lock_name full_path }) s
    interval_created context (c, full_path, s) = out c context s

    -- _zk_interval_lock_operation
    unfoldable pub interval_lock_operation : ItNode → State → Out State
    unfolding determine_interval
    interval_lock_operation context s = interval_created context (
        zoo_create
          (or_empty context.file_path ++ codes "/interval/" ++ decimal context.id ++ codes "-") true
          s)
