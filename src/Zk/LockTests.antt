-- ===== src/Zk/LockTests.antt =====
-- Interval locks, zk_acquire_lock and the watcher over a small ZooKeeper.
use b_project.Base.{
  ◌≡◌, refl, ap, true, false, none, some, List, [], ◌∷◌, ◌++◌, ◌≤◌, inl, arith, ℕ, ◌+◌, map, Option,
}
use b_project.Base.Text.{Text, codes}
use b_project.IntervalTree.{ItNode, it_node}
use b_project.Zk.{
  Zookeeper, zok, znonode, zconnectionloss, out, lock_type_interval, lock_type_master_write,
  retry_create, retry_until_ok,
}
use b_project.Zk.Names.{get_lock_name, get_sequence_number}
use b_project.Zk.Master.{
  set_acquired, determine_master_write, decide, master_write_lock_operation, scan_all, scan_seq,
}
use b_project.Zk.Master.Order.{first_of_all}
use b_project.Zk.Interval.{Memory, scan_lock, determine_interval, ask_for}
use b_project.Zk.Interval.Runs.{locks_in_order}
use b_project.Zk.Interval.First.{Among, none_before, determine_interval-first}
use b_project.Zk.Acquire.{
  create_dirs, lock_operation, zk_lock_intervals, zk_acquire_lock, zk_acquire_master_lock, returned,
  held, acquire_path, lock_tries,
}
use b_project.Zk.Acquire.AllOrNone.{AllOrError, zk_lock_intervals-AllOrError}
use b_project.Zk.Acquire.Tries.{runs, AllFail, wants_again, zk_acquire_lock-runs}
use b_project.Zk.Watcher.{Client, watcher, deleted_event, watcher-first}

-- Three interval locks, of the offsets 7, 8 and 7, and a master lock that came first.
abbrev interval_names : List Text
interval_names = codes "7-0000000003" ∷ codes "8-0000000004" ∷ codes "7-0000000005" ∷ []

abbrev crowded : Zookeeper
crowded = record {
  State = ℕ;
  zoo_exists = λ path s. (zok, s);
  zoo_create = λ path sequential s. (zok, path ++ codes "0000000005", s + 1);
  zoo_delete = λ path s. (znonode, s);
  zoo_get_children = λ path s. (zok, interval_names, s);
  zoo_wexists = λ path s. (zok, s);
}

abbrev junk : ItNode
junk = it_node 11 12 13

abbrev rows : List ItNode
rows = it_node 20 30 8 ∷ it_node 0 10 7 ∷ []

abbrev select : Text → ℕ → Option (List ItNode)
select path id = some rows

abbrev memory : Memory
memory = record { nodes = true; copies = true; junk = junk }

abbrev waiting : ItNode
waiting = record (it_node 0 10 7) {
  file_path = some (codes "/f");
  lock_name = some (codes "7-0000000005");
  lock_type = lock_type_interval;
}

scanned : scan_lock junk (codes "8-0000000004") ≡ record junk { id = 8; sequence = 4 }
unfolding scan_lock
scanned = refl

not_scanned : scan_lock junk (codes "lock") ≡ junk
unfolding scan_lock
not_scanned = refl

determine_interval-first_example :
    let relevant = locks_in_order (map (scan_lock junk) interval_names) rows in
    (none_before 5 relevant ≡ true
      → determine_interval crowded select memory waiting 0 ≡ out zok (set_acquired true waiting) 0)
    × (none_before 5 relevant ≡ false
        → (w : ItNode) × (w.sequence ≤ 5)
          × Among w relevant
          × (determine_interval crowded select memory waiting 0
              ≡ ask_for crowded waiting (some w) 0))
unfolding get_sequence_number
determine_interval-first_example =
    determine_interval-first crowded select memory waiting (codes "7-0000000003")
      (codes "8-0000000004" ∷ codes "7-0000000005" ∷ []) rows 0 0 refl refl refl refl
      (unfold scan_lock in (omega arith, (omega arith, (omega arith, tt))))
      (omega arith, (omega arith, tt)) (unfold locks_in_order scan_lock in refl)

zk_lock_intervals-AllOrError_example :
    AllOrError ℕ (codes "/f") 0 2 (zk_lock_intervals crowded select memory (codes "/f") rows 0)
zk_lock_intervals-AllOrError_example =
    zk_lock_intervals-AllOrError crowded select memory (codes "/f") rows 0

abbrev writer : ItNode
writer = record (it_node 0 0 0) {
  file_path = some (codes "/f");
  lock_type = lock_type_master_write;
}

-- The writer's lock has the number 5, and 3 and 4 are held.
abbrev not_first : ItNode
not_first = record writer { lock_name = some (codes "write-0000000005") }

operation : lock_operation crowded select memory writer 0 ≡ out zok not_first 1
unfolding lock_operation master_write_lock_operation determine_master_write decide get_lock_name
    get_sequence_number scan_all scan_seq retry_until_ok
operation = refl

zk_acquire_lock-runs_example :
    zk_acquire_lock crowded select memory writer 0
    ≡ runs crowded (lock_operation crowded select memory) 1 (out zconnectionloss writer 0)
zk_acquire_lock-runs_example =
    zk_acquire_lock-runs crowded select memory writer 47 (codes "f") zok 1 0 0 0 0 refl
      (unfold create_dirs in refl) (unfold retry_create in refl) (unfold retry_create in refl) (cc)
      (omega arith) (unfold AllFail in (refl, tt))
      (inl (unfold runs in ap (wants_again ℕ) operation))

told_without_lock :
    zk_acquire_master_lock crowded select memory writer (codes "/f") lock_type_master_write 0
    ≡ returned (out zok not_first 1) held
unfolding zk_acquire_master_lock acquire_path create_dirs lock_tries retry_create lock_operation
    master_write_lock_operation determine_master_write decide get_lock_name get_sequence_number
    scan_all scan_seq retry_until_ok
told_without_lock = refl

abbrev client : Client
client = record { zkconnected = true; client_id = 1; open_handle = true }

watcher-first_example :
    (u : ℕ) × let first = first_of_all 5 interval_names in
      (watcher crowded none client (deleted_event not_first) 0
        ≡ some (record {
          client = client;
          context = some (set_acquired first not_first);
          unlocks = first;
          state = u;
        }))
unfolding get_sequence_number
watcher-first_example = watcher-first crowded none client not_first interval_names 0 0 refl refl
