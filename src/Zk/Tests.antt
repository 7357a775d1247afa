-- ===== src/Zk/Tests.antt =====
-- The locks over a small ZooKeeper: a list of the paths of its nodes, with one counter for sequences.
use b_project.Base.{◌≡◌, refl, true, false, some, List, [], ◌∷◌, ℕ, ◌+◌}
use b_project.Base.Text.{Text, codes}
use b_project.IntervalTree.{ItNode, it_node}
use b_project.Zk.{Zookeeper, Code, zok, znonode, out}
use b_project.Zk.Names.{get_lock_name, get_sequence_number, sequence_after_dash}
use b_project.Zk.Master.{set_acquired, determine_master_read, determine_master_write}
use b_project.Zk.Master.Order.{first_of_all, determine_master_write-first}
use b_project.Zk.Master.Watch.{determine_master_read_ignores_writers}

-- The names of a file's two master locks: a writer that came first, and a reader.
abbrev children : List Text
children = codes "write-0000000004" ∷ codes "read-0000000005" ∷ []

-- It answers every call, and every directory holds the two locks.
abbrev answering : Zookeeper
answering = record {
  State = ℕ;
  zoo_exists = λ path s. (zok, s);
  zoo_create = λ path sequential s. (zok, path, s + 1);
  zoo_delete = λ path s. (znonode, s);
  zoo_get_children = λ path s. (zok, children, s);
  zoo_wexists = λ path s. (zok, s);
}

abbrev context : Text → ItNode
context name = record (it_node 0 0 0) { file_path = some (codes "/f"); lock_name = some name }

lock_name_example :
    get_lock_name (codes "/f/master/read-0000000005") ≡ some (codes "read-0000000005")
unfolding get_lock_name
lock_name_example = refl

sequence_example : get_sequence_number (codes "read-0000000005") ≡ 5
unfolding get_sequence_number
sequence_example = refl

sequence_garbage : get_sequence_number (codes "read-5x") ≡ 0
unfolding get_sequence_number
sequence_garbage = refl

-- The reader gets the lock while the writer with the smaller number has it.
determine_master_read_ignores_writers_example :
    determine_master_read answering (context (codes "read-0000000005")) 0
    ≡ out zok (set_acquired true (context (codes "read-0000000005"))) 0
determine_master_read_ignores_writers_example =
    determine_master_read_ignores_writers answering (context (codes "read-0000000005")) 5 children 0
      0 (unfold sequence_after_dash in refl) refl (refl, (refl, tt))

determine_master_write-first_example :
    (first_of_all (get_sequence_number (codes "write-0000000004")) children ≡ true
      → determine_master_write answering (context (codes "write-0000000004")) 0
        ≡ out zok (set_acquired true (context (codes "write-0000000004"))) 0)
    × (first_of_all (get_sequence_number (codes "write-0000000004")) children ≡ false
        → (c : Code) × (u : ℕ) × (determine_master_write answering
              (context (codes "write-0000000004"))
              0
            ≡ out c (set_acquired false (context (codes "write-0000000004"))) u))
determine_master_write-first_example =
    determine_master_write-first answering (context (codes "write-0000000004")) children 0 0 refl
