-- ===== src/Zk/Acquire/Waits.antt =====
-- zkclient.c, zk_acquire_master_lock: the mutex that a client without its lock should wait for.
use b_project.Base.{ℕ, Option, some, List}
use b_project.Base.Text.{Text}
use b_project.IntervalTree.{ItNode}
use b_project.Zk.{Zookeeper, Code, failed, crash, Out, out, lock_type_master_write}
use b_project.Zk.Names.{get_lock_name}
use b_project.Zk.Master.{scan_all, scan_start}

-- A writer's context for a path, before the try and behind the creation of its node.
abbrev pub write_context : ItNode → Text → ItNode
write_context context path = record context {
  lock_type = lock_type_master_write;
  file_path = some path;
}

abbrev pub with_node : ItNode → Text → Text → ItNode
with_node context path full = record (write_context context path) { lock_name = get_lock_name full }

module _ (Z : Zookeeper) where
  open Z use {State, zoo_get_children, zoo_wexists}

  code_of : Out State → Code
  code_of crash = failed
  code_of (out c context s) = c

  -- The node that a writer with this number watches.
  abbrev pub watched : ℕ → List Text → Option Text
  watched current locks = (scan_all current locks (scan_start current)).next_smallest_lock
