-- ===== src/Zk.antt =====
-- zkclient.h and zkclient.c: the locks in ZooKeeper. This file has the client library's interface, the
-- names of locks and the retry loops; Zk/Master, Zk/Interval and Zk/Acquire have the locks.
pub mod Names
pub mod Master
pub mod Interval
pub mod Acquire
pub mod Watcher
pub mod Release
mod Tests
mod LockTests
mod DatabaseTests
use b_project.Base.{
  ℕ, zero, suc, Bool, true, false, Option, none, some, List, [], ◌∷◌, ◌++◌, ◌==◌, if◌then◌else◌,
}
use b_project.Base.Text.{Text, codes}
use b_project.IntervalTree.{ItNode}

-- The result codes that the source tells apart; `failed` is its own -1.
pub data Code : Type 0 where
  zok zconnectionloss znonode zsystemerror failed : Code
  other : ℕ → Code

abbrev pub is_zok : Code → Bool
is_zok zok = true
is_zok _ = false

-- The ZooKeeper C client, as the source calls it, over a state of its own. zoo_create tells the path that
-- it made; `sequential` stands for ZOO_EPHEMERAL | ZOO_SEQUENCE. zoo_wexists gets no path for NULL.
pub record Zookeeper : Type 1 where
  pub State : Type 0
  pub zoo_exists : Text → State → Code × State
  pub zoo_create : Text → Bool → State → Code × Text × State
  pub zoo_delete : Text → State → Code × State
  pub zoo_get_children : Text → State → Code × List Text × State
  pub zoo_wexists : Option Text → State → Code × State

-- How a lock operation ends: a code, the context and the state, or a read through NULL.
pub data Out (S : Type 0) : Type 0 where
  out : Code → ItNode → S → Out S
  crash : Out S

abbrev pub lock_type_interval : ℕ
lock_type_interval = 0

abbrev pub lock_type_master_write : ℕ
lock_type_master_write = 1

abbrev pub lock_type_master_read : ℕ
lock_type_master_read = 2

abbrev pub lock_dir : ItNode → Text
lock_dir context =
    if context.lock_type == lock_type_interval then codes "/interval" else codes "/master"

module _ (Z : Zookeeper) where
  open Z use {State, zoo_exists, zoo_create, zoo_delete}

  -- while (ret != ZOK && retry_count < 3): `left` counts the rounds.
  unfoldable pub retry_until_ok : ℕ → (State → Code × State) → Code × State → Code × State
  retry_until_ok zero again (c, s) = (c, s)
  retry_until_ok (suc left) again (c, s) =
      let more = retry_until_ok left again (again s) in if is_zok c then (c, s) else more

  -- One round of retry_create: the call that the last code asks for.
  abbrev create_round : Text → Code → State → Code × State
  create_round znode znonode s = let (c, _, s') = zoo_create znode false s in (c, s')
  create_round znode _ s = zoo_exists znode s

  unfoldable pub retry_create_loop : ℕ → Text → Code × State → Code × State
  retry_create_loop zero znode r = r
  retry_create_loop (suc left) znode (zconnectionloss, s) =
      retry_create_loop left znode (create_round znode zconnectionloss s)
  retry_create_loop (suc left) znode (znonode, s) =
      retry_create_loop left znode (create_round znode znonode s)
  retry_create_loop (suc left) znode r = r

  unfoldable pub retry_create : Text → State → Code × State
  unfolding retry_create_loop
  retry_create znode s = retry_create_loop 3 znode (zoo_exists znode s)

  abbrev pub after_delete : (State → Code × State) → Code × State → Code × State
  after_delete again (zconnectionloss, s) = again s
  after_delete again r = r

  -- while (ret == ZCONNECTIONLOSS && count < 3), which begins with a loss.
  unfoldable pub delete_loop : ℕ → Text → State → Code × State
  delete_loop zero path s = (zconnectionloss, s)
  delete_loop (suc left) path s =
      let again = λ (t : State). delete_loop left path t in after_delete again (zoo_delete path s)

  abbrev pub released : Code × State → Code × State
  released (zok, s) = (zok, s)
  released (znonode, s) = (zok, s)
  released (_, s) = (zconnectionloss, s)

  abbrev pub release_named : ItNode → Option Text → Option Text → State → Code × State
  release_named context (some path) (some name) s =
      released (delete_loop 3 (path ++ lock_dir context ++ codes "/" ++ name) s)
  release_named context _ _ s = (zsystemerror, s)

  unfoldable pub zk_release_lock : ItNode → State → Code × State
  unfolding delete_loop
  zk_release_lock context s = release_named context context.file_path context.lock_name s
