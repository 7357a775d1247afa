-- ===== src/Zk/Acquire.antt =====
-- zkclient.c: zk_acquire_lock and what is built on it. The eligibility test of interval locks takes
-- `select` and `m` as Zk/Interval has them; every try meets the same.
pub mod AllOrNone
pub mod Tries
pub mod Waits
use b_project.Base.{
  ℕ, zero, suc, ◌+◌, Bool, true, false, Option, none, some, List, [], ◌∷◌, ◌++◌, ◌==◌,
  if◌then◌else◌,
}
use b_project.Base.Int.{ℤ, pos, negsuc}
use b_project.Base.Text.{Text, codes}
use b_project.IntervalTree.{ItNode}
use b_project.Zk.{
  Zookeeper, Code, zok, zconnectionloss, failed, is_zok, Out, out, crash, lock_dir,
  lock_type_interval, lock_type_master_read, lock_type_master_write, retry_create, zk_release_lock,
}
use b_project.Zk.Master.{
  or_empty, master_read_lock_operation, master_write_lock_operation, determine_master_read,
  determine_master_write,
}
use b_project.Zk.Interval.{Memory, interval_lock_operation}

-- How the walk over the directories ends: all are there, or one is not. Then the path is cut where its
-- slash was set to NUL.
pub data Dirs (S : Type 0) : Type 0 where
  made : S → Dirs S
  stopped : Code → Text → S → Dirs S

-- What zk_lock_intervals leaves: its result, the nodes, and the file's path, which the nodes share.
pub record Locked (S : Type 0) : Type 0 where
  pub ret : ℤ
  pub nodes : List ItNode
  pub path : Text
  pub state : S

abbrev pub interval_node : Text → ItNode → ItNode
interval_node path p = record p { file_path = some path; lock_type = lock_type_interval }

-- The node of one more round in front of what the next rounds leave.
abbrev pub in_front : {S : Type 0} → ItNode → Option (Locked S) → Option (Locked S)
in_front p none = none
in_front p (some l) = some (record l { nodes = p ∷ l.nodes })

-- A mutex of the threads library, whether a thread holds it; a new one is free.
pub data Mutex : Type 0 where
  free held : Mutex

abbrev pub pthread_mutex_init : Mutex
pthread_mutex_init = free

-- How zk_acquire_master_lock ends: it returns, or waits until another thread unlocks the mutex.
pub data Acquired (S : Type 0) : Type 0 where
  returned : Out S → Mutex → Acquired S
  waits : ItNode → S → Acquired S

-- The caller holds a mutex that was free, and waits for one that is held.
abbrev pub pthread_mutex_lock : {S : Type 0} → Mutex → ItNode → S → Acquired S
pthread_mutex_lock free context s = returned (out zok context s) held
pthread_mutex_lock held context s = waits context s

module _ (Z : Zookeeper) where
  open Z use {State}

  abbrev at_slash : Text → (State → Dirs State) → Code × State → Dirs State
  at_slash done more (zok, s) = more s
  at_slash done more (c, s) = stopped c done s

  -- while ((slashptr = strchr(slashptr, '/')) != NULL): `done` is what stands in front.
  unfoldable pub create_dirs : Text → Text → State → Dirs State
  create_dirs done [] s = made s
  create_dirs done (c ∷ rest) s =
      let more = λ (t : State). create_dirs (done ++ c ∷ []) rest t in
      if c == b'/' then at_slash done more (retry_create Z done s) else more s

  -- while (check_retry != ZOK && count < 3)
  unfoldable pub lock_tries : ℕ → (ItNode → State → Out State) → Out State → Out State
  lock_tries n op crash = crash
  lock_tries n op (out zok context s) = out zok context s
  lock_tries zero op (out c context s) = out c context s
  lock_tries (suc n) op (out c context s) = lock_tries n op (op context s)

  module _ (select : Text → ℕ → Option (List ItNode)) (m : Memory) where
    -- The operation for the context's type; any other type leaves check_retry as it is.
    unfoldable pub lock_operation : ItNode → State → Out State
    lock_operation context s =
        if context.lock_type == lock_type_interval
        then interval_lock_operation Z select m context s
        else if context.lock_type == lock_type_master_read
        then master_read_lock_operation Z context s
        else if context.lock_type == lock_type_master_write
        then master_write_lock_operation Z context s
        else out zconnectionloss context s

    -- Behind the creation of the lock directory only a lost connection ends the call.
    abbrev pub in_subfolder : ItNode → Code × State → Out State
    in_subfolder context (zconnectionloss, s) = out zconnectionloss context s
    in_subfolder context (c, s) = lock_tries 3 lock_operation (out zconnectionloss context s)

    abbrev in_full_path : Text → ItNode → Code × State → Out State
    in_full_path path context (zok, s) =
        in_subfolder context (retry_create Z (path ++ lock_dir context) s)
    in_full_path path context (c, s) = out c context s

    abbrev in_dirs : Text → ItNode → Dirs State → Out State
    in_dirs path context (stopped c cut s) = out c (record context { file_path = some cut }) s
    in_dirs path context (made s) = in_full_path path context (retry_create Z path s)

    -- The walk skips the first byte of the path; an empty path is read behind its end.
    unfoldable pub acquire_path : Text → ItNode → State → Out State
    acquire_path [] context s = crash
    acquire_path (c ∷ rest) context s = in_dirs (c ∷ rest) context (create_dirs (c ∷ []) rest s)

    unfoldable pub zk_acquire_lock : ItNode → State → Out State
    zk_acquire_lock context s = acquire_path (or_empty context.file_path) context s

    abbrev pub after_node :
        ItNode
        → List ItNode
        → Text
        → (State → Option (Locked State))
        → Out State
        → Option (Locked State)
    after_node p ps path more crash = none
    after_node p ps path more (out zok p' s) =
        if p'.lock_acquired
        then in_front p' (more s)
        else some (record { ret = negsuc 0; nodes = p' ∷ ps; path = path; state = s })
    after_node p ps path more (out c p' s) =
        some (record { ret = negsuc 0; nodes = p' ∷ ps; path = or_empty p'.file_path; state = s })

    -- The loop of zk_lock_intervals; none is a read through NULL.
    unfoldable pub lock_loop : Text → ℕ → List ItNode → State → Option (Locked State)
    unfolding zk_acquire_lock
    lock_loop path count [] s =
        some (record { ret = pos count; nodes = []; path = path; state = s })
    lock_loop path count (p ∷ ps) s =
        let more = λ (t : State). lock_loop path (count + 1) ps t in
        after_node p ps path more (zk_acquire_lock (interval_node path p) s)

    unfoldable pub zk_lock_intervals : Text → List ItNode → State → Option (Locked State)
    unfolding lock_loop
    zk_lock_intervals path nodes s = lock_loop path 0 nodes s

    -- The context's mutex is initialised in front of the try, and locked if the try left no lock. The
    -- result 0 is zok, and -1 is failed.
    abbrev pub lock_or_wait : Mutex → Out State → Acquired State
    lock_or_wait pmutex crash = returned crash pmutex
    lock_or_wait pmutex (out zok context s) =
        if context.lock_acquired
        then returned (out zok context s) pmutex
        else pthread_mutex_lock pmutex context s
    lock_or_wait pmutex (out c context s) = returned (out failed context s) pmutex

    unfoldable pub zk_acquire_master_lock : ItNode → Text → ℕ → State → Acquired State
    unfolding zk_acquire_lock
    zk_acquire_master_lock context path lt s =
        lock_or_wait pthread_mutex_init
          (zk_acquire_lock (record context { lock_type = lt; file_path = some path }) s)

  abbrev count_if : Code × State → ℕ → ℕ
  count_if (zok, s) n = n + 1
  count_if (c, s) n = n

  -- The loop of zk_unlock_intervals: every node is tried.
  unfoldable pub unlock_loop : Text → ℕ → List ItNode → State → ℕ × List ItNode × State
  unfolding zk_release_lock
  unlock_loop path count [] s = (count, [], s)
  unlock_loop path count (p ∷ ps) s =
      let q = interval_node path p in
      let r = zk_release_lock Z q s in
      let (n, nodes, t) = unlock_loop path (count_if r count) ps r.1 in (n, q ∷ nodes, t)

  unfoldable pub zk_unlock_intervals : Text → List ItNode → State → ℕ × List ItNode × State
  unfolding unlock_loop
  zk_unlock_intervals path nodes s = unlock_loop path 0 nodes s
