-- ===== src/Zk/Watcher.antt =====
-- zkclient.c: zkclient_init and the watcher that ZooKeeper's client calls with its events.
use b_project.Base.{
  ℕ, ◌≡◌, ◌∙◌, Bool, true, false, ◌||◌, not, Option, none, some, List, ◌==◌, if◌then◌else◌,
  Bool-cases, inl, inr, ap,
}
use b_project.Base.Text.{Text}
use b_project.IntervalTree.{ItNode}
use b_project.Zk.{Zookeeper, zok, Out, out, crash, lock_type_master_read, lock_type_master_write}
use b_project.Zk.Names.{get_sequence_number}
use b_project.Zk.Master.{
  or_empty, set_acquired, master_path, determine_master_read, determine_master_write,
}
use b_project.Zk.Master.Order.{first_of_all, determine_master_write-first}

-- zkconnected, myid.client_id and whether zh is a handle.
pub record Client : Type 0 where
  pub zkconnected : Bool
  pub client_id : ℕ
  pub open_handle : Bool

pub data SessionState : Type 0 where
  connected : ℕ → SessionState
  auth_failed expired other_state : SessionState

-- A deletion comes with the context that the watch was set with.
pub data Event : Type 0 where
  session_event : SessionState → Event
  deleted_event : ItNode → Event
  other_event : Event

-- `called` is the watcher's first call with a connected session within the ten seconds, with its id.
unfoldable pub zkclient_init : Option ℕ → Client → Bool × Client
zkclient_init none c = (false, record c { zkconnected = false; open_handle = true })
zkclient_init (some id) c =
    (true, record { zkconnected = true; client_id = id; open_handle = true })

-- The session's part of the watcher. After an expired session zkclient_init runs again.
unfoldable pub watch_session : Option ℕ → SessionState → Client → Client
unfolding zkclient_init
watch_session called (connected id) c = record c {
  client_id = if c.client_id == 0 || not (c.client_id == id) then id else c.client_id;
  zkconnected = true;
}
watch_session called auth_failed c = record c { open_handle = false }
watch_session called expired c = (zkclient_init called (record c { open_handle = false })).1
watch_session called other_state c = c

-- What a call leaves: the client, the context and whether its mutex is unlocked, and ZooKeeper's state.
pub record Watched (S : Type 0) : Type 0 where
  pub client : Client
  pub context : Option ItNode
  pub unlocks : Bool
  pub state : S

module _ (Z : Zookeeper) where
  open Z use {State}

  -- The test is run again for a master lock; its result code is not looked at.
  unfoldable pub retest : ItNode → State → Out State
  retest context s =
      if context.lock_type == lock_type_master_read
      then determine_master_read Z context s
      else if context.lock_type == lock_type_master_write
      then determine_master_write Z context s
      else out zok context s

  abbrev after_retest : Client → Out State → Option (Watched State)
  after_retest c crash = none
  after_retest c (out code q s) =
      some (record { client = c; context = some q; unlocks = q.lock_acquired; state = s })

  unfoldable pub watcher : Option ℕ → Client → Event → State → Option (Watched State)
  unfolding watch_session
  watcher called c (session_event e) s =
      some
        (record { client = watch_session called e c; context = none; unlocks = false; state = s })
  watcher called c (deleted_event context) s = after_retest c (retest context s)
  watcher called c other_event s =
      some (record { client = c; context = none; unlocks = false; state = s })

  retest-write :
      (context : ItNode) (s : State)
      → context.lock_type ≡ lock_type_master_write
      → retest context s ≡ determine_master_write Z context s
  unfolding retest
  retest-write context s w =
      ap
        (λ (k : ℕ).
          if k == lock_type_master_read
          then determine_master_read Z context s
          else if k == lock_type_master_write
          then determine_master_write Z context s
          else out zok context s)
        w

  -- When the lock that a waiting writer watches goes, and the master locks can be read, the writer's mutex
  -- is unlocked exactly if no lock that is left has a smaller sequence number, and its context says so.
  pub watcher-first :
      (called : Option ℕ) (c : Client) (context : ItNode) (locks : List Text) (s t : State)
      → context.lock_type ≡ lock_type_master_write
      → Zookeeper.zoo_get_children Z (master_path Z context) s ≡ (zok, locks, t)
      → (u : State) × let first =
            first_of_all (get_sequence_number (or_empty context.lock_name)) locks in
          (watcher called c (deleted_event context) s
            ≡ some (record {
              client = c;
              context = some (set_acquired first context);
              unlocks = first;
              state = u;
            }))
  unfolding watcher
  watcher-first called c context locks s t w e =
      let current = get_sequence_number (or_empty context.lock_name) in
      let same = retest-write context s w in
      let (yes_first, not_first) = determine_master_write-first Z context locks s t e in
      elim (Bool-cases (first_of_all current locks)) [
        | inl f ↦ (t, rw f (ap (after_retest c) (same ∙ yes_first f)))
        | inr f ↦ let (code, u, d) = not_first f in (u, rw f (ap (after_retest c) (same ∙ d)))
      ]
