-- ===== src/Zk/Release.antt =====
-- Releasing a lock: how often the node's deletion is tried, and what is reported.
use b_project.Base.{ap, ◌≡◌, refl, ◌≢◌, none, some, ◌++◌}
use b_project.Base.Text.{Text, codes}
use b_project.IntervalTree.{ItNode}
use b_project.Zk.{
  Zookeeper, Code, zok, zconnectionloss, znonode, zsystemerror, lock_dir, release_named,
  after_delete, released, delete_loop, zk_release_lock,
}

module _ (Z : Zookeeper) where
  open Z use {State, zoo_delete}

  not_again :
      (again : State → Code × State) (c : Code) (t : State)
      → c ≢ zconnectionloss
      → after_delete Z again (c, t) ≡ (c, t)
  not_again again zconnectionloss t h = absurd (h refl)
  not_again again zok t h = refl
  not_again again znonode t h = refl
  not_again again zsystemerror t h = refl
  not_again again Code.failed t h = refl
  not_again again (Code.other n) t h = refl

  -- A deletion whose first answer is not a lost connection is asked for once: then the release succeeds
  -- exactly when the node was deleted or was gone, and reports a lost connection for any other answer.
  -- Without a path or a lock name nothing is deleted and a system error is reported.
  zk_release_lock_answers :
      (context : ItNode) (path name : Text) (c : Code) (s t : State)
      → context.file_path ≡ some path
      → context.lock_name ≡ some name
      → zoo_delete (path ++ lock_dir context ++ codes "/" ++ name) s ≡ (c, t)
      → c ≢ zconnectionloss
      → (zk_release_lock Z context s ≡ released Z (c, t))
        × (zk_release_lock Z (record context { lock_name = none }) s ≡ (zsystemerror, s))
        × (zk_release_lock Z (record context { file_path = none }) s ≡ (zsystemerror, s))
  unfolding zk_release_lock
  zk_release_lock_answers context path name c s t p n d h = (
    rw (p, n, release_named, d) (ap (released Z) (not_again (delete_loop Z 2 _) c t h)),
    rw p,
    refl,
  )
