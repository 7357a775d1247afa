-- ===== src/Zk/Acquire/Tries.antt =====
-- zkclient.c, zk_acquire_lock: how often the lock operation is run, and what a caller is told.
use b_project.Base.{
  ℕ, zero, suc, ◌≤◌, ◌≡◌, ◌≢◌, refl, Bool, true, false, Option, some, List, [], ◌∷◌, ◌++◌, inl, inr,
  ◌⊎◌, Bool-cases, arith, ap, ◌∙◌,
}
use b_project.Base.Text.{Text}
use b_project.IntervalTree.{ItNode}
use b_project.Zk.{
  Zookeeper, Code, zok, zconnectionloss, znonode, zsystemerror, failed, other, Out, out, crash,
  lock_dir, retry_create,
}
use b_project.Zk.Master.{or_empty}
use b_project.Zk.Interval.{Memory}
use b_project.Zk.Acquire.{
  made, create_dirs, lock_tries, lock_operation, acquire_path, in_subfolder, zk_acquire_lock,
}

abbrev pub wants_again : (S : Type 0) → Out S → Bool
wants_again S (out zok context s) = false
wants_again S (out c context s) = true
wants_again S crash = false

module _ (Z : Zookeeper) (op : ItNode → Zookeeper.State Z → Out (Zookeeper.State Z)) where
  open Z use {State}

  -- One more run of the operation, and k of them.
  abbrev pub again : Out State → Out State
  again crash = crash
  again (out c context s) = op context s

  unfoldable pub runs : ℕ → Out State → Out State
  runs zero r = r
  runs (suc k) r = runs k (again r)

  -- The results before the k-th ask for another run.
  unfoldable pub AllFail : ℕ → Out State → Type 0
  AllFail zero r = Unit
  AllFail (suc k) r = (wants_again State r ≡ true) × AllFail k (again r)

  lock_tries_stops : (n : ℕ) (r : Out State) → wants_again State r ≡ false → lock_tries Z n op r ≡ r
  unfolding lock_tries
  lock_tries_stops n crash h = refl
  lock_tries_stops n (out zok q s) h = refl
  lock_tries_stops n (out zconnectionloss q s) h = absurd (cc)
  lock_tries_stops n (out znonode q s) h = absurd (cc)
  lock_tries_stops n (out zsystemerror q s) h = absurd (cc)
  lock_tries_stops n (out failed q s) h = absurd (cc)
  lock_tries_stops n (out (other k) q s) h = absurd (cc)

  lock_tries_goes_on :
      (n : ℕ) (r : Out State)
      → wants_again State r ≡ true
      → (lock_tries Z (suc n) op r ≡ lock_tries Z n op (again r)) × (lock_tries Z 0 op r ≡ r)
  unfolding lock_tries
  lock_tries_goes_on n crash h = absurd (cc)
  lock_tries_goes_on n (out zok q s) h = absurd (cc)
  lock_tries_goes_on n (out zconnectionloss q s) h = (refl, refl)
  lock_tries_goes_on n (out znonode q s) h = (refl, refl)
  lock_tries_goes_on n (out zsystemerror q s) h = (refl, refl)
  lock_tries_goes_on n (out failed q s) h = (refl, refl)
  lock_tries_goes_on n (out (other k) q s) h = (refl, refl)

  lock_tries-runs :
      (n k : ℕ) (r : Out State)
      → k ≤ n
      → AllFail k r
      → (wants_again State (runs k r) ≡ false) ⊎ (k ≡ n)
      → lock_tries Z n op r ≡ runs k r
  unfolding AllFail runs
  lock_tries-runs n zero r le f (inl h) = lock_tries_stops n r h
  lock_tries-runs n zero r le f (inr h) = elim (Bool-cases (wants_again State r)) [
    | inl e ↦ rw (← h) (lock_tries_goes_on 0 r e).1
    | inr e ↦ lock_tries_stops n r e
  ]
  lock_tries-runs zero (suc k) r le f h = absurd (omega arith)
  lock_tries-runs (suc n) (suc k) r le (f, g) (inl h) =
      (lock_tries_goes_on n r f).0 ∙ lock_tries-runs n k (again r) (omega arith) g (inl h)
  lock_tries-runs (suc n) (suc k) r le (f, g) (inr h) =
      (lock_tries_goes_on n r f).0
      ∙ lock_tries-runs n k (again r) (omega arith) g (inr (omega arith))

module _ (Z : Zookeeper) (select : Text → ℕ → Option (List ItNode)) (m : Memory) where
  open Z use {State}

  in_subfolder_goes_on :
      (context : ItNode) (code : Code) (s : State)
      → code ≢ zconnectionloss
      → in_subfolder Z select m context (code, s)
        ≡ lock_tries Z 3 (lock_operation Z select m) (out zconnectionloss context s)
  in_subfolder_goes_on context zok s n = refl
  in_subfolder_goes_on context zconnectionloss s n = absurd (n refl)
  in_subfolder_goes_on context znonode s n = refl
  in_subfolder_goes_on context zsystemerror s n = refl
  in_subfolder_goes_on context failed s n = refl
  in_subfolder_goes_on context (other k) s n = refl

  acquire_path-lock_tries :
      (context : ItNode) (c : ℕ) (rest : Text) (code : Code) (s s1 s2 s3 : State)
      → create_dirs Z (c ∷ []) rest s ≡ made s1
      → retry_create Z (c ∷ rest) s1 ≡ (zok, s2)
      → retry_create Z (c ∷ rest ++ lock_dir context) s2 ≡ (code, s3)
      → code ≢ zconnectionloss
      → acquire_path Z select m (c ∷ rest) context s
        ≡ lock_tries Z 3 (lock_operation Z select m) (out zconnectionloss context s3)
  unfolding acquire_path
  acquire_path-lock_tries context c rest code s s1 s2 s3 d f g n =
      rw (d, f, g) (in_subfolder_goes_on context code s3 n)

  -- With every directory of the path there, and no lost connection at the lock directory, zk_acquire_lock
  -- gives the result of the k-th run of the lock operation, where k is the first of the three at most
  -- that needs no other, or the third. (`runs` counts the lost connection that the loop begins with.)
  pub zk_acquire_lock-runs :
      (context : ItNode) (c : ℕ) (rest : Text) (code : Code) (k : ℕ) (s s1 s2 s3 : State)
      → context.file_path ≡ some (c ∷ rest)
      → create_dirs Z (c ∷ []) rest s ≡ made s1
      → retry_create Z (c ∷ rest) s1 ≡ (zok, s2)
      → retry_create Z (c ∷ rest ++ lock_dir context) s2 ≡ (code, s3)
      → code ≢ zconnectionloss
      → let op = lock_operation Z select m in
        let start = out zconnectionloss context s3 in
        k ≤ 3
        → AllFail Z op k start
        → (wants_again State (runs Z op k start) ≡ false) ⊎ (k ≡ 3)
        → zk_acquire_lock Z select m context s ≡ runs Z op k start
  unfolding zk_acquire_lock
  zk_acquire_lock-runs context c rest code k s s1 s2 s3 p d f g n le all last =
      ap (λ q. acquire_path Z select m (or_empty q) context s) p
      ∙ acquire_path-lock_tries context c rest code s s1 s2 s3 d f g n
      ∙ lock_tries-runs Z (lock_operation Z select m) 3 k (out zconnectionloss context s3) le all
          last
