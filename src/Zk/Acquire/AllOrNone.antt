-- ===== src/Zk/Acquire/AllOrNone.antt =====
-- zkclient.c, zk_lock_intervals: all intervals of a file or an error.
use b_project.Base.{
  ℕ, suc, ◌+◌, ◌≡◌, refl, true, Option, none, some, List, [], ◌∷◌, length, All, Bool-cases, inl,
  inr, ◌⊎◌, arith, ap, ◌∙◌,
}
use b_project.Base.Int.{pos, negsuc}
use b_project.Base.Text.{Text}
use b_project.IntervalTree.{ItNode}
use b_project.Zk.{
  Zookeeper, zok, zconnectionloss, znonode, zsystemerror, failed, other, Out, out, crash,
}
use b_project.Zk.Interval.{Memory}
use b_project.Zk.Acquire.{
  Locked, interval_node, in_front, after_node, lock_loop, zk_lock_intervals, zk_acquire_lock,
}

abbrev IsAcquired : ItNode → Type 0
IsAcquired p = p.lock_acquired ≡ true

-- The call locked all n nodes, or reports -1.
abbrev pub AllOrError : (S : Type 0) → Text → ℕ → ℕ → Option (Locked S) → Type 0
AllOrError S path count n none = Unit
AllOrError S path count n (some l) =
    ((l.ret ≡ pos (count + n)) × (length l.nodes ≡ n) × All IsAcquired l.nodes × (l.path ≡ path))
    ⊎ (l.ret ≡ negsuc 0)

module _ (Z : Zookeeper) (select : Text → ℕ → Option (List ItNode)) (m : Memory) where
  open Z use {State}

  in_front-AllOrError :
      (path : Text) (count n : ℕ) (p : ItNode) (r : Option (Locked State))
      → IsAcquired p
      → AllOrError State path (count + 1) n r
      → AllOrError State path count (suc n) (in_front p r)
  in_front-AllOrError path count n p none a h = tt
  in_front-AllOrError path count n p (some l) a (inr e) = inr e
  in_front-AllOrError path count n p (some l) a (inl (e, len, as', q)) =
      inl (e ∙ ap pos (omega arith), ap suc len, (a, as'), q)

  after_node-AllOrError :
      (path : Text) (count n : ℕ) (p : ItNode) (ps : List ItNode)
      (more : State → Option (Locked State)) (r : Out State)
      → ((t : State) → AllOrError State path (count + 1) n (more t))
      → AllOrError State path count (suc n) (after_node Z select m p ps path more r)
  after_node-AllOrError path count n p ps more crash h = tt
  after_node-AllOrError path count n p ps more (out zok q s) h = elim (Bool-cases q.lock_acquired) [
    | inl a ↦ simp a (in_front-AllOrError path count n q (more s) a (h s))
    | inr a ↦ simp a (inr refl)
  ]
  after_node-AllOrError path count n p ps more (out zconnectionloss q s) h = inr refl
  after_node-AllOrError path count n p ps more (out znonode q s) h = inr refl
  after_node-AllOrError path count n p ps more (out zsystemerror q s) h = inr refl
  after_node-AllOrError path count n p ps more (out failed q s) h = inr refl
  after_node-AllOrError path count n p ps more (out (other k) q s) h = inr refl

  lock_loop-AllOrError :
      (path : Text) (count : ℕ) (nodes : List ItNode) (s : State)
      → AllOrError State path count (length nodes) (lock_loop Z select m path count nodes s)
  unfolding lock_loop
  lock_loop-AllOrError path count [] s = inl (ap pos (omega arith), refl, tt, refl)
  lock_loop-AllOrError path count (p ∷ ps) s =
      after_node-AllOrError path count (length ps) p ps
        (λ t. lock_loop Z select m path (count + 1) ps t)
        (zk_acquire_lock Z select m (interval_node path p) s)
        (λ t. lock_loop-AllOrError path (count + 1) ps t)

  -- When zk_lock_intervals comes back, it gives the number of nodes and every node has its lock, and the
  -- path is as it was, or it gives -1. A crash is the read through NULL of one of the lock operations.
  pub zk_lock_intervals-AllOrError :
      (path : Text) (nodes : List ItNode) (s : State)
      → AllOrError State path 0 (length nodes) (zk_lock_intervals Z select m path nodes s)
  unfolding zk_lock_intervals
  zk_lock_intervals-AllOrError path nodes s = lock_loop-AllOrError path 0 nodes s
