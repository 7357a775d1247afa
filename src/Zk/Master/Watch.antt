-- ===== src/Zk/Master/Watch.antt =====
-- Read locks, and which lock a waiting client watches.
use b_project.Base.{ℕ, ◌≤◌, ◌<◌, ◌≡◌, refl, true, none, some, List, [], ◌∷◌, arith, All, ◌⊎◌}
use b_project.Base.Text.{Text, strrchr}
use b_project.IntervalTree.{ItNode}
use b_project.Zk.{Zookeeper, zok, out}
use b_project.Zk.Names.{get_sequence_number, sequence_after_dash, write_part}
use b_project.Zk.Master.{
  Scan, scan_start, scan_seq, scan_all, scan_writes, set_acquired, or_empty, master_path, read_with,
  determine_master_read,
}
use b_project.Zk.Master.Order.{decide-acquired}

-- Names of children, which zoo_get_children gives without their parent's path.
abbrev IsChildName : Text → Type 0
IsChildName name = strrchr name b'/' ≡ none

scan_writes-none :
    (current : ℕ) (locks : List Text) (a : Scan)
    → All IsChildName locks
    → scan_writes current locks a ≡ some a
unfolding scan_writes write_part
scan_writes-none current [] a h = refl
scan_writes-none current (lock ∷ locks) a h =
    rw (scan_writes, write_part, h.0) (scan_writes-none current locks a h.1)

module _ (Z : Zookeeper) where
  open Z use {State, zoo_get_children, zoo_wexists}

  -- When the children's names hold no slash, as ZooKeeper gives them, a read lock is always acquired at
  -- once, whatever locks are held: no write lock is ever taken into account.
  pub determine_master_read_ignores_writers :
      (context : ItNode) (current : ℕ) (locks : List Text) (s t : State)
      → sequence_after_dash (or_empty context.lock_name) ≡ some current
      → zoo_get_children (master_path Z context) s ≡ (zok, locks, t)
      → All IsChildName locks
      → determine_master_read Z context s ≡ out zok (set_acquired true context) t
  unfolding determine_master_read
  determine_master_read_ignores_writers context current locks s t e g h =
      rw (g, e, read_with, scan_writes-none current locks (scan_start current) h)
        ((decide-acquired Z context current (scan_start current) t).0 (ground arith))

-- Every lock with a smaller sequence has the number 0.
abbrev OnlyZeroBefore : ℕ → List Text → Type 0
OnlyZeroBefore current [] = Unit {0}
OnlyZeroBefore current (lock ∷ locks) =
    ((get_sequence_number lock ≡ 0) ⊎ (current ≤ get_sequence_number lock))
    × OnlyZeroBefore current locks

scan_seq-next :
    (current s : ℕ) (lock : Text) (a : Scan)
    → (a.next_smallest_seq ≤ (scan_seq current lock s a).next_smallest_seq)
      × (s < current → s ≤ (scan_seq current lock s a).next_smallest_seq)
      × (a.next_smallest_seq < current → (scan_seq current lock s a).next_smallest_seq < current)
      × (a.next_smallest_lock ≡ none
          → a.next_smallest_seq ≡ 0
          → (s ≡ 0) ⊎ (current ≤ s)
          → ((scan_seq current lock s a).next_smallest_lock ≡ none)
            × ((scan_seq current lock s a).next_smallest_seq ≡ 0))
unfolding scan_seq
scan_seq-next current s lock a =
    (ground arith, λ h. ground arith, λ h. ground arith, λ e n h. ground arith)

scan_all-next :
    (current : ℕ) (locks : List Text) (a : Scan)
    → a.next_smallest_seq < current
    → let b = scan_all current locks a in
      (a.next_smallest_seq ≤ b.next_smallest_seq)
      × (b.next_smallest_seq < current)
      × All
          (λ lock.
            get_sequence_number lock < current → get_sequence_number lock ≤ b.next_smallest_seq)
          locks
unfolding scan_all
scan_all-next current [] a h = (omega arith, h, tt)
scan_all-next current (lock ∷ locks) a h =
    let s = get_sequence_number lock in
    let (grows, catches, stays, _) = scan_seq-next current s lock a in
    let (more, below, rest) = scan_all-next current locks (scan_seq current lock s a) (stays h) in
    (omega arith, below, (λ k. omega (arith, catches k), rest))

scan_all-no_watch :
    (current : ℕ) (locks : List Text) (a : Scan)
    → a.next_smallest_lock ≡ none
    → a.next_smallest_seq ≡ 0
    → OnlyZeroBefore current locks
    → (scan_all current locks a).next_smallest_lock ≡ none
unfolding scan_all
scan_all-no_watch current [] a e n h = e
scan_all-no_watch current (lock ∷ locks) a e n (zero_or_later, h) =
    let s = get_sequence_number lock in
    let (_, _, _, same) = scan_seq-next current s lock a in
    let (e', n') = same e n zero_or_later in
    scan_all-no_watch current locks (scan_seq current lock s a) e' n' h

-- The loop of the write lock finds the largest sequence number below the client's own: it is below
-- it, and no lock of the list lies between. But the search starts from 0, so when every smaller lock has
-- the number 0, as the first lock of a file does, no lock to watch is found.
scan_all-predecessor :
    (current : ℕ) (locks : List Text)
    → 0 < current
    → let a = scan_all current locks (scan_start current) in
      (a.next_smallest_seq < current)
      × All
          (λ lock.
            get_sequence_number lock < current → get_sequence_number lock ≤ a.next_smallest_seq)
          locks
      × (OnlyZeroBefore current locks → a.next_smallest_lock ≡ none)
scan_all-predecessor current locks h =
    let (_, below, catches) = scan_all-next current locks (scan_start current) h in
    (below, catches, scan_all-no_watch current locks (scan_start current) refl refl)
