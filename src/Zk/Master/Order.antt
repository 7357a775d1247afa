-- ===== src/Zk/Master/Order.antt =====
-- Who gets a master lock: the order of sequence numbers.
use b_project.Base.{
  ℕ, ◌≤◌, ◌≡◌, refl, Bool, true, false, ◌&&◌, List, [], ◌∷◌, arith, leb, ◌==◌, ◌∙◌,
}
use b_project.Base.Text.{Text}
use b_project.IntervalTree.{ItNode}
use b_project.Zk.{Zookeeper, Code, zok, out, retry_until_ok}
use b_project.Zk.Names.{get_sequence_number}
use b_project.Zk.Master.{
  Scan, scan_start, scan_seq, scan_all, set_acquired, or_empty, decide, master_path,
  determine_master_write,
}

-- No lock of the list has a smaller sequence number.
abbrev pub first_of_all : ℕ → List Text → Bool
first_of_all current [] = true
first_of_all current (lock ∷ locks) =
    leb current (get_sequence_number lock) && first_of_all current locks

scan_seq-min :
    (current s : ℕ) (lock : Text) (a : Scan)
    → a.min_seq ≤ current
    → ((scan_seq current lock s a).min_seq ≤ current)
      × ((current == (scan_seq current lock s a).min_seq)
          ≡ ((current == a.min_seq) && leb current s))
unfolding scan_seq
scan_seq-min current s lock a h = ground arith

and_regroup : (a b c : Bool) → ((a && b) && c) ≡ (a && (b && c))
and_regroup true b c = refl
and_regroup false b c = refl

scan_all-min :
    (current : ℕ) (locks : List Text) (a : Scan)
    → a.min_seq ≤ current
    → (current == (scan_all current locks a).min_seq)
      ≡ ((current == a.min_seq) && first_of_all current locks)
unfolding scan_all
scan_all-min current [] a h = ground arith
scan_all-min current (lock ∷ locks) a h =
    let s = get_sequence_number lock in
    let step = scan_seq-min current s lock a h in
    scan_all-min current locks (scan_seq current lock s a) step.0
    ∙ rw step.1 (and_regroup (current == a.min_seq) (leb current s) (first_of_all current locks))

module _ (Z : Zookeeper) where
  open Z use {State, zoo_get_children, zoo_wexists}

  pub decide-acquired :
      (context : ItNode) (current : ℕ) (a : Scan) (s : State)
      → ((current == a.min_seq) ≡ true
          → decide Z context current a s ≡ out zok (set_acquired true context) s)
        × ((current == a.min_seq) ≡ false
            → (c : Code) × (t : State) × (decide Z context current a s
                ≡ out c (set_acquired false context) t))
  unfolding decide
  decide-acquired context current a s =
      let r =
        retry_until_ok Z 3 (zoo_wexists a.next_smallest_lock)
          (zoo_wexists a.next_smallest_lock s) in
      (λ e. rw e, λ e. (r.0, r.1, rw e))

  -- When the list of master locks can be read, a write lock is acquired exactly if no master lock in
  -- it, for reading or writing, has a smaller sequence number; otherwise the context is marked as not
  -- having the lock.
  pub determine_master_write-first :
      (context : ItNode) (locks : List Text) (s t : State)
      → zoo_get_children (master_path Z context) s ≡ (zok, locks, t)
      → let current = get_sequence_number (or_empty context.lock_name) in
        (first_of_all current locks ≡ true
          → determine_master_write Z context s ≡ out zok (set_acquired true context) t)
        × (first_of_all current locks ≡ false
            → (c : Code) × (u : State) × (determine_master_write Z context s
                ≡ out c (set_acquired false context) u))
  unfolding determine_master_write
  determine_master_write-first context locks s t e =
      let current = get_sequence_number (or_empty context.lock_name) in
      let a = scan_all current locks (scan_start current) in
      let order = scan_all-min current locks (scan_start current) (omega arith) in
      let same : (current == current) ≡ true = ground arith in
      (
        λ h. rw e ((decide-acquired context current a t).0 (order ∙ rw (same, h))),
        λ h. rw e ((decide-acquired context current a t).1 (order ∙ rw (same, h))),
      )
