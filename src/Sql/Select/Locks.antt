-- ===== src/Sql/Select/Locks.antt =====
-- query_select_named_range for an edit: the locks of all files come before the threads.
use b_project.Base.{
  ◌≡◌, refl, ap, subst, Bool, true, false, Option, none, some, List, [], ◌∷◌, Bool-cases, inl, inr,
  arith,
}
use mathlib.Core.Option.{some-injective}
use b_project.Base.Text.{Text}
use b_project.Range.{RangeFile, Range, files}
use b_project.Sql.{Conn, calls, txn_start, txn_commit, ◌>>◌}
use b_project.Sql.Select.{
  Scanned, scanned, failed, wild_read, Locked, NamedRange, lock_files, prepared, finish, used_files,
  after_locks, after_scan, scan_from, query_select_named_range,
}

module _ {W : Type 0} (lock_intervals : RangeFile → W → Locked W)
    (prepare : Range → W → Bool × W) where
  -- Every file in its turn got all its locks.
  abbrev EveryLock : List RangeFile → W → Type 0
  EveryLock [] w = Unit
  EveryLock (f ∷ fs) w = ((lock_intervals f w).all ≡ true) × EveryLock fs (lock_intervals f w).world

  lock_files-EveryLock :
      (fs : List RangeFile) (w : W)
      → (lock_files lock_intervals prepare fs w).all ≡ true
      → EveryLock fs w
  unfolding lock_files
  lock_files-EveryLock [] w h = tt
  lock_files-EveryLock (f ∷ fs) w h = elim (Bool-cases (lock_intervals f w).all) [
    | inl e ↦ (e, lock_files-EveryLock fs _ (rw e at h))
    | inr n ↦ absurd (ground (arith, n, h))
  ]

  -- What stands behind a call that returns 0: a range that was read, whose files were all locked and
  -- then edited.
  abbrev pub Edited : W → NamedRange W → Type 0
  Edited w n =
      (r : Range) × EveryLock (files r) w
      × (n.range
          ≡ used_files lock_intervals prepare r
              (lock_files lock_intervals prepare (files r) w).files)
      × (prepare n.range (lock_files lock_intervals prepare (files r) w).world ≡ (true, n.world))

  prepared-lem :
      (r : Range) (c : Conn) (p : Bool × W)
      → (prepared lock_intervals prepare r c p).ok ≡ true
      → p ≡ (true, (prepared lock_intervals prepare r c p).world)
  prepared-lem r c (true, w) h = refl
  prepared-lem r c (false, w) h = absurd (cc)

  finish-prepare :
      (r : Range) (w : W) (o : Option (Unit {0}) × Conn)
      → let n = finish lock_intervals prepare true r w o in
        n.ok ≡ true → (n.range ≡ r) × (prepare n.range w ≡ (true, n.world))
  finish-prepare r w (none, c) h = absurd (cc)
  finish-prepare r w (some _, c) h = (refl, prepared-lem r c (prepare r w) h)

  after_locks-Edited :
      (r : Range) (w : W) (c : Conn)
      → let n =
          after_locks lock_intervals prepare r c (lock_files lock_intervals prepare (files r) w) in
        n.ok ≡ true → Edited w n
  after_locks-Edited r w c h =
      let l = lock_files lock_intervals prepare (files r) w in
      elim (Bool-cases l.all) [
        | inl e ↦
            let done =
              finish-prepare (used_files lock_intervals prepare r l.files) l.world (txn_commit c)
                (rw e at h) in
            rw e (r, lock_files-EveryLock (files r) w e, done.0, done.1)
        | inr n ↦ absurd (ground (arith, n, h))
      ]

  not_ended : (m n : NamedRange W) → some m ≡ some n → m.ok ≡ false → n.ok ≡ true → ⊥
  not_ended m n e f t =
      let same : m.ok ≡ n.ok = ap (λ (x : NamedRange W). x.ok) (some-injective m n e) in cc

  after_scan-Edited :
      (w : W) (sc : Scanned) (n : NamedRange W)
      → after_scan lock_intervals prepare true w sc ≡ some n
      → n.ok ≡ true
      → Edited w n
  unfolding after_scan
  after_scan-Edited w wild_read n e h = absurd (cc)
  after_scan-Edited w (failed r c) n e h = absurd (not_ended _ n e refl h)
  after_scan-Edited w (scanned r c) n e h =
      let same = some-injective _ n e in
      subst (λ n. n.ok ≡ true → Edited w n) same (after_locks-Edited r w c) h

  module _ (dup alloc : Bool) (junk : RangeFile) where
    scan_from-Edited :
        (wanted : List Text) (name : Text) (r : Range) (w : W) (o : Option (Unit {0}) × Conn)
        (n : NamedRange W)
        → scan_from lock_intervals prepare dup alloc junk true wanted name r w o ≡ some n
        → n.ok ≡ true
        → Edited w n
    scan_from-Edited wanted name r w (none, c) n e h = absurd (not_ended _ n e refl h)
    scan_from-Edited wanted name r w (some _, c) n e h = after_scan-Edited w _ n e h

    -- Whatever the server and ZooKeeper answer: if the call for an edit returns 0, then zk_lock_intervals
    -- gave all the locks of every file of the range in its turn, and only then the threads were prepared,
    -- once, on the range with these files.
    pub query_select_named_range-Edited :
        (wanted : List Text) (name : Text) (r : Range) (c : Conn) (w : W) (n : NamedRange W)
        → query_select_named_range lock_intervals prepare dup alloc junk true wanted name r c w
          ≡ some n
        → n.ok ≡ true
        → Edited w n
    unfolding query_select_named_range
    query_select_named_range-Edited wanted name r c w n e h =
        scan_from-Edited wanted name r w ((txn_start >> calls 6) c) n e h
