-- ===== src/Zk/Interval/First.antt =====
-- zkclient.c, _zk_determine_interval_lock_eligibility: who gets an interval lock.
use Prim.Native.Nat.{Ordering, lt, eq, gt}
use b_project.Base.{
  ◌⊎◌, get_elem?, ℕ, zero, suc, ◌≤◌, ◌<◌, ◌≡◌, refl, ap, ◌∙◌, Bool, true, false, ◌&&◌, ◌||◌, Option,
  none, some, List, [], ◌∷◌, ◌++◌, map, All, leb, ◌==◌, Bool-cases, inl, inr, arith,
}
use b_project.Base.Text.{Text, codes}
use b_project.Base.Qsort.{qsort, sorted_insert, by_sign, IsSorted, qsort-IsSorted}
use b_project.Base.Bsearch.{count_lt, count_eq}
use b_project.Base.Bsearch.Finds.{Found, bsearch-Found, element_inside, counts_le_length}
use b_project.IntervalTree.{ItNode}
use b_project.Zk.{Zookeeper, zok, out}
use b_project.Zk.Names.{get_sequence_number}
use b_project.Zk.Master.{or_empty, set_acquired}
use b_project.Zk.Interval.{
  scan_lock, cmp_sequence_func, Memory, before, ask_for, decide_interval, relevant_intervals,
  determine_interval,
}
use b_project.Zk.Interval.Runs.{SmallId, locks_in_order, collect_locks-in_order}

abbrev seq : ItNode → ℕ
seq n = n.sequence

-- No lock of the list has a smaller sequence number; and one has this number.
abbrev pub none_before : ℕ → List ItNode → Bool
none_before current [] = true
none_before current (l ∷ locks) = leb current l.sequence && none_before current locks

abbrev pub holds_own : ℕ → List ItNode → Bool
holds_own current [] = false
holds_own current (l ∷ locks) = l.sequence == current || holds_own current locks

-- The lock is one of the list.
abbrev pub Among : ItNode → List ItNode → Type 0
Among w [] = ⊥
Among w (l ∷ locks) = (w ≡ l) ⊎ Among w locks

Among-swap : (w x y : ItNode) (ys : List ItNode) → Among w (y ∷ x ∷ ys) → Among w (x ∷ y ∷ ys)
Among-swap w x y ys (inl e) = inr (inl e)
Among-swap w x y ys (inr (inl e)) = inl e
Among-swap w x y ys (inr (inr h)) = inr (inr h)

Among-by_sign :
    (w x y : ItNode) (ys rest : List ItNode) (o : Ordering)
    → (Among w rest → Among w (x ∷ ys))
    → Among w (by_sign o (x ∷ y ∷ ys) (x ∷ y ∷ ys) (y ∷ rest))
    → Among w (x ∷ y ∷ ys)
Among-by_sign w x y ys rest lt k h = h
Among-by_sign w x y ys rest eq k h = h
Among-by_sign w x y ys rest gt k (inl e) = inr (inl e)
Among-by_sign w x y ys rest gt k (inr h) = Among-swap w x y ys (inr (k h))

Among-insert :
    (w x : ItNode) (xs : List ItNode)
    → Among w (sorted_insert cmp_sequence_func x xs)
    → Among w (x ∷ xs)
unfolding sorted_insert
Among-insert w x [] h = h
Among-insert w x (y ∷ ys) h =
    Among-by_sign w x y ys (sorted_insert cmp_sequence_func x ys) (cmp_sequence_func x y)
      (Among-insert w x ys) h

Among-rest :
    (w x : ItNode) (xs ys : List ItNode)
    → (Among w xs → Among w ys)
    → Among w (x ∷ xs)
    → Among w (x ∷ ys)
Among-rest w x xs ys k (inl e) = inl e
Among-rest w x xs ys k (inr h) = inr (k h)

Among-qsort : (w : ItNode) (xs : List ItNode) → Among w (qsort cmp_sequence_func xs) → Among w xs
unfolding qsort
Among-qsort w [] h = h
Among-qsort w (x ∷ xs) h =
    Among-rest w x (qsort cmp_sequence_func xs) xs (Among-qsort w xs)
      (Among-insert w x (qsort cmp_sequence_func xs) h)

Among-get_elem? : (w : ItNode) (xs : List ItNode) (i : ℕ) → get_elem? xs i ≡ some w → Among w xs
Among-get_elem? w [] i h = absurd (cc)
Among-get_elem? w (x ∷ xs) zero h = inl (cc)
Among-get_elem? w (x ∷ xs) (suc i) h = inr (Among-get_elem? w xs i h)

none_before-insert :
    (k : ℕ) (x : ItNode) (xs : List ItNode)
    → none_before k (sorted_insert cmp_sequence_func x xs) ≡ none_before k (x ∷ xs)
unfolding sorted_insert
none_before-insert k x [] = refl
none_before-insert k x (y ∷ ys) = ground (arith, none_before-insert k x ys)

none_before-qsort :
    (k : ℕ) (xs : List ItNode) → none_before k (qsort cmp_sequence_func xs) ≡ none_before k xs
unfolding qsort
none_before-qsort k [] = refl
none_before-qsort k (x ∷ xs) =
    none_before-insert k x (qsort cmp_sequence_func xs)
    ∙ ap (λ b. leb k x.sequence && b) (none_before-qsort k xs)

holds_own-insert :
    (k : ℕ) (x : ItNode) (xs : List ItNode)
    → holds_own k (sorted_insert cmp_sequence_func x xs) ≡ holds_own k (x ∷ xs)
unfolding sorted_insert
holds_own-insert k x [] = refl
holds_own-insert k x (y ∷ ys) = ground (arith, holds_own-insert k x ys)

holds_own-qsort :
    (k : ℕ) (xs : List ItNode) → holds_own k (qsort cmp_sequence_func xs) ≡ holds_own k xs
unfolding qsort
holds_own-qsort k [] = refl
holds_own-qsort k (x ∷ xs) =
    holds_own-insert k x (qsort cmp_sequence_func xs)
    ∙ ap (λ b. x.sequence == k || b) (holds_own-qsort k xs)

none_before-All :
    (k m : ℕ) (xs : List ItNode) → k ≤ m → All (λ y. m ≤ seq y) xs → none_before k xs ≡ true
none_before-All k m [] h a = refl
none_before-All k m (x ∷ xs) h (a, as') = ground (arith, none_before-All k m xs h as')

own-le : (k m : ℕ) (xs : List ItNode) → All (λ y. m ≤ seq y) xs → holds_own k xs ≡ true → m ≤ k
own-le k m [] a h = absurd (cc)
own-le k m (x ∷ xs) (a, as') h = ground (arith, own-le k m xs as')

own-count_eq : (k : ℕ) (xs : List ItNode) → holds_own k xs ≡ true → 0 < count_eq seq k xs
unfolding count_eq
own-count_eq k [] h = absurd (cc)
own-count_eq k (x ∷ xs) h = ground (arith, own-count_eq k xs)

-- In a sorted array that holds the number, the first has it exactly if no number is smaller.
first-none_before :
    (k : ℕ) (l : ItNode) (ls : List ItNode)
    → IsSorted seq (l ∷ ls)
    → holds_own k (l ∷ ls) ≡ true
    → none_before k (l ∷ ls) ≡ (l.sequence == k)
first-none_before k l ls (a, s) h = elim (Bool-cases (l.sequence == k)) [
  | inl e ↦
      let b : leb k l.sequence ≡ true = ground arith in
      rw (e, b) (none_before-All k (seq l) ls (ground arith) a)
  | inr n ↦
      let own : holds_own k ls ≡ true = rw n at h in
      let le = own-le k (seq l) ls a own in
      let b : leb k l.sequence ≡ false = ground arith in rw (n, b)
]

-- The element in front of the one that bsearch finds.
front_of_own :
    (k : ℕ) (l : ItNode) (ls : List ItNode) (r : Option ℕ)
    → IsSorted seq (l ∷ ls)
    → (l.sequence == k) ≡ false
    → 0 < count_eq seq k (l ∷ ls)
    → Found (count_lt seq k (l ∷ ls)) (count_eq seq k (l ∷ ls)) r
    → (w : ItNode) × (before (l ∷ ls) r ≡ some w) × (w.sequence ≤ k) × Among w (l ∷ ls)
front_of_own k l ls none s n q f = absurd (omega arith)
front_of_own k l ls (some zero) s n q (f, g) =
    let inside = counts_le_length seq k (l ∷ ls) in
    let (a, e, (s1, s2, s3)) = element_inside seq k (l ∷ ls) s 0 (omega arith) in
    absurd (ground arith)
front_of_own k l ls (some (suc i)) s n q (f, g) =
    let inside = counts_le_length seq k (l ∷ ls) in
    let (w, e, (s1, s2, s3)) = element_inside seq k (l ∷ ls) s i (omega arith) in
    (w, e, ground arith, Among-get_elem? w (l ∷ ls) i e)

module _ (Z : Zookeeper) where
  open Z use {State, zoo_get_children}

  -- How step 3 ends for a list of relevant locks.
  Decided : ItNode → ℕ → List ItNode → Option (List ItNode) → State → Type 0
  Decided context current locks sorted t =
      (none_before current locks ≡ true
        → decide_interval Z context current sorted t ≡ out zok (set_acquired true context) t)
      × (none_before current locks ≡ false
          → (w : ItNode) × (w.sequence ≤ current)
            × Among w locks
            × (decide_interval Z context current sorted t ≡ ask_for Z context (some w) t))

  decide_interval-Decided :
      (context : ItNode) (current : ℕ) (sorted : List ItNode) (t : State)
      → IsSorted seq sorted
      → holds_own current sorted ≡ true
      → Decided context current sorted (some sorted) t
  unfolding Decided decide_interval
  decide_interval-Decided context current [] t s own = absurd (cc)
  decide_interval-Decided context current (l ∷ ls) t s own =
      let same = first-none_before current l ls s own in
      let key = record context { sequence = current } in
      let found = bsearch-Found seq current (l ∷ ls) s in
      elim (Bool-cases (l.sequence == current)) [
        | inl e ↦ (λ h. rw e, λ h. absurd (ground (arith, same, e, h)))
        | inr n ↦
            let (w, e, le, among) =
              front_of_own current l ls _ s n (own-count_eq current (l ∷ ls) own) found in
            (λ h. absurd (ground (arith, same, n, h)), λ h. (w, le, among, rw (n, e)))
      ]

  module _ (select : Text → ℕ → Option (List ItNode)) (m : Memory) where
    -- With the children of the interval directory and the conflicting rows read, with memory for all of
    -- them, ids below 2^31 and the context's own lock among the relevant ones (the locks of conflicting
    -- rows), the lock is acquired exactly if no relevant lock has a smaller sequence number; if one has,
    -- the context is marked as not having the lock and ZooKeeper is asked for the node of a relevant lock
    -- that is not behind the context's.
    pub determine_interval-first :
        (context : ItNode) (name : Text) (names : List Text) (rows : List ItNode) (s t : State)
        → zoo_get_children (or_empty context.file_path ++ codes "/interval") s
          ≡ (zok, name ∷ names, t)
        → m.nodes ≡ true
        → m.copies ≡ true
        → select (or_empty context.file_path) context.id ≡ some rows
        → All SmallId (map (scan_lock m.junk) (name ∷ names))
        → All SmallId rows
        → let current = get_sequence_number (or_empty context.lock_name) in
          let relevant = locks_in_order (map (scan_lock m.junk) (name ∷ names)) rows in
          holds_own current relevant ≡ true
          → (none_before current relevant ≡ true
              → determine_interval Z select m context s ≡ out zok (set_acquired true context) t)
            × (none_before current relevant ≡ false
                → (w : ItNode) × (w.sequence ≤ current)
                  × Among w relevant
                  × (determine_interval Z select m context s ≡ ask_for Z context (some w) t))
    unfolding determine_interval relevant_intervals Decided
    determine_interval-first context name names rows s t e1 e2 e3 e4 small srows own =
        let current = get_sequence_number (or_empty context.lock_name) in
        let relevant = locks_in_order (map (scan_lock m.junk) (name ∷ names)) rows in
        let plain = collect_locks-in_order m.junk (name ∷ names) rows small srows in
        let sorted = qsort cmp_sequence_func relevant in
        let d =
          decide_interval-Decided context current sorted t (qsort-IsSorted seq relevant)
            (holds_own-qsort current relevant ∙ own) in
        let same = none_before-qsort current relevant in
        rw (e1, e2, e3, e4, plain)
          (
            λ h. d.0 (same ∙ h),
            λ h.
                let (w, le, among, run) = d.1 (same ∙ h) in
                (w, le, Among-qsort w relevant among, run),
          )
