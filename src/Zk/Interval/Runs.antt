-- ===== src/Zk/Interval/Runs.antt =====
-- zkclient.c, _get_sorted_shifted_relevant_intervals: sorting and searching against a plain reading of
-- the list of locks.
use Prim.Native.Nat.{compare}
use b_project.Base.{ℕ, ◌^◌, ◌<◌, ◌≡◌, refl, List, [], ◌∷◌, ◌++◌, map, All, arith}
use b_project.Base.Text.{Text}
use b_project.Base.Qsort.{
  qsort, by_key, with_key, qsort-IsSorted, with_key-qsort, qsort-agree, All-qsort,
}
use b_project.Base.Bsearch.Finds.{bsearch-with_key, bsearch-agree}
use b_project.IntervalTree.{ItNode}
use b_project.Zk.Interval.{
  sign_of_difference, cmp_offset_id_func, scan_lock, sort_interval_locks_by_offset_id, locks_of_row,
  collect_locks,
}

-- The ids whose differences an int holds.
abbrev id_limit : ℕ
id_limit = 2 ^ 31

abbrev pub SmallId : ItNode → Type 0
SmallId n = n.id < id_limit

sign_of_difference-compare :
    (a b : ℕ) → a < id_limit → b < id_limit → sign_of_difference a b ≡ compare a b
unfolding sign_of_difference
sign_of_difference-compare a b h k = ground arith

-- The locks of the rows by a plain reading: of every row, in order, the locks whose names begin with its
-- id, in the order of the names.
unfoldable pub locks_in_order : List ItNode → List ItNode → List ItNode
locks_in_order locks [] = []
locks_in_order locks (row ∷ rows) =
    map (λ l. record row { sequence = l.sequence }) (with_key (λ n. n.id) row.id locks)
    ++ locks_in_order locks rows

abbrev node_id : ItNode → ℕ
node_id n = n.id

cmp_offset_id_func-compare :
    (a b : ItNode) → SmallId a → SmallId b → cmp_offset_id_func a b ≡ by_key node_id a b
unfolding cmp_offset_id_func
cmp_offset_id_func-compare a b h k = sign_of_difference-compare a.id b.id h k

locks_of_row-with_key :
    (locks : List ItNode) (row : ItNode)
    → All SmallId locks
    → SmallId row
    → locks_of_row (qsort cmp_offset_id_func locks) row
      ≡ map (λ l. record row { sequence = l.sequence }) (with_key (λ n. n.id) row.id locks)
unfolding locks_of_row
locks_of_row-with_key locks row h r =
    let sorted = qsort (by_key node_id) locks in
    let copies = map (λ (l : ItNode). record row { sequence = l.sequence }) in
    let e1 =
      qsort-agree {P = SmallId} {cmp = cmp_offset_id_func} {cmp' = by_key node_id}
        cmp_offset_id_func-compare locks h in
    let small =
      All-qsort {P = SmallId} {cmp = by_key node_id} {cmp' = by_key node_id} (λ a b p q. refl) locks
        h in
    let e2 =
      bsearch-agree {P = SmallId} {cmp = cmp_offset_id_func row} {cmp' = by_key node_id row}
        (λ a p. cmp_offset_id_func-compare row a r p) sorted small in
    let e3 = bsearch-with_key node_id row.id sorted (qsort-IsSorted node_id locks) in
    let e4 = with_key-qsort node_id row.id locks in rw (e1, e2, e3, e4)

-- For ids below 2^31 the locks that are collected, by sorting the names and by bsearch and a walk to both
-- sides for each row, are those of a plain reading.
pub collect_locks-in_order :
    (junk : ItNode) (names : List Text) (rows : List ItNode)
    → All SmallId (map (scan_lock junk) names)
    → All SmallId rows
    → collect_locks (sort_interval_locks_by_offset_id junk names) rows
      ≡ locks_in_order (map (scan_lock junk) names) rows
unfolding collect_locks sort_interval_locks_by_offset_id locks_in_order
collect_locks-in_order junk names [] h hs = refl
collect_locks-in_order junk names (row ∷ rows) h (r, hs) = rw (
  locks_of_row-with_key (map (scan_lock junk) names) row h r,
  collect_locks-in_order junk names rows h hs,
)
