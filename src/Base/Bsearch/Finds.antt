-- ===== src/Base/Bsearch/Finds.antt =====
-- bsearch on a sorted array finds an element with the key if there is one, and the run round it holds all
-- of them.
use b_project.Base.Tests.{ltb, ◌==◌, Bool-cases, Option-cases}
use b_project.Base.Lists.{All, length, get_elem?, drop, get_elem?_inside}
use b_project.Base.Qsort.{IsSorted, with_key, All-weaken, by_sign}
use Prim.Native.Nat.{ℕ, zero, suc, ◌+◌, ◌/◌, ◌≤◌, ◌<◌, compare, Ordering, lt, eq, gt}
use mathlib.Core.Path.{◌≡◌, refl, ap, ◌∙◌, sym, subst}
use mathlib.Core.Bool.{false}
use mathlib.Core.Option.{Option, none, some}
use mathlib.Core.List.{List, [], ◌∷◌}
use mathlib.Core.Logic.{inl, inr}
use native.Mathlib.Omega.{arith}
use b_project.Base.Bsearch.{
  probe, bsearch_loop, bsearch, run_start, run_from, count_lt, count_eq, count_lt-zero, run_at,
  Side, sides, compare-cases,
}

order-lt : (a b : ℕ) (o : Ordering) → compare a b ≡ o → o ≡ lt → a < b
order-lt a b o e f = ground arith

order-eq : (a b : ℕ) (o : Ordering) → compare a b ≡ o → o ≡ eq → a ≡ b
order-eq a b o e f = ground arith

order-gt : (a b : ℕ) (o : Ordering) → compare a b ≡ o → o ≡ gt → b < a
order-gt a b o e f = ground arith

-- Of an array with p elements below the key and then q with it.
abbrev pub Found : ℕ → ℕ → Option ℕ → Type 0
Found p q none = q ≡ 0
Found p q (some i) = (p ≤ i) × (i < p + q)

pub counts_le_length {ℓ} :
    {A : Type ℓ} (key : A → ℕ) (k : ℕ) (xs : List A)
    → count_lt key k xs + count_eq key k xs ≤ length xs
unfolding count_lt count_eq
counts_le_length key k [] = omega arith
counts_le_length key k (x ∷ xs) = ground (arith, counts_le_length key k xs)

module _ {ℓ} {A : Type ℓ} (key : A → ℕ) (k : ℕ) (xs : List A) (sorted : IsSorted key xs) where
  probe-Found :
      (a : A) (i p q : ℕ) (below above : Option ℕ)
      → Side key k p q i (some a)
      → (p + q ≤ i → Found p q below)
      → (i < p → Found p q above)
      → Found p q (probe (λ a. compare k (key a)) xs i below above (some a))
  probe-Found a i p q below above (s1, s2, s3) b c =
      picked (compare k (key a)) (order-lt k (key a) _ refl) (order-eq k (key a) _ refl)
        (order-gt k (key a) _ refl)
    where
      picked :
          (o : Ordering)
          → (o ≡ lt → k < key a)
          → (o ≡ eq → k ≡ key a)
          → (o ≡ gt → key a < k)
          → Found p q (by_sign o below (some i) above)
      picked lt hl he hg = let less = hl refl in b (ground arith)
      picked eq hl he hg = let same = he refl in (ground arith, ground arith)
      picked gt hl he hg = let more = hg refl in c (ground arith)

  pub element_inside :
      (i : ℕ)
      → i < length xs
      → (a : A) × (get_elem? xs i ≡ some a)
        × Side key k (count_lt key k xs) (count_eq key k xs) i (some a)
  element_inside i h =
      let (a, e) = get_elem?_inside xs i h in
      (
        a,
        e,
        subst (Side key k (count_lt key k xs) (count_eq key k xs) i) e (sides key k xs i sorted),
      )

  abbrev cmp : A → Ordering
  cmp a = compare k (key a)

  bsearch_loop-Found :
      (rounds l u : ℕ)
      → u < l + rounds
      → u ≤ length xs
      → l ≤ count_lt key k xs
      → count_lt key k xs + count_eq key k xs ≤ u
      → Found (count_lt key k xs) (count_eq key k xs) (bsearch_loop cmp xs rounds l u)
  unfolding bsearch_loop
  bsearch_loop-Found zero l u r inside hl hu = ground arith
  bsearch_loop-Found (suc rounds) l u r inside hl hu = elim (Bool-cases (ltb l u)) [
    | inr done ↦ rw done (ground arith)
    | inl more ↦
        let i = (l + u) / 2 in
        let lu : l < u = ground arith in
        let (a, e, side) = element_inside i (omega arith) in
        rw (more, e)
          (probe-Found a i (count_lt key k xs) (count_eq key k xs) (bsearch_loop cmp xs rounds l i)
            (bsearch_loop cmp xs rounds (i + 1) u) side
            (λ h. bsearch_loop-Found rounds l i (omega arith) (omega arith) hl h)
            (λ h. bsearch_loop-Found rounds (i + 1) u (omega arith) inside (omega arith) hu))
  ]

  counts-le : count_lt key k xs + count_eq key k xs ≤ length xs
  counts-le = counts_le_length key k xs

  pub bsearch-Found : Found (count_lt key k xs) (count_eq key k xs) (bsearch cmp xs)
  unfolding bsearch
  bsearch-Found =
      bsearch_loop-Found (length xs + 1) 0 (length xs) (omega arith) (omega arith) (omega arith)
        counts-le

  -- From an index of the run, the way back ends at its start.
  run_start-count_lt :
      (i : ℕ)
      → i < length xs
      → count_lt key k xs ≤ i
      → i < count_lt key k xs + count_eq key k xs
      → run_start key k xs i ≡ count_lt key k xs
  unfolding run_start
  run_start-count_lt zero h l u = omega arith
  run_start-count_lt (suc i) h l u =
      let (a, e, (s1, s2, s3)) = element_inside i (omega arith) in
      elim (Bool-cases (key a == k)) [
        | inl same ↦ rw (e, same) (run_start-count_lt i (omega arith) (ground arith) (omega arith))
        | inr other ↦ rw (e, other) (ground arith)
      ]

module _ {ℓ} {A : Type ℓ} (key : A → ℕ) (k : ℕ) where
  none_below : (xs : List A) → All (λ y. suc k ≤ key y) xs → with_key key k xs ≡ []
  none_below [] h = refl
  none_below (x ∷ xs) (h, hs) =
      let e : (key x == k) ≡ false = ground arith in rw e (none_below xs hs)

  run_from-with_key :
      (xs : List A)
      → IsSorted key xs
      → run_from key k (drop (count_lt key k xs) xs) ≡ with_key key k xs
  unfolding run_from count_lt
  run_from-with_key [] s = refl
  run_from-with_key (x ∷ xs) (h, s) =
      let ih = run_from-with_key xs s in
      elim (compare-cases (key x) k) [
        | inl l ↦ rw (l.0, l.1) ih
        | inr (inl e) ↦
            let z = count_lt-zero key k xs (All-weaken key k (key x) xs (omega arith) h) in
            let ih' : run_from key k xs ≡ with_key key k xs =
              ap (λ n. run_from key k (drop n xs)) (sym z) ∙ ih in
            rw (e.0, z, e.1) (ap (◌∷◌ x) ih')
        | inr (inr g) ↦
            let z = count_lt-zero key k xs (All-weaken key k (key x) xs (omega arith) h) in
            let w = none_below xs (All-weaken key (suc k) (key x) xs (omega arith) h) in
            rw (g.0, z, g.1) (sym w)
      ]

  count_eq-with_key : (xs : List A) → count_eq key k xs ≡ 0 → with_key key k xs ≡ []
  unfolding count_eq
  count_eq-with_key [] h = refl
  count_eq-with_key (x ∷ xs) h = elim (Bool-cases (key x == k)) [
    | inl e ↦ absurd (ground arith)
    | inr e ↦ rw e (count_eq-with_key xs (rw e at h))
  ]

  run_at-with_key :
      (xs : List A) (r : Option ℕ)
      → IsSorted key xs
      → Found (count_lt key k xs) (count_eq key k xs) r
      → run_at key k xs r ≡ with_key key k xs
  run_at-with_key xs none s f = sym (count_eq-with_key xs f)
  run_at-with_key xs (some i) s (f, g) =
      let inside = counts_le_length key k xs in
      rw (run_start-count_lt key k xs s i (omega arith) f g) (run_from-with_key xs s)

  -- The run that bsearch leads to holds all elements with the key, in their order.
  pub bsearch-with_key :
      (xs : List A)
      → IsSorted key xs
      → run_at key k xs (bsearch (λ a. compare k (key a)) xs) ≡ with_key key k xs
  bsearch-with_key xs s = run_at-with_key xs _ s (bsearch-Found key k xs s)

module _ {ℓ} {A : Type ℓ} {P : A → Type 0} {cmp cmp' : A → Ordering}
    (agree : (a : A) → P a → cmp a ≡ cmp' a) where
  All-get_elem? : (xs : List A) (i : ℕ) (a : A) → All P xs → get_elem? xs i ≡ some a → P a
  All-get_elem? [] i a h e = absurd (cc)
  All-get_elem? (x ∷ xs) zero a (h, hs) e = subst P (cc) h
  All-get_elem? (x ∷ xs) (suc i) a (h, hs) e = All-get_elem? xs i a hs e

  bsearch_loop-agree :
      (xs : List A) (rounds l u : ℕ)
      → All P xs
      → bsearch_loop cmp xs rounds l u ≡ bsearch_loop cmp' xs rounds l u
  unfolding bsearch_loop
  bsearch_loop-agree xs zero l u h = refl
  bsearch_loop-agree xs (suc rounds) l u h =
      let i = (l + u) / 2 in
      let e1 = bsearch_loop-agree xs rounds l i h in
      let e2 = bsearch_loop-agree xs rounds (i + 1) u h in
      elim (Option-cases (get_elem? xs i)) [
        | inl n ↦ rw n
        | inr (a, e) ↦ rw (e, e1, e2, agree a (All-get_elem? xs i a h e))
      ]

  pub bsearch-agree : (xs : List A) → All P xs → bsearch cmp xs ≡ bsearch cmp' xs
  unfolding bsearch
  bsearch-agree xs h = bsearch_loop-agree xs (length xs + 1) 0 (length xs) h
