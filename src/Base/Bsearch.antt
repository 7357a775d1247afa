-- ===== src/Base/Bsearch.antt =====
-- bsearch, by halving, and the run of equal elements round the index that it gives.
pub mod Finds
use Prim.Native.Nat.{ℕ, zero, suc, ◌+◌, ◌-◌, ◌/◌, ◌≤◌, ◌<◌, compare, Ordering, lt, eq, gt}
use mathlib.Core.Path.{◌≡◌, refl, ap, ◌∙◌, sym}
use mathlib.Core.Bool.{Bool, true, false}
use mathlib.Core.Option.{Option, none, some}
use mathlib.Core.List.{List, [], ◌∷◌}
use mathlib.Core.Logic.{◌⊎◌, inl, inr}
use native.Mathlib.Omega.{arith}
use b_project.Base.Tests.{ltb, leb, ◌==◌, if◌then◌else◌, Bool-cases}
use b_project.Base.Lists.{All, length, get_elem?, drop}
use b_project.Base.Qsort.{IsSorted, with_key, All-weaken, by_sign}

module _ {ℓ} {A : Type ℓ} (cmp : A → Ordering) (xs : List A) where
  -- Where the search goes on from the middle: `cmp` compares the key with an element.
  abbrev pub probe : ℕ → Option ℕ → Option ℕ → Option A → Option ℕ
  probe i below above none = none
  probe i below above (some a) = by_sign (cmp a) below (some i) above

  -- while (l < u), the rounds counted down.
  unfoldable pub bsearch_loop : ℕ → ℕ → ℕ → Option ℕ
  bsearch_loop zero l u = none
  bsearch_loop (suc rounds) l u =
      let i = (l + u) / 2 in
      let below = bsearch_loop rounds l i in
      let above = bsearch_loop rounds (i + 1) u in
      let found = probe i below above (get_elem? xs i) in if ltb l u then found else none

  -- The range is halved in each round, so it needs no more rounds than there are elements.
  unfoldable pub bsearch : Option ℕ
  unfolding bsearch_loop
  bsearch = bsearch_loop (length xs + 1) 0 (length xs)

compare-cases :
    (a b : ℕ)
    → ((ltb a b ≡ true) × ((a == b) ≡ false) × (a < b))
      ⊎ (((ltb a b ≡ false) × ((a == b) ≡ true) × (a ≡ b))
          ⊎ ((ltb a b ≡ false) × ((a == b) ≡ false) × (b < a)))
compare-cases a b = elim (Bool-cases (ltb a b)) [
  | inl l ↦ inl (l, ground arith, ground arith)
  | inr g ↦ elim (Bool-cases (a == b)) [
    | inl e ↦ inr (inl (g, e, ground arith))
    | inr n ↦ inr (inr (g, n, ground arith))
  ]
]

module _ {ℓ} {A : Type ℓ} (key : A → ℕ) (k : ℕ) where
  abbrev has_key : Option A → Bool
  has_key none = false
  has_key (some a) = key a == k

  -- while (found > array && (found - 1)->key == k) found--
  unfoldable pub run_start : List A → ℕ → ℕ
  run_start xs zero = zero
  run_start xs (suc i) =
      let back = run_start xs i in if has_key (get_elem? xs i) then back else suc i

  -- The elements from here on with the key.
  unfoldable pub run_from : List A → List A
  run_from [] = []
  run_from (x ∷ xs) = if key x == k then x ∷ run_from xs else []

  -- The run round the index that bsearch gives; none for NULL.
  abbrev pub run_at : List A → Option ℕ → List A
  run_at xs none = []
  run_at xs (some i) = run_from (drop (run_start xs i) xs)

  -- How many elements have a smaller key, and how many the key.
  unfoldable pub count_lt : List A → ℕ
  count_lt [] = 0
  count_lt (x ∷ xs) = if ltb (key x) k then suc (count_lt xs) else count_lt xs

  unfoldable pub count_eq : List A → ℕ
  count_eq [] = 0
  count_eq (x ∷ xs) = if key x == k then suc (count_eq xs) else count_eq xs

  count_lt-zero : (xs : List A) → All (λ y. k ≤ key y) xs → count_lt xs ≡ 0
  unfolding count_lt
  count_lt-zero [] h = refl
  count_lt-zero (x ∷ xs) h = ground (arith, count_lt-zero xs h.1)

  count_eq-zero : (xs : List A) → All (λ y. suc k ≤ key y) xs → count_eq xs ≡ 0
  unfolding count_eq
  count_eq-zero [] h = refl
  count_eq-zero (x ∷ xs) h = ground (arith, count_eq-zero xs h.1)

  -- Which side of the key an element of a sorted array is on, by its index.
  abbrev pub Side : ℕ → ℕ → ℕ → Option A → Type 0
  Side p q i none = Unit
  Side p q i (some a) =
      (i < p → key a < k) × (p ≤ i → i < p + q → key a ≡ k) × (p + q ≤ i → k < key a)

  Side-shift :
      (p q p' q' i : ℕ) (o : Option A)
      → Side p q i o
      → ((p' ≡ suc p) × (q' ≡ q))
        ⊎ (((p ≡ 0) × (p' ≡ 0) × (q' ≡ suc q)) ⊎ ((p ≡ 0) × (q ≡ 0) × (p' ≡ 0) × (q' ≡ 0)))
      → Side p' q' (suc i) o
  Side-shift p q p' q' i none s h = tt
  Side-shift p q p' q' i (some a) (s1, s2, s3) (inl h) =
      (λ l. s1 (omega arith), λ l m. s2 (omega arith) (omega arith), λ l. s3 (omega arith))
  Side-shift p q p' q' i (some a) (s1, s2, s3) (inr (inl h)) =
      (λ l. absurd (omega arith), λ l m. s2 (omega arith) (omega arith), λ l. s3 (omega arith))
  Side-shift p q p' q' i (some a) (s1, s2, s3) (inr (inr h)) =
      (λ l. absurd (omega arith), λ l m. absurd (omega arith), λ l. s3 (omega arith))

  pub sides :
      (xs : List A) (i : ℕ) → IsSorted key xs → Side (count_lt xs) (count_eq xs) i (get_elem? xs i)
  unfolding count_lt count_eq
  sides [] i s = tt
  sides (x ∷ xs) zero (h, s) = elim (compare-cases (key x) k) [
    | inl l ↦ rw (l.0, l.1) (λ m. l.2, λ m n. absurd (omega arith), λ m. absurd (omega arith))
    | inr (inl e) ↦
        let z = count_lt-zero xs (All-weaken key k (key x) xs (omega arith) h) in
        rw (e.0, e.1, z) (λ m. absurd (omega arith), λ m n. e.2, λ m. absurd (omega arith))
    | inr (inr g) ↦
        let z = count_lt-zero xs (All-weaken key k (key x) xs (omega arith) h) in
        let w = count_eq-zero xs (All-weaken key (suc k) (key x) xs (omega arith) h) in
        rw (g.0, g.1, z, w) (λ m. absurd (omega arith), λ m n. absurd (omega arith), λ m. g.2)
  ]
  sides (x ∷ xs) (suc i) (h, s) = elim (compare-cases (key x) k) [
    | inl l ↦
        rw (l.0, l.1) (Side-shift _ _ _ _ i (get_elem? xs i) (sides xs i s) (inl (refl, refl)))
    | inr (inl e) ↦
        let z = count_lt-zero xs (All-weaken key k (key x) xs (omega arith) h) in
        rw (e.0, e.1)
          (Side-shift _ _ _ _ i (get_elem? xs i) (sides xs i s) (inr (inl (z, z, refl))))
    | inr (inr g) ↦
        let z = count_lt-zero xs (All-weaken key k (key x) xs (omega arith) h) in
        let w = count_eq-zero xs (All-weaken key (suc k) (key x) xs (omega arith) h) in
        rw (g.0, g.1)
          (Side-shift _ _ _ _ i (get_elem? xs i) (sides xs i s) (inr (inr (z, w, z, w))))
  ]
