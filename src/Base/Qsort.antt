-- ===== src/Base/Qsort.antt =====
-- qsort, as a stable sort: what the program's comparisons call equal stays in its order.
use Prim.Native.Nat.{ℕ, ◌≤◌, compare, Ordering, lt, eq, gt}
use mathlib.Core.Path.{◌≡◌, refl, ap, ◌∙◌}
use mathlib.Core.List.{List, [], ◌∷◌}
use native.Mathlib.Omega.{arith}
use b_project.Base.Tests.{◌==◌, if◌then◌else◌}
use b_project.Base.Lists.{All}

-- A choice by the sign of a comparison.
abbrev pub by_sign {ℓ} : {B : Type ℓ} → Ordering → B → B → B → B
by_sign lt negative zero_ positive = negative
by_sign eq negative zero_ positive = zero_
by_sign gt negative zero_ positive = positive

module _ {ℓ} {A : Type ℓ} (cmp : A → A → Ordering) where
  -- In front of what is equal or larger.
  unfoldable pub sorted_insert : A → List A → List A
  sorted_insert x [] = x ∷ []
  sorted_insert x (y ∷ ys) = by_sign (cmp x y) (x ∷ y ∷ ys) (x ∷ y ∷ ys) (y ∷ sorted_insert x ys)

  unfoldable pub qsort : List A → List A
  unfolding sorted_insert
  qsort [] = []
  qsort (x ∷ xs) = sorted_insert x (qsort xs)

-- The order of a key.
abbrev pub by_key {ℓ} : {A : Type ℓ} → (A → ℕ) → A → A → Ordering
by_key key a b = compare (key a) (key b)

module _ {ℓ} {A : Type ℓ} (key : A → ℕ) where
  abbrev pub IsSorted : List A → Type 0
  IsSorted [] = Unit
  IsSorted (x ∷ xs) = All (λ y. key x ≤ key y) xs × IsSorted xs

  -- The elements with a given key, in their order.
  abbrev pub with_key : ℕ → List A → List A
  with_key k [] = []
  with_key k (x ∷ xs) = if key x == k then x ∷ with_key k xs else with_key k xs

  pub All-weaken :
      (m n : ℕ) (xs : List A) → m ≤ n → All (λ y. n ≤ key y) xs → All (λ y. m ≤ key y) xs
  All-weaken m n [] h a = tt
  All-weaken m n (x ∷ xs) h (a, as') = (omega arith, All-weaken m n xs h as')

  All-sorted_insert :
      (m : ℕ) (x : A) (xs : List A)
      → m ≤ key x
      → All (λ y. m ≤ key y) xs
      → All (λ y. m ≤ key y) (sorted_insert (by_key key) x xs)
  unfolding sorted_insert
  All-sorted_insert m x [] h a = (h, tt)
  All-sorted_insert m x (y ∷ ys) h (a, as') = ground (arith, All-sorted_insert m x ys h as')

  sorted_insert-IsSorted :
      (x : A) (xs : List A) → IsSorted xs → IsSorted (sorted_insert (by_key key) x xs)
  unfolding sorted_insert
  sorted_insert-IsSorted x [] s = (tt, tt)
  sorted_insert-IsSorted x (y ∷ ys) (a, s) = ground (
    arith,
    sorted_insert-IsSorted x ys s,
    All-sorted_insert (key y) x ys,
    All-weaken (key x) (key y) ys,
  )

  pub qsort-IsSorted : (xs : List A) → IsSorted (qsort (by_key key) xs)
  unfolding qsort
  qsort-IsSorted [] = tt
  qsort-IsSorted (x ∷ xs) = sorted_insert-IsSorted x (qsort (by_key key) xs) (qsort-IsSorted xs)

  with_key-sorted_insert :
      (k : ℕ) (x : A) (xs : List A)
      → with_key k (sorted_insert (by_key key) x xs) ≡ with_key k (x ∷ xs)
  unfolding sorted_insert
  with_key-sorted_insert k x [] = refl
  with_key-sorted_insert k x (y ∷ ys) = ground (arith, with_key-sorted_insert k x ys)

  -- The sort keeps the elements of each key and their order.
  pub with_key-qsort : (k : ℕ) (xs : List A) → with_key k (qsort (by_key key) xs) ≡ with_key k xs
  unfolding qsort
  with_key-qsort k [] = refl
  with_key-qsort k (x ∷ xs) =
      with_key-sorted_insert k x (qsort (by_key key) xs)
      ∙ ap (λ ys. if key x == k then x ∷ ys else ys) (with_key-qsort k xs)

module _ {ℓ} {A : Type ℓ} {P : A → Type 0} {cmp cmp' : A → A → Ordering}
    (agree : (a b : A) → P a → P b → cmp a b ≡ cmp' a b) where
  All-insert : (x : A) (xs : List A) → P x → All P xs → All P (sorted_insert cmp x xs)
  unfolding sorted_insert
  All-insert x [] h hs = (h, tt)
  All-insert x (y ∷ ys) h (k, hs) = split (cmp x y) (h, (k, hs)) (k, All-insert x ys h hs)
    where
      split :
          (o : Ordering)
          → All P (x ∷ y ∷ ys)
          → All P (y ∷ sorted_insert cmp x ys)
          → All P (by_sign o (x ∷ y ∷ ys) (x ∷ y ∷ ys) (y ∷ sorted_insert cmp x ys))
      split lt a b = a
      split eq a b = a
      split gt a b = b

  pub All-qsort : (xs : List A) → All P xs → All P (qsort cmp xs)
  unfolding qsort
  All-qsort [] h = tt
  All-qsort (x ∷ xs) (h, hs) = All-insert x (qsort cmp xs) h (All-qsort xs hs)

  sorted_insert-agree :
      (x : A) (xs : List A) → P x → All P xs → sorted_insert cmp x xs ≡ sorted_insert cmp' x xs
  unfolding sorted_insert
  sorted_insert-agree x [] h hs = refl
  sorted_insert-agree x (y ∷ ys) h (k, hs) = rw (agree x y h k, sorted_insert-agree x ys h hs)

  pub qsort-agree : (xs : List A) → All P xs → qsort cmp xs ≡ qsort cmp' xs
  unfolding qsort
  qsort-agree [] h = refl
  qsort-agree (x ∷ xs) (h, hs) =
      sorted_insert-agree x (qsort cmp xs) h (All-qsort xs hs)
      ∙ ap (sorted_insert cmp' x) (qsort-agree xs hs)
