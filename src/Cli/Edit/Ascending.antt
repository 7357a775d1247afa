-- ===== src/Cli/Edit/Ascending.antt =====
-- opts in main.c, the modes -r and -w: the order of the names that are kept.
use Prim.Native.Nat.{Ordering, lt, eq, gt}
use b_project.Base.{
  ℕ, ◌≡◌, ◌≢◌, refl, ap, ◌∙◌, sym, subst, true, false, Option, none, some, List, [], ◌∷◌, map,
  length, leb, Bool-cases, inl, inr, ◌⊎◌, arith,
}
use b_project.Base.Text.{Text, str_eq, str_eq→eq, text_order}
use b_project.Base.Qsort.{qsort, sorted_insert}
use b_project.Cli.Edit.{p_strcmp, behind, remove_dups, distinct_sorted, distinct_files}

-- The sign of strcmp with its arguments in the other order.
abbrev flip : Ordering → Ordering
flip lt = gt
flip eq = eq
flip gt = lt

flip-text_order : (a b : Text) (o : Ordering) → flip (text_order a b o) ≡ text_order b a (flip o)
unfolding text_order
flip-text_order [] [] o = refl
flip-text_order [] (y ∷ ys) o = refl
flip-text_order (x ∷ xs) [] o = refl
flip-text_order (x ∷ xs) (y ∷ ys) o = ground (arith, flip-text_order xs ys o)

-- strcmp finds equal texts only equal.
text_order-eq : (a b : Text) → text_order a b eq ≡ eq → str_eq a b ≡ true
unfolding text_order
text_order-eq [] [] h = refl
text_order-eq [] (y ∷ ys) h = absurd (cc)
text_order-eq (x ∷ xs) [] h = absurd (cc)
text_order-eq (x ∷ xs) (y ∷ ys) h = ground (arith, text_order-eq xs ys)

-- No name is before the one in front of it.
abbrev Ordered : List Text → Type 0
Ordered [] = Unit
Ordered (x ∷ []) = Unit
Ordered (x ∷ y ∷ ys) = (p_strcmp x y ≢ gt) × Ordered (y ∷ ys)

-- Each name is before the next, as strcmp orders them.
abbrev pub Ascending : List Text → Type 0
Ascending [] = Unit
Ascending (x ∷ []) = Unit
Ascending (x ∷ y ∷ ys) = (p_strcmp x y ≡ lt) × Ascending (y ∷ ys)

Ordering-cases : (o : Ordering) → (o ≡ lt) ⊎ ((o ≡ eq) ⊎ (o ≡ gt))
Ordering-cases lt = inl refl
Ordering-cases eq = inr (inl refl)
Ordering-cases gt = inr (inr refl)

not_after : (x y : Text) → p_strcmp x y ≡ gt → p_strcmp y x ≢ gt
not_after x y h = λ h'. absurd (cc (flip-text_order x y eq))

lt_of_not_gt : (x y : Text) → p_strcmp x y ≢ gt → str_eq x y ≡ false → p_strcmp x y ≡ lt
lt_of_not_gt x y n d = elim (Ordering-cases (p_strcmp x y)) [
  | inl h ↦ h
  | inr (inl h) ↦ absurd (cc (text_order-eq x y h))
  | inr (inr h) ↦ absurd (n h)
]

-- What is put in behind a name that is not after it keeps the order.
Ordered-behind :
    (z x : Text) (ys : List Text)
    → p_strcmp z x ≢ gt
    → Ordered (z ∷ ys)
    → Ordered (sorted_insert p_strcmp x ys)
    → Ordered (z ∷ sorted_insert p_strcmp x ys)
unfolding sorted_insert
Ordered-behind z x [] n o i = (n, tt)
Ordered-behind z x (y ∷ ys) n (m, o) i = elim (Ordering-cases (p_strcmp x y)) [
  | inl h ↦ rw h (n, (rw h at i))
  | inr (inl h) ↦ rw h (n, (rw h at i))
  | inr (inr h) ↦ rw h (m, (rw h at i))
]

Ordered-tail : (x : Text) (ys : List Text) → Ordered (x ∷ ys) → Ordered ys
Ordered-tail x [] o = tt
Ordered-tail x (y ∷ ys) (n, o) = o

sorted_insert-Ordered :
    (x : Text) (ys : List Text) → Ordered ys → Ordered (sorted_insert p_strcmp x ys)
unfolding sorted_insert
sorted_insert-Ordered x [] o = tt
sorted_insert-Ordered x (y ∷ ys) o = elim (Ordering-cases (p_strcmp x y)) [
  | inl h ↦ rw h ((λ g. absurd (cc)), o)
  | inr (inl h) ↦ rw h ((λ g. absurd (cc)), o)
  | inr (inr h) ↦
      rw h (
        Ordered-behind y x ys (not_after x y h) o
          (sorted_insert-Ordered x ys (Ordered-tail y ys o)))
]

qsort-Ordered : (xs : List Text) → Ordered (qsort p_strcmp xs)
unfolding qsort
qsort-Ordered [] = tt
qsort-Ordered (x ∷ xs) = sorted_insert-Ordered x (qsort p_strcmp xs) (qsort-Ordered xs)

-- The names that are kept ascend, and the first is x.
abbrev AscendFrom : Text → Option (List Text) → Type 0
AscendFrom x none = Unit
AscendFrom x (some []) = ⊥
AscendFrom x (some (y ∷ kept)) = (y ≡ x) × Ascending (y ∷ kept)

behind-AscendFrom :
    (x y : Text) (o : Option (List Text))
    → p_strcmp x y ≡ lt
    → AscendFrom y o
    → AscendFrom x (behind x o)
behind-AscendFrom x y none h a = tt
behind-AscendFrom x y (some []) h a = absurd a
behind-AscendFrom x y (some (z ∷ kept)) h (e, a) = (refl, (ap (p_strcmp x) e ∙ h, a))

skip_same : (x y : Text) (ys : List Text) → str_eq x y ≡ true → Ordered (y ∷ ys) → Ordered (x ∷ ys)
skip_same x y ys e o = subst (λ z. Ordered (z ∷ ys)) (sym (str_eq→eq x y e)) o

remove_dups-AscendFrom :
    (room : List ℕ) (x : Text) (ys : List Text)
    → Ordered (x ∷ ys)
    → AscendFrom x (remove_dups room x ys)
unfolding remove_dups
remove_dups-AscendFrom room x [] o = (refl, tt)
remove_dups-AscendFrom [] x (y ∷ ys) (n, o) = elim (Bool-cases (str_eq x y)) [
  | inl e ↦ rw e (remove_dups-AscendFrom [] x ys (skip_same x y ys e o))
  | inr d ↦ rw d tt
]
remove_dups-AscendFrom (r ∷ room) x (y ∷ ys) (n, o) = elim (Bool-cases (str_eq x y)) [
  | inl e ↦ rw e (remove_dups-AscendFrom (r ∷ room) x ys (skip_same x y ys e o))
  | inr d ↦ elim (Bool-cases (leb (length y) r)) [
    | inl fits ↦
        rw (d, fits)
          (behind-AscendFrom x y (remove_dups room y ys) (lt_of_not_gt x y n d)
            (remove_dups-AscendFrom room y ys o))
    | inr wide ↦ rw (d, wide) tt
  ]
]

-- The names that are kept, where there is no write past a string.
abbrev pub Ascends : Option (List Text) → Type 0
Ascends none = Unit
Ascends (some kept) = Ascending kept

AscendFrom-Ascends : (x : Text) (o : Option (List Text)) → AscendFrom x o → Ascends o
AscendFrom-Ascends x none a = tt
AscendFrom-Ascends x (some []) a = absurd a
AscendFrom-Ascends x (some (y ∷ kept)) a = a.1

distinct_sorted-Ascends : (xs : List Text) → Ordered xs → Ascends (distinct_sorted xs)
distinct_sorted-Ascends [] o = tt
distinct_sorted-Ascends (x ∷ xs) o =
    AscendFrom-Ascends x _ (remove_dups-AscendFrom (map length xs) x xs o)

-- Whatever names are given, those that are kept ascend.
pub distinct_files-Ascends : (files : List Text) → Ascends (distinct_files files)
unfolding distinct_files
distinct_files-Ascends files = distinct_sorted-Ascends (qsort p_strcmp files) (qsort-Ordered files)
