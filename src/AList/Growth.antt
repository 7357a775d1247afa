-- ===== src/AList/Growth.antt =====
-- The array of an a_list always has room for the element that is added.
use Prim.Native.Nat.{bit_and}
use b_project.Base.Int.{pos}
use b_project.Base.{
  ℕ, zero, suc, ◌+◌, ◌-◌, ◌*◌, ◌≤◌, ◌<◌, ◌≡◌, refl, true, false, Option, some, none, List, [], ◌∷◌,
  ◌++◌, arith, length, take, replicate, length-append, length-take, sym, Bool-cases, ltb, ltb→lt,
  ap, inl, inr, take-append_left, take-take, take_all, set, length-set, get_elem?,
  get_elem?-append_right, ◌++◌, ◌∙◌,
}
use b_project.Base.Bits.{and-pred_double}
use b_project.AList.{
  AList, slots, a_list_init, a_list_add, realloc, is_full, shift_down, a_list_delete, deleted,
}

-- The capacity is a power of two (seen by its bits) of at least four, and holds the used slots.
pub record IsValid {ℓ} {A : Type ℓ} (l : AList A) : Type ℓ where
  pub power : bit_and (length (slots l)) (length (slots l) - 1) ≡ 0
  pub least : 4 ≤ length (slots l)
  pub within : l.sz ≤ length (slots l)

is_full_inv : (n : ℕ) → is_full n ≡ true → (bit_and n (n - 1) ≡ 0) × (4 ≤ n)
unfolding is_full
is_full_inv n h = ground arith

is_full_not : (n : ℕ) → is_full n ≡ false → bit_and n (n - 1) ≡ 0 → n < 4
unfolding is_full
is_full_not n h e = ground arith

pub is_full_pos : (n : ℕ) → is_full n ≡ true → 0 < n
is_full_pos n h = omega (arith, (is_full_inv n h).1)

module _ {ℓ} {A : Type ℓ} where
  length-replicate : (n : ℕ) (a : A) → length (replicate n a) ≡ n
  length-replicate zero a = refl
  length-replicate (suc n) a = ap suc (length-replicate n a)

  length-realloc : (junk : A) (n : ℕ) (xs : List A) → length (realloc junk n xs) ≡ n
  unfolding realloc
  length-realloc junk n xs = omega (
    arith,
    length-append (take n xs) (replicate (n - length xs) junk),
    length-take n xs,
    length-replicate (n - length xs) junk,
  )

  take-realloc :
      (junk : A) (n m : ℕ) (xs : List A)
      → n ≤ m
      → n ≤ length xs
      → take n (realloc junk m xs) ≡ take n xs
  unfolding realloc
  take-realloc junk n m xs h h' =
      take-append_left n (take m xs) _ (omega (arith, length-take m xs)) ∙ take-take n m xs h

  -- An array that is full is seen to be full, so the slot that is handed out lies inside.
  room : (l : AList A) → IsValid l → is_full l.sz ≡ false → l.sz < length (slots l)
  room l v h = elim (Bool-cases (ltb l.sz (length (slots l)))) [
    | inl lt ↦ ltb→lt _ _ lt
    | inr ge ↦
        let e : l.sz ≡ length (slots l) = ground (arith, v.within) in
        absurd (omega (arith, v.least, is_full_not l.sz h (rw e v.power)))
  ]

  abbrev pub Added : AList A → AList A × Option ℕ → Type ℓ
  Added l (m, r) =
      (r ≡ some l.sz)
      × (m.sz ≡ l.sz + 1)
      × (l.sz < length (slots m))
      × (take l.sz (slots m) ≡ take l.sz (slots l))
      × IsValid m

  grown :
      (junk : A) (l : AList A)
      → IsValid l
      → is_full l.sz ≡ true
      → IsValid (record { ls = some (realloc junk (l.sz * 2) (slots l)); sz = l.sz + 1 })
  grown junk l v full =
      let n = length-realloc junk (l.sz * 2) (slots l) in
      let (e, four) = is_full_inv l.sz full in
      record {
        power = rw n (and-pred_double l.sz (omega arith) e);
        least = omega (arith, n);
        within = omega (arith, n);
      }

  pub a_list_add-Added : (junk : A) (l : AList A) → IsValid l → Added l (a_list_add true junk l)
  unfolding a_list_add
  a_list_add-Added junk l v = elim (Bool-cases (is_full l.sz)) [
    | inl full ↦ rw full (
      refl,
      refl,
      omega (arith, length-realloc junk (l.sz * 2) (slots l), (is_full_inv l.sz full).1),
      take-realloc junk l.sz (l.sz * 2) (slots l) (omega arith) v.within,
      grown junk l v full,
    )
    | inr free ↦ rw free (
      refl,
      refl,
      room l v free,
      refl,
      record { power = v.power; least = v.least; within = omega (arith, room l v free) },
    )
  ]

  -- With memory, a_list_add hands out the slot behind the used ones; the slot lies inside the array (no
  -- write out of bounds), the elements before it are unchanged, and the capacity stays a power of two that
  -- holds the list. Without memory it does the same where the array is not full; where it is, no slot is
  -- handed out, the array is lost, and the size stays.
  pub a_list_add-IsValid :
      (junk : A) (l : AList A)
      → IsValid l
      → Added l (a_list_add true junk l)
        × ((is_full l.sz ≡ false → Added l (a_list_add false junk l))
            × (is_full l.sz ≡ true
                → a_list_add false junk l ≡ (record { ls = none; sz = l.sz }, none)))
  unfolding a_list_add
  a_list_add-IsValid junk l v =
      let added = a_list_add-Added junk l v in
      (added, (λ free. rw free (rw free at added), λ full. rw full))

  -- The list starts valid and empty.
  a_list_init-IsValid : (zeroed : A) (l : AList A) → IsValid (a_list_init true zeroed l).0
  unfolding a_list_init
  a_list_init-IsValid zeroed l = record { power = refl; least = omega arith; within = omega arith }

  -- The list without its i-th element.
  abbrev remove_at : ℕ → List A → List A
  remove_at i [] = []
  remove_at zero (x ∷ xs) = xs
  remove_at (suc i) (x ∷ xs) = x ∷ remove_at i xs

  take-shift_down :
      (xs : List A) (idx n : ℕ)
      → idx ≤ n
      → n < length xs
      → take n (shift_down xs idx n) ≡ remove_at idx (take (suc n) xs)
  unfolding shift_down
  take-shift_down [] idx n h h' = absurd (omega arith)
  take-shift_down (x ∷ xs) (suc idx) zero h h' = absurd (omega arith)
  take-shift_down (x ∷ xs) (suc idx) (suc n) h h' =
      ap (◌∷◌ x) (take-shift_down xs idx n (omega arith) (omega arith))
  take-shift_down (x ∷ []) zero zero h h' = refl
  take-shift_down (x ∷ []) zero (suc n) h h' = absurd (omega arith)
  take-shift_down (x ∷ y ∷ xs) zero (suc n) h h' =
      ap (◌∷◌ y) (take-shift_down (y ∷ xs) zero n (omega arith) (omega arith))
  take-shift_down (x ∷ y ∷ xs) zero zero h h' = refl

  -- a_list_delete of an index in range leaves the other elements in their order, one fewer.
  a_list_delete-remove_at :
      (l : AList A) (idx : ℕ)
      → IsValid l
      → idx < l.sz
      → (m : AList A) × (a_list_delete l (pos idx) ≡ deleted m)
        × (m.sz + 1 ≡ l.sz)
        × (take m.sz (slots m) ≡ remove_at idx (take l.sz (slots l)))
  unfolding a_list_delete
  a_list_delete-remove_at l idx v h =
      let e : l.sz ≡ suc (l.sz - 1) = omega arith in
      (
        record { ls = some (shift_down (slots l) idx (l.sz - 1)); sz = l.sz - 1 },
        ground arith,
        omega arith,
        take-shift_down (slots l) idx (l.sz - 1) (omega arith) (omega (arith, v.within))
            ∙ ap (λ k. remove_at idx (take k (slots l))) (sym e),
      )

  -- The first slot behind a full array is new memory.
  pub realloc_new :
      (junk : A) (n : ℕ) (xs : List A)
      → n ≡ length xs
      → 0 < n
      → get_elem? (realloc junk (n * 2) xs) n ≡ some junk
  unfolding realloc
  realloc_new junk n xs all h =
      let more : n * 2 - length xs ≡ suc (length xs - 1) = omega arith in
      let at_end : n ≡ length xs + 0 = omega arith in
      rw (take_all (n * 2) xs (omega arith), more)
        (ap (get_elem? (xs ++ replicate (suc (length xs - 1)) junk)) at_end
          ∙ get_elem?-append_right xs _ 0)

  -- Writing an element changes no size.
  pub set-IsValid :
      (l : AList A) (i : ℕ) (a : A)
      → IsValid l
      → IsValid (record l { ls = some (set (slots l) i a) })
  set-IsValid l i a v =
      let n = length-set (slots l) i a in
      record { power = rw n v.power; least = rw n v.least; within = rw n v.within }
