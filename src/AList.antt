-- ===== src/AList.antt =====
-- list.h: the amortised list, an array that doubles when it is full. The array is the list of all
-- its slots, the used ones first. What realloc adds has no specified content: `junk`.
pub mod Growth
mod Tests
use b_project.Base.Int.{ℤ, pos, negsuc}
use Prim.Native.Nat.{bit_and}
use b_project.Base.{
  ℕ, zero, suc, ◌+◌, ◌-◌, ◌*◌, Bool, true, false, ◌&&◌, Option, none, some, List, [], ◌∷◌, ◌++◌,
  leb, ltb, ◌==◌, if◌then◌else◌, length, take, replicate, set,
}

abbrev a_list_init_len : ℕ
a_list_init_len = 4

-- `ls` is none for NULL.
pub record AList {ℓ} (A : Type ℓ) : Type ℓ where
  pub ls : Option (List A)
  pub sz : ℕ

abbrev pub slots {ℓ} : {A : Type ℓ} → AList A → List A
slots {A} l = elim (l.ls) [ none ↦ [] | some xs ↦ xs ]

pub data Deleted {ℓ} (A : Type ℓ) : Type ℓ where
  refused : Deleted A
  deleted : AList A → Deleted A
  below_zero : Deleted A

-- !(sz & (sz - 1)) && sz >= A_LIST_INIT_LEN
unfoldable pub is_full : ℕ → Bool
is_full n = (bit_and n (n - 1) == 0) && leb a_list_init_len n

module _ {ℓ} {A : Type ℓ} where
  -- calloc gives zeroed slots, or fails (`alloc` is false). On a failure `sz` stays as it is.
  unfoldable pub a_list_init : Bool → A → AList A → AList A × Bool
  a_list_init true zeroed l =
      (record { ls = some (replicate a_list_init_len zeroed); sz = 0 }, true)
  a_list_init false zeroed l = (record l { ls = none }, false)

  unfoldable pub a_list_deinit : AList A → AList A
  a_list_deinit l = elim (l.ls) [ none ↦ l | some xs ↦ record { ls = none; sz = 0 } ]

  -- The array grown or cut to n slots.
  unfoldable pub realloc : A → ℕ → List A → List A
  realloc junk n xs = take n xs ++ replicate (n - length xs) junk

  -- The index of the slot that was added; none for a failed realloc, after which the array is lost.
  unfoldable pub a_list_add : Bool → A → AList A → AList A × Option ℕ
  unfolding realloc is_full
  a_list_add alloc junk l =
      if is_full l.sz
      then if alloc
        then (record { ls = some (realloc junk (l.sz * 2) (slots l)); sz = l.sz + 1 }, some l.sz)
        else (record l { ls = none }, none)
      else (record l { sz = l.sz + 1 }, some l.sz)

  -- The same, with the slot zeroed.
  unfoldable pub a_list_addc : Bool → A → A → AList A → AList A × Option ℕ
  unfolding a_list_add
  a_list_addc alloc junk zeroed l = zero_slot zeroed (a_list_add alloc junk l)
    where
      zero_slot : A → AList A × Option ℕ → AList A × Option ℕ
      zero_slot z (m, none) = (m, none)
      zero_slot z (m, some i) = (record m { ls = some (set (slots m) i z) }, some i)

  -- The slots from idx up to the last used one take over their successors.
  unfoldable pub shift_down : List A → ℕ → ℕ → List A
  shift_down [] idx n = []
  shift_down (x ∷ xs) (suc idx) (suc n) = x ∷ shift_down xs idx n
  shift_down (x ∷ []) zero (suc n) = x ∷ []
  shift_down (x ∷ y ∷ xs) zero (suc n) = y ∷ shift_down (y ∷ xs) zero n
  shift_down (x ∷ xs) idx zero = x ∷ xs

  -- A negative index is refused. The source has no upper check, and on an empty list `sz` would
  -- become -1: `below_zero`.
  unfoldable pub a_list_delete : AList A → ℤ → Deleted A
  unfolding shift_down
  a_list_delete l (negsuc n) = refused
  a_list_delete l (pos idx) =
      if l.sz == 0
      then below_zero
      else deleted (record { ls = some (shift_down (slots l) idx (l.sz - 1)); sz = l.sz - 1 })
