-- ===== src/AList/Tests.antt =====
-- The amortised list at concrete arrays.
use b_project.Base.{◌≡◌, refl, true, false, none, some, [], ◌∷◌, arith, ℕ}
use b_project.Base.Int.{pos, negsuc}
use b_project.AList.{AList, is_full, a_list_add, a_list_addc, a_list_delete, refused, deleted}
use b_project.AList.Growth.{IsValid, Added, a_list_add-IsValid}

abbrev four : AList ℕ
four = record { ls = some (1 ∷ 2 ∷ 3 ∷ 4 ∷ []); sz = 4 }

four-IsValid : IsValid four
four-IsValid = record { power = refl; least = omega arith; within = omega arith }

doubled :
    a_list_add true 9 four
    ≡ (record { ls = some (1 ∷ 2 ∷ 3 ∷ 4 ∷ 9 ∷ 9 ∷ 9 ∷ 9 ∷ []); sz = 5 }, some 4)
unfolding a_list_add
doubled = refl

zeroed :
    a_list_addc true 9 0 four
    ≡ (record { ls = some (1 ∷ 2 ∷ 3 ∷ 4 ∷ 0 ∷ 9 ∷ 9 ∷ 9 ∷ []); sz = 5 }, some 4)
unfolding a_list_addc
zeroed = refl

delete_negative : a_list_delete four (negsuc 0) ≡ refused
unfolding a_list_delete
delete_negative = refl

delete_first :
    a_list_delete four (pos 0) ≡ deleted (record { ls = some (2 ∷ 3 ∷ 4 ∷ 4 ∷ []); sz = 3 })
unfolding a_list_delete
delete_first = refl

a_list_add-IsValid_example :
    Added four (a_list_add true 9 four)
    × ((is_full 4 ≡ false → Added four (a_list_add false 9 four))
        × (is_full 4 ≡ true → a_list_add false 9 four ≡ (record { ls = none; sz = 4 }, none)))
a_list_add-IsValid_example = a_list_add-IsValid 9 four four-IsValid
