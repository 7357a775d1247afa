-- ===== src/Files/Push.antt =====
-- file.c, push_swap_file: the search for the texts, and what its result tells of the database.
use b_project.Base.{ℕ, ◌≡◌, refl, Bool, true, false, Option, List, Bool-cases, inl, inr, ◌⊎◌}
use b_project.Base.Int.{ℤ, pos, negsuc}
use b_project.IntervalTree.{ItNode}
use b_project.Files.Swap.{Oracles, search_swap, push_swap_file}

-- Whether a push gives 0 and unlinks the swap file depends on the mode and on the oracles alone: two
-- databases that answer query_resize_file differently, with an error too, make no difference to it. The
-- swap file is unlinked exactly when the push gives 0.
pub push_swap_file_ignores :
    {W : Type 0} (resize resize' : List ItNode → W → ℤ × W) (mode_r : Bool) (swp : Option (List ℕ))
    (o : Oracles) (its : List ItNode) (w : W)
    → let r = push_swap_file resize mode_r swp o its w in
      let r' = push_swap_file resize' mode_r swp o its w in
      (r.ret ≡ r'.ret)
      × (r.unlinked ≡ r'.unlinked)
      × (((r.ret ≡ pos 0) × (r.unlinked ≡ true)) ⊎ ((r.ret ≡ negsuc 1) × (r.unlinked ≡ false)))
unfolding push_swap_file
push_swap_file_ignores resize resize' true swp o its w = (refl, refl, inl (refl, refl))
push_swap_file_ignores resize resize' false swp o its w =
    elim (Bool-cases (search_swap swp o its).0) [
      | inl e ↦ rw e (refl, refl, inl (refl, refl))
      | inr e ↦ rw e (refl, refl, inr (refl, refl))
    ]
