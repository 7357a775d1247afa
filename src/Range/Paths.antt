-- ===== src/Range/Paths.antt =====
-- range_add_new_file keeps the paths of a range distinct.
use b_project.Base.{
  Bool-cases, inl, inr, ◌⊎◌, any-append, ℕ, ◌≤◌, ◌≡◌, refl, true, false, none, some, List, [], ◌∷◌,
  ◌++◌, arith, length, any,
}
use b_project.Base.Text.{Text, str_eq, str_eq_comm}
use b_project.AList.Growth.{IsValid}
use b_project.Range.{RangeFile, Range, files, has_path, path_max, range_add_new_file}
use b_project.Range.Memory.{range_add_file-files}

-- Each file has a path, and no two the same.
abbrev pub Distinct : List RangeFile → Type 0
Distinct [] = Unit {0}
Distinct (rf ∷ rest) =
    (path : Text) × (rf.file_path ≡ some path) × (any (has_path path) rest ≡ false) × Distinct rest

has_path_self : (p q : Text) (rf : RangeFile) → rf.file_path ≡ some p → has_path q rf ≡ str_eq q p
has_path_self p q rf e = rw (e, has_path)

Distinct-append :
    (xs : List RangeFile) (path : Text) (rf : RangeFile)
    → Distinct xs
    → rf.file_path ≡ some path
    → any (has_path path) xs ≡ false
    → Distinct (xs ++ rf ∷ [])
Distinct-append [] path rf d e free = (path, e, refl, tt)
Distinct-append (x ∷ xs) path rf (q, eq, apart, d) e free =
    let here = has_path_self q path x eq in
    let there = has_path_self path q rf e in
    (
      q,
      eq,
      rw (any-append (has_path q) xs (rf ∷ []), apart)
          (ground (arith, here, there, str_eq_comm path q)),
      Distinct-append xs path rf d e (ground arith),
    )

-- range_add_new_file refuses a path that a file of the range has, and changes nothing then. Any other
-- path that is not too long is added, when memory is there, as the last file and after the old ones;
-- the paths stay distinct and the array well formed.
pub range_add_new_file-Distinct :
    (junk : RangeFile) (r : Range) (path : Text) (id : ℕ)
    → IsValid r.ls
    → Distinct (files r)
    → length path ≤ path_max
    → ((any (has_path path) (files r) ≡ true)
        × (range_add_new_file true true junk r path id ≡ (r, none)))
      ⊎ ((s : Range) × (rf : RangeFile) × (range_add_new_file true true junk r path id
            ≡ (s, some r.ls.sz))
          × (files s ≡ files r ++ rf ∷ [])
          × (rf.file_path ≡ some path)
          × Distinct (files s)
          × IsValid s.ls)
unfolding range_add_new_file
range_add_new_file-Distinct junk r path id v d h =
    elim (Bool-cases (any (has_path path) (files r))) [
      | inl old ↦ inl (old, rw old)
      | inr new ↦
          let (s, rf, e, added, named, valid) = range_add_file-files junk r path id v h in
          inr (
            s,
            rf,
            rw new e,
            added,
            named,
            rw added (Distinct-append (files r) path rf d named new),
            valid,
          )
    ]
