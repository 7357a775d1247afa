-- ===== src/Range/Memory.antt =====
-- What range.c does with memory: the cleanup that frees no file, and the link that is never set.
use b_project.Base.{
  ℕ, ◌+◌, ◌≤◌, ◌≡◌, refl, true, false, Option, none, some, arith, length, get_elem?, set,
  get_elem?-set_self, ltb, take-set_suc, ◌++◌, [], ◌∷◌,
}
use b_project.Base.Text.{Text}
use b_project.AList.{AList, slots, is_full, a_list_add, a_list_deinit}
use b_project.AList.Growth.{IsValid, a_list_add-Added, realloc_new, is_full_pos, set-IsValid}
use b_project.Range.{
  fill_slot, Range, RangeFile, count_name, fill_file, slot_at, range_deinit, range_add_file, files,
  path_max,
}

-- Whatever files a range holds, range_deinit frees its name and none of the files' paths and nodes,
-- and leaves a range with no file: all of them are lost.
range_deinit_leaks :
    (r : Range)
    → (s : Range) × (range_deinit r
        ≡ some (s, record { names = count_name r.name; paths = 0; nodes = 0 }))
      × (s.ls.sz ≡ 0)
      × (s.ls.ls ≡ none)
      × (s.name ≡ none)
unfolding range_deinit
range_deinit_leaks r = (
  record r { ls = a_list_deinit (record (r.ls) { sz = 0 }); name = none },
  refl,
  ground arith,
  ground arith,
  refl,
)

not_long : (path : Text) → length path ≤ path_max → ltb path_max (length path) ≡ false
not_long path h = ground arith

filled :
    (junk : RangeFile) (r : Range) (path : Text) (id : ℕ) (added : AList RangeFile × Option ℕ)
    → added.1 ≡ some r.ls.sz
    → fill_slot junk r path id added ≡ (
      record r {
        ls = record (added.0) {
          ls = some (
              set
                (slots added.0)
                r.ls.sz
                (fill_file path id (slot_at junk (slots added.0) r.ls.sz)));
        };
      },
      some r.ls.sz,
    )
filled junk r path id (l, none) e = absurd (cc)
filled junk r path id (l, some i) e = cc

-- The file that range_add_file adds, when memory is there and the path is not too long, stands at the
-- index that is returned and has the path and the id; its interval list is what the slot held before
-- and not the empty one.
range_add_file-slot :
    (junk : RangeFile) (r : Range) (path : Text) (id : ℕ)
    → IsValid r.ls
    → length path ≤ path_max
    → (s : Range) × (range_add_file true true junk r path id ≡ (s, some r.ls.sz))
      × (s.ls.sz ≡ r.ls.sz + 1)
      × (get_elem? (slots s.ls) r.ls.sz
          ≡ some (fill_file path id (slot_at junk (slots (a_list_add true junk r.ls).0) r.ls.sz)))
unfolding range_add_file
range_add_file-slot junk r path id v h =
    let l = (a_list_add true junk r.ls).0 in
    let (e, size, room, _, _) = a_list_add-Added junk r.ls v in
    (
      record r {
        ls = record l {
          ls = some (set (slots l) r.ls.sz (fill_file path id (slot_at junk (slots l) r.ls.sz)));
        };
      },
      rw (not_long path h) (filled junk r path id (a_list_add true junk r.ls) e),
      size,
      get_elem?-set_self (slots l) r.ls.sz _ room,
    )

abbrev old_slot : RangeFile → Range → RangeFile
old_slot junk r = slot_at junk (slots (a_list_add true junk r.ls).0) r.ls.sz

-- Where the array is full and all of it is used, the new slot is memory that realloc has just added.
old_slot-junk :
    (junk : RangeFile) (r : Range)
    → is_full r.ls.sz ≡ true
    → r.ls.sz ≡ length (slots r.ls)
    → old_slot junk r ≡ junk
unfolding a_list_add
old_slot-junk junk r full all =
    rw (full, slot_at, realloc_new junk r.ls.sz (slots r.ls) all (is_full_pos r.ls.sz full))

-- When the array is full and every slot is in use, range_add_file gives the new file an interval list
-- whose link is whatever the memory held that realloc returned: it is never set to the empty list.
range_add_file_wild :
    (junk : RangeFile) (r : Range) (path : Text) (id : ℕ)
    → IsValid r.ls
    → length path ≤ path_max
    → is_full r.ls.sz ≡ true
    → r.ls.sz ≡ length (slots r.ls)
    → (s : Range) × (range_add_file true true junk r path id ≡ (s, some r.ls.sz))
      × (get_elem? (slots s.ls) r.ls.sz
          ≡ some (record { it = junk.it; file_path = some path; id = id; num_it = 0 }))
range_add_file_wild junk r path id v h full all =
    let (s, e, _, got) = range_add_file-slot junk r path id v h in
    (s, e, rw (old_slot-junk junk r full all) at got)

-- The new file comes after the old ones, which stay as they are.
pub range_add_file-files :
    (junk : RangeFile) (r : Range) (path : Text) (id : ℕ)
    → IsValid r.ls
    → length path ≤ path_max
    → (s : Range) × (rf : RangeFile) × (range_add_file true true junk r path id ≡ (s, some r.ls.sz))
      × (files s ≡ files r ++ rf ∷ [])
      × (rf.file_path ≡ some path)
      × IsValid s.ls
unfolding range_add_file
range_add_file-files junk r path id v h =
    let l = (a_list_add true junk r.ls).0 in
    let rf = fill_file path id (old_slot junk r) in
    let (e, size, room, same, valid) = a_list_add-Added junk r.ls v in
    (
      record r { ls = record l { ls = some (set (slots l) r.ls.sz rf) } },
      rf,
      rw (not_long path h) (filled junk r path id (a_list_add true junk r.ls) e),
      rw (size, take-set_suc (slots l) r.ls.sz rf room, same),
      refl,
      set-IsValid l r.ls.sz rf valid,
    )
