-- ===== src/Range.antt =====
-- range.h and range.c: a named range, its files, and the intervals of each file.

pub mod Memory
mod Tests
pub mod Count
pub mod Paths
use b_project.Base.{
  ℕ, zero, suc, ◌+◌, Bool, true, false, Option, none, some, List, [], ◌∷◌, ltb, leb, if◌then◌else◌,
  length, take, get_elem?, set, any,
}
use b_project.Base.Text.{Text, str_eq}
use b_project.AList.{AList, slots, a_list_init, a_list_deinit, a_list_add}
use b_project.IntervalTree.{
  Slot, Freeing, emptied, double_free, it_deinit, Walk, done, use_after_free, out_of_fuel,
  it_insert_new,
}

abbrev pub range_name_len_max : ℕ
range_name_len_max = 64

abbrev pub path_max : ℕ
path_max = 3072

-- struct range_file. `it` is none where the link holds whatever the memory held before.
pub record RangeFile : Type 0 where
  pub it : Option (List Slot)
  pub file_path : Option Text
  pub id : ℕ
  pub num_it : ℕ

-- What calloc leaves in a slot.
abbrev pub zeroed : RangeFile
zeroed = record { it = some []; file_path = none; id = 0; num_it = 0 }

pub record Range : Type 0 where
  pub ls : AList RangeFile
  pub name : Option Text
  pub id : ℕ

-- What a cleanup has given to free(): strings, nodes and arrays.
pub record Freed : Type 0 where
  pub names : ℕ
  pub paths : ℕ
  pub nodes : ℕ

-- range_file_deinit: the number of nodes it frees, none if it follows a link that was never set.
unfoldable pub range_file_deinit : RangeFile → Option (RangeFile × ℕ)
unfolding it_deinit
range_file_deinit rf = elim (rf.it) [
  | none ↦ none
  | some xs ↦ elim (it_deinit xs 0) [
    | emptied n ↦ some (record rf { it = some []; num_it = 0 }, n)
    | double_free ↦ none
  ]
]

-- The loop of range_deinit over the first files.
unfoldable pub deinit_files : List RangeFile → Freed → Option Freed
unfolding range_file_deinit
deinit_files [] n = some n
deinit_files (rf ∷ rest) n = elim (range_file_deinit rf) [
  | none ↦ none
  | some (_, k) ↦ deinit_files rest (record n { paths = n.paths + 1; nodes = n.nodes + k })
]

abbrev pub count_name : Option Text → ℕ
count_name none = 0
count_name (some _) = 1

-- range_deinit sets num_files to 0 before the loop that runs up to num_files.
unfoldable pub range_deinit : Range → Option (Range × Freed)
unfolding deinit_files a_list_deinit
range_deinit r =
    let cleared : AList RangeFile = record (r.ls) { sz = 0 } in
    elim (deinit_files (take cleared.sz (slots cleared))
      (record { names = count_name r.name; paths = 0; nodes = 0 })) [
        | none ↦ none
        | some n ↦ some (record r { ls = a_list_deinit cleared; name = none }, n)
      ]

abbrev fail_init : Option (Range × Freed) → Option (Range × Bool)
fail_init none = none
fail_init (some (r, _)) = some (r, false)

-- `dup` and `alloc` say whether strdup and calloc give memory. A failure runs range_deinit on the range,
-- whose fields are those that it had before where they have not been set.
unfoldable pub range_init : Bool → Bool → Range → Text → Option (Range × Bool)
unfolding a_list_init
range_init dup alloc r name =
    if ltb range_name_len_max (length name)
    then fail_init (range_deinit r)
    else if dup
    then (let (ls, ok) = a_list_init alloc zeroed r.ls in
        if ok
        then some (record r { ls = ls; name = some name }, true)
        else fail_init (range_deinit (record r { ls = ls; name = some name })))
    else fail_init (range_deinit (record r { name = none }))

-- The three fields that range_add_file sets in the slot that a_list_add hands out.
abbrev pub fill_file : Text → ℕ → RangeFile → RangeFile
fill_file path id rf = record rf { file_path = some path; id = id; num_it = 0 }

abbrev pub slot_at : RangeFile → List RangeFile → ℕ → RangeFile
slot_at junk xs i = elim (get_elem? xs i) [ none ↦ junk | some rf ↦ rf ]

abbrev pub fill_slot : RangeFile → Range → Text → ℕ → AList RangeFile × Option ℕ → Range × Option ℕ
fill_slot junk r path id (l, none) = (record r { ls = l }, none)
fill_slot junk r path id (l, some i) = (
  record r {
    ls = record l { ls = some (set (slots l) i (fill_file path id (slot_at junk (slots l) i))) };
  },
  some i,
)

-- The index stands for the pointer to the new file; none for NULL.
unfoldable pub range_add_file : Bool → Bool → RangeFile → Range → Text → ℕ → Range × Option ℕ
range_add_file dup alloc junk r path id =
    if ltb path_max (length path)
    then (r, none)
    else if dup
    then fill_slot junk r path id (a_list_add alloc junk r.ls)
    else (r, none)

abbrev pub has_path : Text → RangeFile → Bool
has_path path rf = elim (rf.file_path) [ none ↦ false | some p ↦ str_eq path p ]

-- The files in use.
abbrev pub files : Range → List RangeFile
files r = take (r.ls.sz) (slots (r.ls))

unfoldable pub range_add_new_file : Bool → Bool → RangeFile → Range → Text → ℕ → Range × Option ℕ
unfolding range_add_file
range_add_new_file dup alloc junk r path id =
    if any (has_path path) (files r) then (r, none) else range_add_file dup alloc junk r path id

-- The result of range_file_add_it: the file, and whether a node is returned rather than NULL.
pub data AddIt : Type 0 where
  added : RangeFile → Bool → AddIt
  wild_link : AddIt
  fault : AddIt

-- `merged` tells that a node absorbed the interval; with no such node and no memory the result is NULL.
abbrev after_walk : Bool → RangeFile → Walk → AddIt
after_walk alloc rf (done true ys) = added (record rf { it = some ys }) true
after_walk alloc rf (done false ys) =
    added (record rf { it = some ys; num_it = if alloc then rf.num_it + 1 else rf.num_it }) alloc
after_walk alloc rf use_after_free = fault
after_walk alloc rf out_of_fuel = fault

unfoldable pub range_file_add_it : Bool → RangeFile → ℕ → ℕ → ℕ → AddIt
unfolding it_insert_new
range_file_add_it alloc rf base bound id = elim (rf.it) [
  | none ↦ wild_link
  | some xs ↦ after_walk alloc rf (it_insert_new alloc xs base bound id)
]
