-- ===== src/Cli/NewRange/Groups.antt =====
-- The mode -g on a command line of groups, each with its files and its regions.
use b_project.Base.{
  ℕ, zero, suc, ◌+◌, ◌-◌, ◌≤◌, ◌<◌, ◌≡◌, refl, ap, sym, ◌∙◌, Bool, true, false, ◌||◌, some, List,
  [], ◌∷◌, ◌++◌, map, any, ◌&&◌, length, append_assoc, append-nil, leb, ltb, length-append,
  length-map, arith,
}
use b_project.Base.Text.{Text, codes}
use b_project.AList.{a_list_init}
use b_project.IntervalTree.{ItNode}
use b_project.IntervalTree.Shape.{IsTree, covers}
use b_project.Range.{Range, RangeFile, files, range_init, range_name_len_max}
use b_project.Cli.Getopt.{getopt}
use b_project.Cli.Edit.Optargs.{Plain, Stops}
use b_project.Cli.NewRange.{built, group_loop, group_step, new_range}
use b_project.Cli.NewRange.Files.{file_with, range_with, files-range_with, NewNames, room_for}
use b_project.Cli.NewRange.Group.{
  AllFit, with_regions, with_regions-covers, region_arg, add_group-range_with,
}
use b_project.Cli.NewRange.Rounds.{group_loop-group}

-- The names behind -f and the regions behind -r, of which there is one or more.
abbrev pub Group : Type 0
Group = Text × List Text × (ℕ × ℕ) × List (ℕ × ℕ)

abbrev pub args_of : List Group → List Text
args_of [] = []
args_of ((n, ns, r, rs) ∷ gs) =
    codes "-f" ∷ n ∷ (ns ++ codes "-r" ∷ region_arg r ∷ (map region_arg rs ++ args_of gs))

-- The files behind the groups.
abbrev files_after : List RangeFile → List Group → List RangeFile
files_after fs [] = fs
files_after fs ((n, ns, r, rs) ∷ gs) =
    files_after (fs ++ map (file_with (with_regions [] (r ∷ rs))) (n ∷ ns)) gs

abbrev names_in : List Group → ℕ
names_in [] = 0
names_in ((n, ns, r, rs) ∷ gs) = suc (length ns) + names_in gs

-- The names are new and do not begin with a dash, and the regions fit.
abbrev pub IsGroups : List RangeFile → List Group → Type 0
IsGroups fs [] = Unit
IsGroups fs ((n, ns, r, rs) ∷ gs) =
    NewNames fs (n ∷ ns)
    × Plain (n ∷ ns)
    × AllFit [] (r ∷ rs)
    × IsGroups (fs ++ map (file_with (with_regions [] (r ∷ rs))) (n ∷ ns)) gs

abbrev rooms : List Group → ℕ → ℕ
rooms [] k = k
rooms ((n, ns, r, rs) ∷ gs) k = room_for (n ∷ ns) (rooms gs k)

args_of-Stops : (gs : List Group) → Stops (args_of gs)
args_of-Stops [] = tt
args_of-Stops ((n, ns, r, rs) ∷ gs) = refl

room_for-length : (names : List Text) (k : ℕ) → room_for names k ≡ length names + k
room_for-length [] k = omega arith
room_for-length (n ∷ names) k = omega (arith, room_for-length names k)

group_loop-args_of :
    (moves : Bool) (junk : RangeFile) (k : ℕ) (started : Bool) (before : List Text) (name : Text)
    (id : ℕ) (fs : List RangeFile) (gs : List Group) (free : ℕ)
    → length gs + length gs < k
    → length fs + names_in gs ≤ 4
    → IsGroups fs gs
    → (started || leb 1 (length gs)) ≡ true
    → group_loop true moves junk k false started before
        (range_with name id fs (rooms gs free))
        (args_of gs)
      ≡ built (range_with name id (files_after fs gs) free)
group_loop-args_of moves junk zero started before name id fs gs free l few h one =
    absurd (omega arith)
group_loop-args_of moves junk (suc k) started before name id fs [] free l few h one =
    let go : started ≡ true = ground arith in unfold group_loop group_step getopt in rw go
group_loop-args_of moves junk (suc zero) started before name id fs (g ∷ gs) free l few h one =
    absurd (omega arith)
group_loop-args_of moves junk (suc (suc k)) started before name id fs ((n, ns, r, rs) ∷ gs) free l
      few (new, plain, fits, h) one =
    let stop = args_of-Stops gs in
    let range = range_with name id fs (rooms ((n, ns, r, rs) ∷ gs) free) in
    let round =
      group_loop-group moves junk k started before range n ns r rs (args_of gs) plain stop in
    let group =
      add_group-range_with moves junk name id (rooms gs free) fs (n ∷ ns) (r ∷ rs) (omega arith) new
        fits in
    let fs' = fs ++ map (file_with (with_regions [] (r ∷ rs))) (n ∷ ns) in
    let longer : length fs' ≡ length fs + suc (length ns) = omega (
      arith,
      length-append fs (map (file_with (with_regions [] (r ∷ rs))) (n ∷ ns)),
      length-map (file_with (with_regions [] (r ∷ rs))) ns,
    ) in
    let rest =
      group_loop-args_of moves junk k true (n ∷ ns) name id fs' gs free (omega arith) (omega arith)
        h refl in
    round ∙ rw group rest

rooms-names_in : (gs : List Group) (k : ℕ) → rooms gs k ≡ names_in gs + k
rooms-names_in [] k = omega arith
rooms-names_in ((n, ns, r, rs) ∷ gs) k =
    omega (arith, room_for-length ns (rooms gs k), rooms-names_in gs k)

length-args_of : (gs : List Group) → length gs + length gs ≤ length (args_of gs)
length-args_of [] = omega arith
length-args_of ((n, ns, r, rs) ∷ gs) =
    let tail = region_arg r ∷ (map region_arg rs ++ args_of gs) in
    omega (
      arith,
      length-append ns (codes "-r" ∷ tail),
      length-append (map region_arg rs) (args_of gs),
      length-args_of gs,
    )

-- The files of the groups in order: those of a group have its names, and intervals that are in order, do not
-- touch, and cover what the group's regions cover.
abbrev pub AreFiles : List Group → List RangeFile → Type 0
AreFiles [] fs = fs ≡ []
AreFiles ((n, ns, r, rs) ∷ gs) fs =
    (xs : List ItNode) × (rest : List RangeFile) × (fs ≡ map (file_with xs) (n ∷ ns) ++ rest)
    × IsTree xs
    × ((x : ℕ) → covers xs x ≡ any (λ q. leb q.0 x && ltb x q.1) (r ∷ rs))
    × AreFiles gs rest

files_after-append :
    (fs : List RangeFile) (gs : List Group) → files_after fs gs ≡ fs ++ files_after [] gs
files_after-append fs [] = sym (append-nil fs)
files_after-append fs ((n, ns, r, rs) ∷ gs) =
    let own = map (file_with (with_regions [] (r ∷ rs))) (n ∷ ns) in
    files_after-append (fs ++ own) gs
    ∙ append_assoc fs own (files_after [] gs)
    ∙ ap (λ l. fs ++ l) (sym (files_after-append own gs))

files_after-AreFiles :
    (fs : List RangeFile) (gs : List Group) → IsGroups fs gs → AreFiles gs (files_after [] gs)
files_after-AreFiles fs [] h = refl
files_after-AreFiles fs ((n, ns, r, rs) ∷ gs) (new, plain, fits, h) =
    let xs = with_regions [] (r ∷ rs) in
    let (tree, same) = with_regions-covers [] (r ∷ rs) tt fits in
    (
      xs,
      files_after [] gs,
      files_after-append (map (file_with xs) (n ∷ ns)) gs,
      tree,
      same,
      files_after-AreFiles (fs ++ map (file_with xs) (n ∷ ns)) gs h,
    )

-- For at most four files in groups of one -f and one -r, with names that differ, are no options and are
-- not too long, and regions with the base below the bound, which a long holds, that each meet or touch at
-- most one of the intervals that the regions before it in the group have left: when memory is given, the mode -g
-- builds a range of that name, whose files are those of the groups in order, and the intervals of each
-- are in order, do not touch, and cover what the regions of its group cover.
pub new_range-AreFiles :
    (moves : Bool) (junk : RangeFile) (global_r : Range) (name : Text) (g : Group) (gs : List Group)
    → length name ≤ range_name_len_max
    → names_in (g ∷ gs) ≤ 4
    → IsGroups [] (g ∷ gs)
    → (s : Range) × (new_range true moves junk global_r name (args_of (g ∷ gs)) ≡ built s)
      × (s.name ≡ some name)
      × AreFiles (g ∷ gs) (files s)
unfolding new_range range_init a_list_init
new_range-AreFiles moves junk global_r name g gs short few h =
    let fits : ltb range_name_len_max (length name) ≡ false = ground arith in
    let free = 4 - names_in (g ∷ gs) in
    let rounds = length-args_of (g ∷ gs) in
    let k = length (args_of (g ∷ gs)) + 2 in
    let loop =
      group_loop-args_of moves junk k false [] name global_r.id [] (g ∷ gs) free (omega arith)
        (omega arith) h (ground arith) in
    let four : rooms (g ∷ gs) free ≡ 4 = rooms-names_in (g ∷ gs) free ∙ omega arith in
    (
      range_with name global_r.id (files_after [] (g ∷ gs)) free,
      rw fits (
          ap
            (λ m.
              group_loop true moves junk k false false [] (range_with name global_r.id [] m)
                (args_of (g ∷ gs)))
            (sym four)
          ∙ loop),
      refl,
      rw (files-range_with name global_r.id (files_after [] (g ∷ gs)) free)
          (files_after-AreFiles [] (g ∷ gs) h),
    )
