-- ===== src/Cli/NewRange/Files.antt =====
-- The -f of the mode -g: the files that a range gets, in its first array.
use b_project.Base.{
  ℕ, suc, ◌+◌, ◌-◌, ◌≤◌, ◌<◌, ◌≡◌, refl, ap, ◌∙◌, Bool, true, false, ◌&&◌, some, List, [], ◌∷◌,
  ◌++◌, map, any, length, get_elem?, set, replicate, ◌==◌, leb, ltb, append_assoc, append-nil,
  length-append, take-append_left, take_all, arith,
}
use Prim.Native.Nat.{bit_and}
use b_project.Base.Text.{Text}
use b_project.AList.{is_full, a_list_add}
use b_project.IntervalTree.{ItNode}
use b_project.IntervalTree.Shape.{IsTree, covers, inside, touched}
use b_project.IntervalTree.Shape
use b_project.Range.{
  Range, RangeFile, zeroed, slot_at, files, has_path, path_max, range_add_new_file, range_add_file,
}
use b_project.Sql.Intervals.{id_none}
use b_project.Cli.NewRange.{Pointers, add_files}

-- A file with these intervals.
abbrev pub file_with : List ItNode → Text → RangeFile
file_with xs path = record {
  it = some (Shape.slots xs);
  file_path = some path;
  id = id_none;
  num_it = length xs;
}

-- A range with these files and k zeroed slots behind them.
abbrev pub range_with : Text → ℕ → List RangeFile → ℕ → Range
range_with name id fs k = record {
  ls = record { ls = some (fs ++ replicate k zeroed); sz = length fs };
  name = some name;
  id = id;
}

pub files-range_with :
    (name : Text) (id : ℕ) (fs : List RangeFile) (k : ℕ) → files (range_with name id fs k) ≡ fs
files-range_with name id fs k =
    take-append_left (length fs) fs (replicate k zeroed) (omega arith)
    ∙ take_all (length fs) fs (omega arith)

-- The element behind a list, and another one put in its place.
pub behind_list {ℓ} :
    {A : Type ℓ} (xs ys : List A) (x y : A)
    → (get_elem? (xs ++ x ∷ ys) (length xs) ≡ some x)
      × (set (xs ++ x ∷ ys) (length xs) y ≡ xs ++ y ∷ ys)
behind_list [] ys x y = (refl, refl)
behind_list (z ∷ xs) ys x y = let (g, s) = behind_list xs ys x y in (g, ap (λ l. z ∷ l) s)

pub slot_at-behind :
    (junk : RangeFile) (xs ys : List RangeFile) (x : RangeFile)
    → slot_at junk (xs ++ x ∷ ys) (length xs) ≡ x
slot_at-behind junk [] ys x = refl
slot_at-behind junk (z ∷ xs) ys x = slot_at-behind junk xs ys x

-- Names that are not those of the files, nor of each other, and not too long.
abbrev pub NewNames : List RangeFile → List Text → Type 0
NewNames fs [] = Unit
NewNames fs (n ∷ names) =
    (any (has_path n) fs ≡ false)
    × (length n ≤ path_max)
    × NewNames (fs ++ file_with [] n ∷ []) names

and_false : (b : Bool) → (b && false) ≡ false
and_false true = refl
and_false false = refl

is_full_small : (n : ℕ) → n < 4 → is_full n ≡ false
unfolding is_full
is_full_small n h =
    let room : leb 4 n ≡ false = ground arith in rw room (and_false (bit_and n (n - 1) == 0))

range_add_new_file-range_with :
    (junk : RangeFile) (name : Text) (id : ℕ) (fs : List RangeFile) (k : ℕ) (n : Text)
    → length fs < 4
    → any (has_path n) fs ≡ false
    → length n ≤ path_max
    → range_add_new_file true true junk (range_with name id fs (suc k)) n id_none
      ≡ (range_with name id (fs ++ file_with [] n ∷ []) k, some (length fs))
unfolding range_add_new_file range_add_file a_list_add
range_add_new_file-range_with junk name id fs k n l new short =
    let same = files-range_with name id fs (suc k) in
    let fits : ltb path_max (length n) ≡ false = ground arith in
    let at = slot_at-behind junk fs (replicate k zeroed) zeroed in
    let (_, put) = behind_list fs (replicate k zeroed) zeroed (file_with [] n) in
    let longer : length (fs ++ file_with [] n ∷ []) ≡ length fs + 1 =
      length-append fs (file_with [] n ∷ []) in
    let whole = append_assoc fs (file_with [] n ∷ []) (replicate k zeroed) in
    rw (same, new, fits, is_full_small (length fs) l, at, put, longer, whole)

-- The pointers to files one after the other.
abbrev pub pointers : ℕ → List Text → Pointers
pointers i [] = []
pointers i (n ∷ names) = some i ∷ pointers (suc i) names

-- k slots, and one for each name.
abbrev pub room_for : List Text → ℕ → ℕ
room_for [] k = k
room_for (n ∷ names) k = suc (room_for names k)

pub add_files-range_with :
    (moves : Bool) (junk : RangeFile) (name : Text) (id : ℕ) (fs : List RangeFile) (k : ℕ)
    (ps : Pointers) (names : List Text)
    → length fs + length names ≤ 4
    → NewNames fs names
    → add_files true moves junk (range_with name id fs (room_for names k)) ps names
      ≡ some
          (range_with name id (fs ++ map (file_with []) names) k, ps ++ pointers (length fs) names)
unfolding add_files
add_files-range_with moves junk name id fs k ps [] l new = rw (append-nil fs, append-nil ps)
add_files-range_with moves junk name id fs k ps (n ∷ names) l (free, short, new) =
    let one =
      range_add_new_file-range_with junk name id fs (room_for names k) n (omega arith) free short in
    let still = is_full_small (length fs) (omega arith) in
    let longer : length (fs ++ file_with [] n ∷ []) ≡ suc (length fs) =
      omega (arith, length-append fs (file_with [] n ∷ [])) in
    let rest =
      add_files-range_with moves junk name id (fs ++ file_with [] n ∷ []) k
        (ps ++ some (length fs) ∷ []) names (omega arith) new in
    let files_same = append_assoc fs (file_with [] n ∷ []) (map (file_with []) names) in
    let ps_same = append_assoc ps (some (length fs) ∷ []) (pointers (suc (length fs)) names) in
    rw (one, still, and_false moves) (rest ∙ rw (longer, files_same, ps_same))
