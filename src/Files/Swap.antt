-- ===== src/Files/Swap.antt =====
-- file.c: swap_file_path, oracle_search, add_oracles, pull_swap_file and push_swap_file.
use b_project.Base.{
  ℕ, suc, ◌+◌, Bool, true, false, ◌&&◌, Option, none, some, List, [], ◌∷◌, ◌++◌, ◌==◌, ltb,
  if◌then◌else◌, length, drop,
}
use b_project.Base.Int.{ℤ, pos, negsuc}
use b_project.Base.Text.{Text, codes, strrchr, starts_with}
use b_project.IntervalTree.{ItNode}
use b_project.Sql.Resize.{sub64}
use b_project.Files.{OpenFile, Sent, lseek, write, sendfile}

-- struct oracles: the opening and the closing one.
pub record Oracles : Type 0 where
  pub opening : Text
  pub closing : Text

abbrev base_name : Text → Option Text → Text
base_name f_path none = f_path
base_name f_path (some s) = s

unfoldable pub swap_file_path : Text → Text → Text
swap_file_path src_dir f_path = src_dir ++ base_name f_path (strrchr f_path b'/') ++ codes ".swp"

-- One place further on.
abbrev pub later_by_one : Option ℕ → Option ℕ
later_by_one none = none
later_by_one (some n) = some (suc n)

-- strstr: the place of the first occurrence; a NUL byte ends the line for it.
unfoldable pub strstr : Text → Text → Option ℕ
strstr [] str = if starts_with [] str then some 0 else none
strstr (c ∷ line) str =
    let later = strstr line str in
    if starts_with (c ∷ line) str then some 0 else if c == 0 then none else later_by_one later

-- What the calls of getline give in turn, each line with its newline.
abbrev pub first_line : ℕ → List Text → List Text
first_line c [] = (c ∷ []) ∷ []
first_line c (line ∷ lines) = (c ∷ line) ∷ lines

unfoldable pub getlines : Text → List Text
getlines [] = []
getlines (c ∷ s) =
    let lines = getlines s in if c == 10 then (c ∷ []) ∷ lines else first_line c lines

-- What strstr gave for the line at `ret`, or what the lines behind it give.
abbrev pub in_line : ℕ → Option ℕ → Option ℕ → Option ℕ
in_line ret behind none = behind
in_line ret behind (some n) = some (ret + n)

-- The loop over the lines; `ret` is the offset of the next one.
unfoldable pub search_lines : List Text → Text → ℕ → Option ℕ
search_lines [] oracle ret = none
search_lines (line ∷ lines) oracle ret =
    in_line ret (search_lines lines oracle (ret + length line)) (strstr line oracle)

-- `opened` is whether fdopen gave a stream.
unfoldable pub oracle_search : Bool → List ℕ → Text → ℕ → Option ℕ
unfolding getlines search_lines
oracle_search opened swp oracle off =
    if opened then search_lines (getlines (drop off swp)) oracle off else none

-- One interval of add_oracles: the text in front of it, and the text in it between the oracles.
unfoldable pub oracle_pass : ℕ → ℕ → Oracles → ItNode → ℕ → OpenFile → OpenFile → Sent
oracle_pass most st_size o p swp_pos swp f =
    let adj_bound = if ltb st_size p.bound then st_size else p.bound in
    let front = sendfile most swp f (sub64 p.base swp_pos) in
    let inside =
      sendfile most (write o.opening front.target) front.source (sub64 adj_bound p.base) in
    record inside { target = write o.closing inside.target }

abbrev failed_last : Option ℕ → Bool
failed_last none = true
failed_last (some n) = false

-- The loop ends early behind an interval whose own text could not be sent.
unfoldable pub oracle_loop :
    ℕ → ℕ → Oracles → List ItNode → ℕ → OpenFile → OpenFile → OpenFile × OpenFile
oracle_loop most st_size o [] swp_pos swp f = (swp, f)
oracle_loop most st_size o (p ∷ ps) swp_pos swp f =
    let s = oracle_pass most st_size o p swp_pos swp f in
    let rest = oracle_loop most st_size o ps p.bound s.target s.source in
    if failed_last s.moved then (s.target, s.source) else rest

unfoldable pub add_oracles : ℕ → Oracles → List ItNode → OpenFile → OpenFile → OpenFile
add_oracles most o its swp f =
    let st_size = length f.bytes in
    let ends = oracle_loop most st_size o its 0 (lseek 0 swp).1 (lseek 0 f).1 in
    (sendfile most ends.0 ends.1 (sub64 st_size ends.1.at)).target

-- What pull_swap_file meets: the lock's code is not negative, the opens succeed.
pub record PullAnswers : Type 0 where
  pub locked : Bool
  pub backing_opened : Bool
  pub swp_opened : Bool

-- The swap file is opened without O_TRUNC: `old` is what a file of that name held.
unfoldable pub pull_swap_file :
    PullAnswers → ℕ → Oracles → List ItNode → List ℕ → List ℕ → ℤ × List ℕ
pull_swap_file a most o its backing old =
    if a.locked && a.backing_opened && a.swp_opened
    then (
      pos 0,
      (add_oracles most o its (record { bytes = old; at = 0 })
          (record { bytes = backing; at = 0 })).bytes,
    )
    else (negsuc 0, old)

-- The places of one interval in the swap file, searched for from `off` on.
unfoldable pub find_interval : Bool → List ℕ → Oracles → ℕ → Option (ℕ × ℕ)
find_interval opened swp o off = elim (oracle_search opened swp o.opening off) [
  | none ↦ none
  | some o_open ↦ elim (oracle_search opened swp o.closing (o_open + length o.opening)) [
    | none ↦ none
    | some o_close ↦ some (o_open + length o.opening, o_close)
  ]
]

-- The loop of push_swap_file: whether all intervals were found, and the nodes as they are then.
unfoldable pub find_intervals : Bool → List ℕ → Oracles → ℕ → List ItNode → Bool × List ItNode
find_intervals opened swp o off [] = (true, [])
find_intervals opened swp o off (p ∷ ps) = elim (find_interval opened swp o off) [
  | none ↦ (false, p ∷ ps)
  | some (base, bound) ↦
      let (found, qs) = find_intervals opened swp o (bound + length o.closing) ps in
      (found, record p { base = base; bound = bound } ∷ qs)
]

-- A search on a descriptor of -1 fails in fdopen.
unfoldable pub search_swap : Option (List ℕ) → Oracles → List ItNode → Bool × List ItNode
search_swap none o its = find_intervals false [] o 0 its
search_swap (some bytes) o its = find_intervals true bytes o 0 its

-- How a push ends: its result, whether the swap file is unlinked, the nodes and the world behind
-- query_resize_file.
pub record Pushed {ℓ} (W : Type ℓ) : Type ℓ where
  pub ret : ℤ
  pub unlinked : Bool
  pub nodes : List ItNode
  pub world : W

-- The first argument is the test of the global mode, `swp` the bytes of the swap file if it opens.
module _ {ℓ} {W : Type ℓ} (query_resize_file : List ItNode → W → ℤ × W) where
  unfoldable pub push_swap_file : Bool → Option (List ℕ) → Oracles → List ItNode → W → Pushed W
  push_swap_file true swp o its w = record { ret = pos 0; unlinked = true; nodes = its; world = w }
  push_swap_file false swp o its w =
      let searched = search_swap swp o its in
      if searched.0
      then record {
        ret = pos 0;
        unlinked = true;
        nodes = searched.1;
        world = (query_resize_file searched.1 w).1;
      }
      else record { ret = negsuc 1; unlinked = false; nodes = searched.1; world = w }
