-- ===== src/Files/RoundTrip.antt =====
-- file.c: a text that is pulled and written back without an edit.
use b_project.Base.{
  ℕ, ◌+◌, ◌-◌, ◌≤◌, ◌<◌, min, ◌≡◌, refl, ap, ◌∙◌, true, List, [], ◌∷◌, ◌++◌, length, drop,
  length-append, take_all, take-append_left, arith,
}
use b_project.Base.Int.{pos}
use b_project.IntervalTree.{ItNode}
use b_project.Sql.Resize.{OffsetUpdate}
use b_project.Files.{off_limit}
use b_project.Files.Copy.{slice, append_assoc, drop-append_add, slice-append-drop, length-slice}
use b_project.Files.Swap.{Oracles, PullAnswers, pull_swap_file}
use b_project.Files.Backing.{WriteAnswers, write_offset_update}
use b_project.Files.Pull.{marked, BeginInside, pull_swap_file_marks}
use b_project.Files.Splice.{splice, InOrder, write_offset_update_splices}

-- The updates for the places at which a pull has put the texts, from the offset `at` of the swap file
-- and the offset `from` of the backing file on.
unfoldable pub placed : Oracles → ℕ → ℕ → List ItNode → List OffsetUpdate
placed o at from [] = []
placed o at from (p ∷ ps) =
    let start = at + (p.base - from) + length o.opening in
    let end = start + (p.bound - p.base) in
    record { backing_start = p.base; backing_end = p.bound; swp_start = start; swp_end = end }
    ∷ placed o (end + length o.closing) p.bound ps

-- The intervals stand in order behind `from` and end inside the file.
unfoldable pub Inside : ℕ → List ℕ → List ItNode → Type 0
Inside from f [] = from ≤ length f
Inside from f (p ∷ ps) =
    (from ≤ p.base) × (p.base ≤ p.bound) × (p.bound ≤ length f) × Inside p.bound f ps

pub Inside-BeginInside :
    (from : ℕ) (f : List ℕ) (its : List ItNode) → Inside from f its → BeginInside from f its
unfolding Inside BeginInside
Inside-BeginInside from f [] h = tt
Inside-BeginInside from f (p ∷ ps) (h1, h2, h3, h) =
    (h1, h2, omega arith, Inside-BeginInside p.bound f ps h)

-- The part in the middle.
slice-middle :
    (a b c w : List ℕ) (start n : ℕ)
    → w ≡ a ++ (b ++ c)
    → length a ≡ start
    → length b ≡ n
    → slice start (start + n) w ≡ b
unfolding slice
slice-middle a b c w start n e la lb =
    let at : start + n - start ≡ length b = omega arith in
    let s : start ≡ length a + 0 = omega arith in
    let d : drop start (a ++ (b ++ c)) ≡ b ++ c =
      ap (λ k. drop k (a ++ (b ++ c))) s ∙ drop-append_add a (b ++ c) 0 in
    let t = take-append_left (length b) b c (omega arith) ∙ take_all (length b) b (omega arith) in
    rw (e, d, at) t

-- Appends taken apart around a text, and around what has been passed.
pub around :
    (pre t1 op t2 cl m tail : List ℕ)
    → pre ++ (t1 ++ (op ++ (t2 ++ (cl ++ m))) ++ tail)
      ≡ pre ++ t1 ++ op ++ (t2 ++ (cl ++ (m ++ tail)))
around pre t1 op t2 cl m tail = simp append_assoc

pub passed : (pre2 t2 cl s : List ℕ) → pre2 ++ (t2 ++ (cl ++ s)) ≡ pre2 ++ t2 ++ cl ++ s
passed pre2 t2 cl s = simp append_assoc

module _ (o : Oracles) (f : List ℕ) where
  splice-placed :
      (its : List ItNode) (w pre tail : List ℕ) (at from : ℕ)
      → Inside from f its
      → length pre ≡ at
      → w ≡ pre ++ (marked o from f its ++ tail)
      → (splice from f w (placed o at from its) ≡ drop from f)
        × InOrder from f w (placed o at from its)
  unfolding splice InOrder placed Inside marked
  splice-placed [] w pre tail at from h la e = (refl, h)
  splice-placed (p ∷ ps) w pre tail at from (h1, h2, h3, h) la e =
      let m = marked o p.bound f ps in
      let t1 = slice from p.base f in
      let t2 = slice p.base p.bound f in
      let pre2 = pre ++ t1 ++ o.opening in
      let cut : min p.bound (length f) ≡ p.bound = omega arith in
      let e2 : w ≡ pre2 ++ (t2 ++ (o.closing ++ (m ++ tail))) =
        e
        ∙ ap (λ t. pre ++ (t1 ++ (o.opening ++ (slice p.base t f ++ (o.closing ++ m))) ++ tail)) cut
        ∙ around pre t1 o.opening t2 o.closing m tail in
      let e3 : w ≡ pre2 ++ t2 ++ o.closing ++ (m ++ tail) =
        e2 ∙ passed pre2 t2 o.closing (m ++ tail) in
      let start = at + (p.base - from) + length o.opening in
      let n = p.bound - p.base in
      let l1 = length-slice from p.base f (omega arith) in
      let l2 = length-slice p.base p.bound f h3 in
      let l3 = length-append (pre ++ t1) o.opening in
      let l4 = length-append pre t1 in
      let l5 = length-append (pre2 ++ t2) o.closing in
      let l6 = length-append pre2 t2 in
      let ls : length pre2 ≡ start = omega (arith, l1, l3, l4, la) in
      let lw = ap length e3 ∙ length-append (pre2 ++ t2 ++ o.closing) (m ++ tail) in
      let (same, ordered) =
        splice-placed ps w (pre2 ++ t2 ++ o.closing) tail (start + n + length o.closing) p.bound h
          (omega (arith, ls, l2, l5, l6)) e3 in
      let text = slice-middle pre2 t2 (o.closing ++ (m ++ tail)) w start n e2 ls l2 in
      let joined =
        ap (λ s. t1 ++ s) (slice-append-drop p.base p.bound f h2)
        ∙ slice-append-drop from p.base f h1 in
      (
        rw (text, same) joined,
        (h1, h2, h3, omega arith, omega (arith, lw, ls, l2, l5, l6), ordered),
      )

-- The answers of a run in which nothing fails.
abbrev pub all_opened : PullAnswers
all_opened = record { locked = true; backing_opened = true; swp_opened = true }

abbrev pub all_written : WriteAnswers
all_written = record { tmp_opened = true; locked = true; backing_opened = true }

-- A text that was pulled and not edited is written back as it was: with the updates for the places at
-- which pull_swap_file has put the texts, write_offset_update gives 0 and the file of before. The
-- intervals stand in order inside the file, and one sendfile can move it and the swap file.
pub pull_swap_file-write_offset_update :
    (most : ℕ) (o : Oracles) (its : List ItNode) (f old : List ℕ)
    → length f ≤ most
    → length (marked o 0 f its ++ drop (length (marked o 0 f its)) old) ≤ most
    → most < off_limit
    → Inside 0 f its
    → write_offset_update all_written most
        (placed o 0 0 its)
        f
        (pull_swap_file all_opened most o its f old).1
      ≡ record { ret = pos 0; bytes = f; release_set = true }
pull_swap_file-write_offset_update most o its f old hf hw fits h =
    let m = marked o 0 f its in
    let swp = m ++ drop (length m) old in
    let (same, ordered) = splice-placed o f its swp [] (drop (length m) old) 0 0 h refl refl in
    let all = ap length same in
    let pulled =
      pull_swap_file_marks all_opened most o its f old hf fits (Inside-BeginInside 0 f its h) in
    let written =
      write_offset_update_splices all_written most (placed o 0 0 its) f swp hf hw
        (omega (arith, all)) fits ordered in
    ap (λ r. write_offset_update all_written most (placed o 0 0 its) f r.1) pulled
    ∙ written
    ∙ ap (λ s. record { ret = pos 0; bytes = s; release_set = true }) same
