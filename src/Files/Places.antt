-- ===== src/Files/Places.antt =====
-- file.c: a push finds the texts where the pull has put them.
use b_project.Base.{
  ℕ, zero, suc, ◌+◌, ◌-◌, ◌≤◌, ◌<◌, min, ◌≡◌, refl, ap, sym, ◌∙◌, Bool, true, false, Option, none,
  some, List, [], ◌∷◌, ◌++◌, length, drop, length-append, if◌then◌else◌, arith,
}
use b_project.Base.Text.{Text, starts_with}
use b_project.Base.Int.{pos}
use b_project.IntervalTree.{ItNode}
use b_project.Files.{off_limit}
use b_project.Files.Copy.{slice, append_assoc, drop-append_add, length-slice}
use b_project.Files.Swap.{
  Oracles, later_by_one, oracle_search, find_interval, find_intervals, pull_swap_file,
}
use b_project.Files.Pull.{marked, pull_swap_file_marks}
use b_project.Files.Search.{find, shift, NoNewline, NoNul, oracle_search-find}
use b_project.Sql.Resize.{OffsetUpdate}
use b_project.Files.Backing.{write_offset_update}
use b_project.Files.RoundTrip.{
  Inside, Inside-BeginInside, all_opened, all_written, around, passed, placed,
  pull_swap_file-write_offset_update,
}

starts_with-append : (s r o : Text) → length o ≤ length s → starts_with (s ++ r) o ≡ starts_with s o
starts_with-append s r [] h = refl
starts_with-append [] r (x ∷ o) h = absurd (omega arith)
starts_with-append (c ∷ s) r (x ∷ o) h = rw (starts_with-append s r o (omega arith))

-- The oracle behind a text begins nowhere earlier.
unfoldable pub FirstAt : Text → Text → Type 0
FirstAt t o = find (t ++ o) o ≡ some (length t)

starts_with_self : (o r : Text) → starts_with (o ++ r) o ≡ true
starts_with_self [] r = refl
starts_with_self (x ∷ o) r = ground (arith, starts_with_self o r)

find_self : (o r : Text) → find (o ++ r) o ≡ some 0
unfolding find
find_self [] [] = refl
find_self [] (c ∷ r) = refl
find_self (x ∷ o) r = rw (starts_with_self (x ∷ o) r)

later_inverse : (r : Option ℕ) (n : ℕ) → later_by_one r ≡ some (suc n) → r ≡ some n
later_inverse none n h = absurd cc
later_inverse (some m) n h = cc

not_here :
    (b : Bool) (r : Option ℕ) (n : ℕ)
    → (if b then some 0 else later_by_one r) ≡ some (suc n)
    → (b ≡ false) × (r ≡ some n)
not_here true r n h = cc
not_here false r n h = (refl, later_inverse r n h)

find-append : (t o r : Text) → FirstAt t o → find (t ++ (o ++ r)) o ≡ some (length t)
unfolding find FirstAt
find-append [] o r h = find_self o r
find-append (c ∷ t) o r h =
    let l : length o ≤ length (c ∷ t ++ o) = omega (arith, length-append (c ∷ t) o) in
    let same =
      ap (λ s. starts_with s o) (sym (append_assoc (c ∷ t) o r))
      ∙ starts_with-append (c ∷ t ++ o) r o l in
    let (b, g) = not_here (starts_with (c ∷ t ++ o) o) (find (t ++ o) o) (length t) h in
    let b' = same ∙ b in rw b' (ap later_by_one (find-append t o r g))

-- No oracle begins by chance in the texts in front of the intervals and inside them.
unfoldable pub Unmistakable : Oracles → ℕ → List ℕ → List ItNode → Type 0
Unmistakable o from f [] = Unit
Unmistakable o from f (p ∷ ps) =
    FirstAt (slice from p.base f) o.opening
    × FirstAt (slice p.base p.bound f) o.closing
    × Unmistakable o p.bound f ps

-- The nodes with the places of their texts in the swap file.
unfoldable pub moved : Oracles → ℕ → ℕ → List ItNode → List ItNode
moved o at from [] = []
moved o at from (p ∷ ps) =
    let start = at + (p.base - from) + length o.opening in
    let end = start + (p.bound - p.base) in
    record p { base = start; bound = end } ∷ moved o (end + length o.closing) p.bound ps

-- Not empty, and without a newline.
abbrev IsOracle : Text → Type 0
IsOracle [] = ⊥
IsOracle (x ∷ o) = NoNewline (x ∷ o)

NoNul-drop : (n : ℕ) (s : Text) → NoNul s → NoNul (drop n s)
NoNul-drop zero s h = h
NoNul-drop (suc n) [] h = tt
NoNul-drop (suc n) (c ∷ s) (h, hs) = NoNul-drop n s hs

-- One search, at the end of what has been passed.
oracle_search-FirstAt :
    (w pre t o r : Text) (at : ℕ)
    → IsOracle o
    → NoNul w
    → w ≡ pre ++ (t ++ (o ++ r))
    → length pre ≡ at
    → FirstAt t o
    → oracle_search true w o at ≡ some (at + length t)
oracle_search-FirstAt w pre t [] r at io z e l h = absurd io
oracle_search-FirstAt w pre t (x ∷ o) r at io z e l h =
    let s = oracle_search-find w x o at io (NoNul-drop at w z) in
    let n : at ≡ length pre + 0 = omega arith in
    let d : drop at w ≡ t ++ (x ∷ o ++ r) =
      ap (drop at) e
      ∙ ap (λ k. drop k (pre ++ (t ++ (x ∷ o ++ r)))) n
      ∙ drop-append_add pre (t ++ (x ∷ o ++ r)) 0 in
    s ∙ ap (λ y. shift at (find y (x ∷ o))) d ∙ ap (shift at) (find-append t (x ∷ o) r h)

module _ (o : Oracles) (f : List ℕ) (is_opening : IsOracle o.opening)
    (is_closing : IsOracle o.closing) where
  find_intervals-moved :
      (its : List ItNode) (w pre tail : List ℕ) (at from : ℕ)
      → NoNul w
      → Inside from f its
      → Unmistakable o from f its
      → length pre ≡ at
      → w ≡ pre ++ (marked o from f its ++ tail)
      → find_intervals true w o at its ≡ (true, moved o at from its)
  unfolding find_intervals find_interval Unmistakable moved Inside marked
  find_intervals-moved [] w pre tail at from z h u la e = refl
  find_intervals-moved (p ∷ ps) w pre tail at from z (h1, h2, h3, h) (u1, u2, u) la e =
      let m = marked o p.bound f ps in
      let t1 = slice from p.base f in
      let t2 = slice p.base p.bound f in
      let pre2 = pre ++ t1 ++ o.opening in
      let cut : min p.bound (length f) ≡ p.bound = omega arith in
      let e2 : w ≡ pre2 ++ (t2 ++ (o.closing ++ (m ++ tail))) =
        e
        ∙ ap (λ t. pre ++ (t1 ++ (o.opening ++ (slice p.base t f ++ (o.closing ++ m))) ++ tail)) cut
        ∙ around pre t1 o.opening t2 o.closing m tail in
      let e1 =
        e2
        ∙ append_assoc (pre ++ t1) o.opening (t2 ++ (o.closing ++ (m ++ tail)))
        ∙ append_assoc pre t1 (o.opening ++ (t2 ++ (o.closing ++ (m ++ tail)))) in
      let e3 = e2 ∙ passed pre2 t2 o.closing (m ++ tail) in
      let start = at + (p.base - from) + length o.opening in
      let l1 = length-slice from p.base f (omega arith) in
      let l2 = length-slice p.base p.bound f h3 in
      let l3 = length-append (pre ++ t1) o.opening in
      let l4 = length-append pre t1 in
      let l5 = length-append (pre2 ++ t2) o.closing in
      let l6 = length-append pre2 t2 in
      let ls : length pre2 ≡ start = omega (arith, l1, l3, l4, la) in
      let s1 =
        oracle_search-FirstAt w pre t1 o.opening (t2 ++ (o.closing ++ (m ++ tail))) at is_opening z
          e1 la u1
        ∙ ap (λ k. some (at + k)) l1 in
      let s2 =
        oracle_search-FirstAt w pre2 t2 o.closing (m ++ tail) start is_closing z e2 ls u2
        ∙ ap (λ k. some (start + k)) l2 in
      let ih =
        find_intervals-moved ps w (pre2 ++ t2 ++ o.closing) tail
          (start + (p.bound - p.base) + length o.closing) p.bound z h u
          (omega (arith, ls, l2, l5, l6)) e3 in
      rw (find_intervals, find_interval, s1, s2, ih)

-- The updates for rows and the nodes that a push has found, as query_resize_file fills them in when no
-- row has moved: the row's offsets and the node's.
unfoldable pub updates : List ItNode → List ItNode → List OffsetUpdate
updates [] qs = []
updates (p ∷ ps) [] = []
updates (p ∷ ps) (q ∷ qs) =
    record { backing_start = p.base; backing_end = p.bound; swp_start = q.base; swp_end = q.bound }
    ∷ updates ps qs

updates-moved :
    (o : Oracles) (at from : ℕ) (its : List ItNode)
    → updates its (moved o at from its) ≡ placed o at from its
unfolding updates moved placed
updates-moved o at from [] = refl
updates-moved o at from (p ∷ ps) =
    let start = at + (p.base - from) + length o.opening in
    let end = start + (p.bound - p.base) in
    ap
      (◌∷◌ (record {
        backing_start = p.base;
        backing_end = p.bound;
        swp_start = start;
        swp_end = end;
      }))
      (updates-moved o (end + length o.closing) p.bound ps)

-- A text that is pulled and not edited survives the push: in the swap file that pull_swap_file writes, the
-- search of push_swap_file finds every interval, and write_offset_update with the rows' offsets and the
-- places found gives 0 and the file of before. Every open, lock, read and write succeeds; the intervals
-- stand in order inside the file, which one
-- sendfile can move, and so the swap file; no oracle is empty, holds a newline or begins by chance in the
-- texts, and the swap file holds no NUL byte.
pub pull_swap_file-find_intervals :
    (most : ℕ) (o : Oracles) (its : List ItNode) (f old : List ℕ)
    → length f ≤ most
    → length (marked o 0 f its ++ drop (length (marked o 0 f its)) old) ≤ most
    → most < off_limit
    → Inside 0 f its
    → IsOracle o.opening
    → IsOracle o.closing
    → Unmistakable o 0 f its
    → NoNul (marked o 0 f its ++ drop (length (marked o 0 f its)) old)
    → let swp = (pull_swap_file all_opened most o its f old).1 in
      let found = find_intervals true swp o 0 its in
      (found.0 ≡ true)
      × (write_offset_update all_written most (updates its found.1) f swp
          ≡ record { ret = pos 0; bytes = f; release_set = true })
pull_swap_file-find_intervals most o its f old hf hw fits h io ic u z =
    let m = marked o 0 f its in
    let tail = drop (length m) old in
    let pulled =
      pull_swap_file_marks all_opened most o its f old hf fits (Inside-BeginInside 0 f its h) in
    let swp = (pull_swap_file all_opened most o its f old).1 in
    let found =
      ap (λ r. find_intervals true r.1 o 0 its) pulled
      ∙ find_intervals-moved o f io ic its (m ++ tail) [] tail 0 0 z h u refl refl in
    let back = pull_swap_file-write_offset_update most o its f old hf hw fits h in
    let same = ap (λ r. updates its r.1) found ∙ updates-moved o 0 0 its in
    (ap (λ r. r.0) found, ap (λ us. write_offset_update all_written most us f swp) same ∙ back)
