-- ===== src/Files/Splice.antt =====
-- file.c, write_offset_update: the loop over the updates as a splice of two files.
use b_project.Base.{
  ℕ, ◌+◌, ◌-◌, ◌≤◌, ◌<◌, ◌≡◌, refl, ap, ◌∙◌, true, List, [], ◌∷◌, ◌++◌, lt→ltb, length, take, drop,
  length-drop, take_all, replicate, ◌&&◌, if◌then◌else◌, arith,
}
use b_project.Base.Int.{pos, negsuc}
use b_project.Sql.Resize.{OffsetUpdate}
use b_project.Sql.Resize.Offsets.{sub64-exact}
use b_project.Files.{off_limit, lseek}
use b_project.Files.Copy.{
  slice, over, file, append_assoc, append_nil, drop_nil, take-length_append, sendfile-over,
}
use b_project.Files.Backing.{
  Copying, copy_update, copy_updates, WriteAnswers, copy_back, write_offset_update,
}

-- The file with the text of each update in place of its interval, from `from` on.
unfoldable pub splice : ℕ → List ℕ → List ℕ → List OffsetUpdate → List ℕ
splice from b w [] = drop from b
splice from b w (u ∷ us) =
    slice from u.backing_start b ++ (slice u.swp_start u.swp_end w ++ splice u.backing_end b w us)

-- The intervals stand in order behind `from`, inside the two files.
unfoldable pub InOrder : ℕ → List ℕ → List ℕ → List OffsetUpdate → Type 0
InOrder from b w [] = from ≤ length b
InOrder from b w (u ∷ us) =
    (from ≤ u.backing_start)
    × (u.backing_start ≤ u.backing_end)
    × (u.backing_end ≤ length b)
    × (u.swp_start ≤ u.swp_end)
    × (u.swp_end ≤ length w)
    × InOrder u.backing_end b w us

module _ (most : ℕ) (b w : List ℕ) (b_fits : length b ≤ most) (w_fits : length w ≤ most)
    (fits : most < off_limit) where
  -- The state of the loop: the bytes written, and the two offsets.
  abbrev copying : List ℕ → ℕ → ℕ → Copying
  copying out from q = record {
    tmp = over out [];
    backing = file b from;
    swp = file w q;
    offset = from;
  }

  copy_update-copying :
      (u : OffsetUpdate) (out : List ℕ) (from q : ℕ)
      → from ≤ u.backing_start
      → u.backing_start ≤ u.backing_end
      → u.backing_end ≤ length b
      → u.swp_start ≤ u.swp_end
      → u.swp_end ≤ length w
      → copy_update most u (copying out from q)
        ≡ copying
            ((out ++ slice from u.backing_start b) ++ slice u.swp_start u.swp_end w)
            u.backing_end
            u.swp_end
  unfolding copy_update lseek slice
  copy_update-copying u out from q h1 h2 h3 h4 h5 =
      let n = u.backing_start - from in
      let m = u.swp_end - u.swp_start in
      let e1 = sub64-exact u.backing_start from h1 (omega arith) in
      let e2 = sub64-exact u.swp_end u.swp_start h4 (omega arith) in
      let s1 = sendfile-over most out [] b from n (omega arith) (omega arith) (omega arith) in
      let out' = out ++ take n (drop from b) in
      let s2 =
        sendfile-over most out' [] w u.swp_start m (omega arith) (omega arith) (omega arith) in
      let l1 = lt→ltb u.backing_end off_limit (omega arith) in
      let l2 = lt→ltb u.swp_start off_limit (omega arith) in
      let q' : u.swp_start + (u.swp_end - u.swp_start) ≡ u.swp_end = omega arith in
      rw (e1, e2, s1, l1, l2, s2, q')

  copy_updates-copying :
      (us : List OffsetUpdate) (out : List ℕ) (from q : ℕ)
      → InOrder from b w us
      → (out' : List ℕ) × (from' : ℕ) × (q' : ℕ) × (copy_updates most us (copying out from q)
          ≡ copying out' from' q')
        × (from' ≤ length b)
        × (out' ++ drop from' b ≡ out ++ splice from b w us)
  unfolding copy_updates splice InOrder
  copy_updates-copying [] out from q h = (out, from, q, refl, h, refl)
  copy_updates-copying (u ∷ us) out from q (h1, h2, h3, h4, h5, h) =
      let out1 = (out ++ slice from u.backing_start b) ++ slice u.swp_start u.swp_end w in
      let (out', from', q', e, l, spliced) =
        copy_updates-copying us out1 u.backing_end u.swp_end h in
      let step = copy_update-copying u out from q h1 h2 h3 h4 h5 in
      let e' = ap (copy_updates most us) step ∙ e in
      let same =
        append_assoc (out ++ slice from u.backing_start b) (slice u.swp_start u.swp_end w)
          (splice u.backing_end b w us)
        ∙ append_assoc out (slice from u.backing_start b)
            (slice u.swp_start u.swp_end w ++ splice u.backing_end b w us) in
      (out', from', q', e', l, spliced ∙ same)

copy_back-exact :
    (most : ℕ) (x b : List ℕ) (at : ℕ)
    → length x ≤ most
    → most < off_limit
    → copy_back most (over x []) (file b at) ≡ record { ret = pos 0; bytes = x; release_set = true }
unfolding copy_back lseek
copy_back-exact most x b at h fits =
    let e = drop_nil {A = ℕ} (length x) in
    let pad : List ℕ = replicate (length x - length (x ++ drop (length x) b)) 0 in
    let s = sendfile-over most [] b x 0 (length x) h (omega arith) (omega arith) in
    let all = take_all (length x) x (omega arith) in
    let front = take-length_append x (drop (length x) b) pad in rw (e, append_nil x, s, all, front)

-- write_offset_update either fails in front of the point of no return, and the file is as it was, or it
-- gives 0 and the file has the text of each update in place of its interval. The updates stand in order
-- inside the files, and one sendfile moves as much as the old file, the swap file and the new file hold.
-- The lock that is released was never set if the temporary file could not be made.
pub write_offset_update_splices :
    (a : WriteAnswers) (most : ℕ) (us : List OffsetUpdate) (b w : List ℕ)
    → length b ≤ most
    → length w ≤ most
    → length (splice 0 b w us) ≤ most
    → most < off_limit
    → InOrder 0 b w us
    → write_offset_update a most us b w ≡ (
        if a.tmp_opened && a.locked && a.backing_opened
        then record { ret = pos 0; bytes = splice 0 b w us; release_set = true }
        else record { ret = negsuc 0; bytes = b; release_set = a.tmp_opened })
unfolding write_offset_update
write_offset_update_splices a most us b w hb hw hs fits h =
    let (out, from, q, e, l, spliced) = copy_updates-copying most b w hb hw fits us [] 0 0 h in
    let n = length b - from in
    let s = sendfile-over most out [] b from n (omega arith) (omega arith) (omega arith) in
    let exact = sub64-exact (length b) from l (omega arith) in
    let rest : take n (drop from b) ≡ drop from b =
      take_all n (drop from b) (omega (arith, length-drop from b)) in
    let back = copy_back-exact most (splice 0 b w us) b (from + n) hs fits in
    rw (e, exact, s, rest, spliced, back)
