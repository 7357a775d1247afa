-- ===== src/Files/Pull.antt =====
-- file.c, add_oracles and pull_swap_file: the text that a pull writes.
use b_project.Base.{
  ℕ, zero, suc, ◌+◌, ◌-◌, ◌≤◌, ◌<◌, min, ◌≡◌, refl, ap, sym, ◌∙◌, subst, ◌&&◌, some, List, [], ◌∷◌,
  ◌++◌, ltb, if◌then◌else◌, length, take, drop, length-drop, take_all, arith,
}
use b_project.Base.Int.{pos, negsuc}
use b_project.IntervalTree.{ItNode}
use b_project.Sql.Resize.{sub64}
use b_project.Sql.Resize.Offsets.{sub64-exact}
use b_project.Files.{OpenFile, off_limit, lseek, sendfile}
use b_project.Files.Copy.{slice, over, file, append_assoc, write-over, sendfile-over}
use b_project.Files.Swap.{
  Oracles, oracle_pass, oracle_loop, add_oracles, PullAnswers, pull_swap_file,
}

-- The file from `from` on, each interval between the oracles; an interval's end is cut to the file's.
unfoldable pub marked : Oracles → ℕ → List ℕ → List ItNode → List ℕ
marked o from f [] = drop from f
marked o from f (p ∷ ps) =
    slice from p.base f
    ++ (o.opening
        ++ (slice p.base (min p.bound (length f)) f ++ (o.closing ++ marked o p.bound f ps)))

-- The intervals stand in order behind `from` and begin inside the file.
unfoldable pub BeginInside : ℕ → List ℕ → List ItNode → Type 0
BeginInside from f [] = Unit
BeginInside from f (p ∷ ps) =
    (from ≤ p.base) × (p.base ≤ p.bound) × (p.base ≤ length f) × BeginInside p.bound f ps

adjusted : (bound size : ℕ) → (if ltb size bound then size else bound) ≡ min bound size
adjusted bound size = ground arith

drop-min : (n : ℕ) (xs : List ℕ) → drop (min n (length xs)) xs ≡ drop n xs
drop-min zero xs = let e : min 0 (length xs) ≡ 0 = omega arith in ap (λ k. drop k xs) e
drop-min (suc n) [] = let e : min (suc n) 0 ≡ 0 = omega arith in ap (λ k. drop {A = ℕ} k []) e
drop-min (suc n) (x ∷ xs) =
    let e : min (suc n) (suc (length xs)) ≡ suc (min n (length xs)) = omega arith in
    rw e (drop-min n xs)

five : (a b c d e m : List ℕ) → a ++ b ++ c ++ d ++ e ++ m ≡ a ++ (b ++ (c ++ (d ++ (e ++ m))))
five a b c d e m = simp append_assoc

module _ (most : ℕ) (o : Oracles) (f old : List ℕ) (f_fits : length f ≤ most)
    (fits : most < off_limit) where
  oracle_pass-over :
      (p : ItNode) (out : List ℕ) (from : ℕ)
      → from ≤ p.base
      → p.base ≤ p.bound
      → p.base ≤ length f
      → let adj = min p.bound (length f) in
        oracle_pass most (length f) o p from (over out old) (file f (min from (length f)))
        ≡ record {
          moved = some (adj - p.base);
          target =
              over (out ++ slice from p.base f ++ o.opening ++ slice p.base adj f ++ o.closing) old;
          source = file f adj;
        }
  unfolding oracle_pass slice
  oracle_pass-over p out from h1 h2 h3 =
      let adj = min p.bound (length f) in
      let at : min from (length f) ≡ from = omega arith in
      let e1 = sub64-exact p.base from h1 (omega arith) in
      let e2 = sub64-exact adj p.base (omega arith) (omega arith) in
      let out1 = out ++ take (p.base - from) (drop from f) in
      let s1 =
        sendfile-over most out old f from (p.base - from) (omega arith) (omega arith)
          (omega arith) in
      let b : from + (p.base - from) ≡ p.base = omega arith in
      let w1 = write-over o.opening out1 old in
      let out2 = out1 ++ o.opening in
      let s2 =
        sendfile-over most out2 old f p.base (adj - p.base) (omega arith) (omega arith)
          (omega arith) in
      let e : p.base + (adj - p.base) ≡ adj = omega arith in
      let w2 = write-over o.closing (out2 ++ take (adj - p.base) (drop p.base f)) old in
      rw (at, adjusted p.bound (length f), e1, s1, b, w1, e2, s2, e, w2)

  oracle_loop-over :
      (its : List ItNode) (out : List ℕ) (from : ℕ)
      → BeginInside from f its
      → (out' : List ℕ) × (at : ℕ) × (oracle_loop most
            (length f)
            o
            its
            from
            (over out old)
            (file f (min from (length f)))
          ≡ (over out' old, file f at))
        × (at ≤ length f)
        × (out' ++ drop at f ≡ out ++ marked o from f its)
  unfolding oracle_loop marked BeginInside
  oracle_loop-over [] out from h =
      (out, min from (length f), refl, omega arith, ap (λ s. out ++ s) (drop-min from f))
  oracle_loop-over (p ∷ ps) out from (h1, h2, h3, h) =
      let adj = min p.bound (length f) in
      let t1 = slice from p.base f in
      let t2 = slice p.base adj f in
      let out1 = out ++ t1 ++ o.opening ++ t2 ++ o.closing in
      let (out', at, e, l, same) = oracle_loop-over ps out1 p.bound h in
      let step = oracle_pass-over p out from h1 h2 h3 in
      let e' : oracle_loop most (length f) o (p ∷ ps) from (over out old)
            (file f (min from (length f)))
          ≡ (over out' old, file f at) =
        rw step e in
      (out', at, e', l, same ∙ five out t1 o.opening t2 o.closing (marked o p.bound f ps))

  add_oracles-over :
      (its : List ItNode)
      → BeginInside 0 f its
      → add_oracles most o its (over [] old) (file f 0) ≡ over (marked o 0 f its) old
  unfolding add_oracles lseek
  add_oracles-over its h =
      let at0 : 0 ≡ min 0 (length f) = omega arith in
      let (out, at, e, l, same) = oracle_loop-over its [] 0 h in
      let n = length f - at in
      let exact = sub64-exact (length f) at l (omega arith) in
      let s = sendfile-over most out old f at n (omega arith) (omega arith) (omega arith) in
      let rest : take n (drop at f) ≡ drop at f =
        take_all n (drop at f) (omega (arith, length-drop at f)) in
      let e' : oracle_loop most (length f) o its 0 (over [] old) (file f 0)
          ≡ (over out old, file f at) =
        subst
          (λ k.
            oracle_loop most (length f) o its 0 (over [] old) (file f k)
            ≡ (over out old, file f at))
          (sym at0) e in
      let close : OpenFile × OpenFile → OpenFile =
        λ r. (sendfile most r.0 r.1 (sub64 (length f) r.1.at)).target in
      let closed : close (over out old, file f at) ≡ over (marked o 0 f its) old =
        rw (exact, s, rest, same) in
      ap close e' ∙ closed

-- pull_swap_file either fails, and the swap file is as it was, or it gives 0 and writes the backing file
-- with each interval between the oracles; what an older swap file held behind that stays. The intervals
-- stand in order and begin inside the file, which one sendfile can move.
pub pull_swap_file_marks :
    (a : PullAnswers) (most : ℕ) (o : Oracles) (its : List ItNode) (f old : List ℕ)
    → length f ≤ most
    → most < off_limit
    → BeginInside 0 f its
    → pull_swap_file a most o its f old ≡ (
        if a.locked && a.backing_opened && a.swp_opened
        then (pos 0, marked o 0 f its ++ drop (length (marked o 0 f its)) old)
        else (negsuc 0, old))
unfolding pull_swap_file
pull_swap_file_marks a most o its f old hf fits h = rw (add_oracles-over most o f old hf fits its h)
