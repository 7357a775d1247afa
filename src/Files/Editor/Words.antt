-- ===== src/Files/Editor/Words.antt =====
-- file.c, exec_editor_fork: the words that the editor is run with.
use b_project.Base.{
  length-map, ℕ, suc, ◌+◌, ◌-◌, ◌≤◌, ◌≡◌, refl, ap, sym, ◌∙◌, Bool, true, false, Option, none, some,
  List, [], ◌∷◌, ◌++◌, map, if◌then◌else◌, length, take, drop, set, length-set, take-set_suc,
  take-append-drop, take_all, length-append, Bool-cases, inl, inr, get_elem?-append_right, arith,
}
use b_project.Base.Text.{Text}
use b_project.Files.Copy.{append_assoc, append_nil, drop-append_add}
use b_project.Files.Editor.{
  OpenFilesThread, Argv, is_retry, words_of, then_words, store, retry_loop, word_at, squeeze,
  gather, exec_editor_fork, retry_files,
}

words_of-map : (ws : List Text) (v : Argv) → words_of (map some ws ++ none ∷ v) ≡ some ws
unfolding words_of
words_of-map [] v = refl
words_of-map (w ∷ ws) v = rw (words_of-map ws v)

take-store :
    (dst : Argv) (j : ℕ) (ws : Argv)
    → j + length ws ≤ length dst
    → take (j + length ws) (store dst j ws) ≡ take j dst ++ ws
unfolding store
take-store dst j [] h = let n : j + 0 ≡ j = omega arith in rw n (sym (append_nil (take j dst)))
take-store dst j (w ∷ ws) h =
    let l = length-set dst j w in
    let n : j + suc (length ws) ≡ j + 1 + length ws = omega arith in
    let ih = take-store (set dst j w) (j + 1) ws (omega (arith, l)) in
    let one = take-set_suc dst j w (omega arith) in
    rw n (ih ∙ ap (λ v. v ++ ws) one ∙ append_assoc (take j dst) (w ∷ []) ws)

length-store : (dst : Argv) (j : ℕ) (ws : Argv) → length (store dst j ws) ≡ length dst
unfolding store
length-store dst j [] = refl
length-store dst j (w ∷ ws) = length-store (set dst j w) (j + 1) ws ∙ length-set dst j w

retry_loop-store :
    (dst : Argv) (j : ℕ) (ts : List OpenFilesThread)
    → retry_loop dst j ts
      ≡ (store dst j (map some (retry_files ts)), j + length (map some (retry_files ts)))
unfolding retry_loop store
retry_loop-store dst j [] = ap (λ k. (dst, k)) (omega arith)
retry_loop-store dst j (t ∷ ts) = elim (Bool-cases (is_retry t.thd_state)) [
  | inl e ↦
      let files = map some (retry_files ts) in
      let n : j + suc (length files) ≡ j + 1 + length files = omega arith in
      rw (e, n) (retry_loop-store (set dst j (some t.swp_file_path)) (j + 1) ts)
  | inr e ↦ rw e (retry_loop-store dst j ts)
]

map-append :
    (xs ys : List Text) → map {B = Option Text} some (xs ++ ys) ≡ map some xs ++ map some ys
map-append [] ys = refl
map-append (x ∷ xs) ys = ap (◌∷◌ (some x)) (map-append xs ys)

length-retry_files : (ts : List OpenFilesThread) → length (retry_files ts) ≤ length ts
length-retry_files [] = omega arith
length-retry_files (t ∷ ts) = ground (arith, length-retry_files ts)

-- A vector whose front is known up to NULL.
words_of-front :
    (v : Argv) (n : ℕ) (ws : List Text) → take n v ≡ map some ws ++ none ∷ [] → words_of v ≡ some ws
words_of-front v n ws e =
    let whole : v ≡ map some ws ++ none ∷ drop n v =
      sym (take-append-drop n v)
      ∙ ap (λ t. t ++ drop n v) e
      ∙ append_assoc (map some ws) (none ∷ []) (drop n v) in
    ap words_of whole ∙ words_of-map ws (drop n v)

gather-words_of :
    (memory : Argv) (exe : Text) (args : List Text) (oft : List OpenFilesThread)
    → length memory ≡ (1 + length args) + length oft + 1
    → words_of (gather memory (some exe ∷ map some args ++ none ∷ []) (1 + length args) oft)
      ≡ some (exe ∷ retry_files oft ++ args)
unfolding gather
gather-words_of memory exe args oft h =
    let files : Argv = map some (retry_files oft) in
    let rest : Argv = map some args ++ none ∷ [] in
    let m1 : Argv = set memory 0 (some exe) in
    let l1 = length-set memory 0 (some exe) in
    let l2 = length-map {B = Option Text} some (retry_files oft) in
    let l3 = length-retry_files oft in
    let l4 = length-append (map some args) (none ∷ []) in
    let l5 = length-map {B = Option Text} some args in
    let l6 = length-store m1 1 files in
    let filled = retry_loop-store m1 1 oft in
    let copied : take (1 + length args) rest ≡ rest =
      take_all (1 + length args) rest (omega (arith, l4, l5)) in
    let first : take 1 m1 ≡ some exe ∷ [] = take-set_suc memory 0 (some exe) (omega arith) in
    let front = take-store m1 1 files (omega (arith, l1, l2, l3)) in
    let all =
      take-store (store m1 1 files) (1 + length files) rest
        (omega (arith, l1, l2, l3, l4, l5, l6)) in
    let words : (some exe ∷ []) ++ files ++ rest
        ≡ map some (exe ∷ retry_files oft ++ args) ++ none ∷ [] =
      sym (
        ap (λ t. some exe ∷ (t ++ none ∷ [])) (map-append (retry_files oft) args)
        ∙ ap (◌∷◌ (some exe)) (append_assoc files (map some args) (none ∷ []))) in
    let v = store (store m1 1 files) (1 + length files) rest in
    let same = all ∙ ap (λ t. t ++ rest) front ∙ ap (λ t. t ++ files ++ rest) first ∙ words in
    rw (filled, copied)
      (words_of-front v (1 + length files + length rest) (exe ∷ retry_files oft ++ args) same)

set-append :
    (pre xs : Argv) (i : ℕ) (w : Option Text)
    → set (pre ++ xs) (length pre + i) w ≡ pre ++ set xs i w
set-append [] xs i w = ap (λ k. set xs k w) (omega arith)
set-append (x ∷ pre) xs i w =
    let e : suc (length pre) + i ≡ suc (length pre + i) = omega arith in
    rw e (ap (◌∷◌ x) (set-append pre xs i w))

squeeze-words_of :
    (pre : Argv) (flag : Option Text) (exe swp : Text) (args : List Text)
    → words_of
        (squeeze swp (pre ++ (flag ∷ some exe ∷ (map some args ++ none ∷ []))) (length pre + 1))
      ≡ some (exe ∷ swp ∷ args)
unfolding squeeze
squeeze-words_of pre flag exe swp args =
    let rest : Argv = map some args ++ none ∷ [] in
    let xs : Argv = flag ∷ some exe ∷ rest in
    let at : length pre + 1 - 1 ≡ length pre + 0 = omega arith in
    let exe_at = get_elem?-append_right pre xs 1 in
    let s0 = set-append pre xs 0 (some exe) in
    let s1 = set-append pre (some exe ∷ some exe ∷ rest) 1 (some swp) in
    let d = drop-append_add pre (some exe ∷ some swp ∷ rest) 0 in
    rw (at, word_at, exe_at, s0, s1, d) (words_of-map (exe ∷ swp ∷ args) [])

-- With `argv` as main leaves it, the executable behind a flag and NULL at the end, and with the memory
-- that the code asks malloc for, the editor is run with its executable, the files and its own arguments:
-- in multiple mode the swap files of the threads that wait for it, in their order, and in single mode the
-- swap file of the thread.
pub exec_editor_fork-words_of :
    (multiple : Bool) (memory pre : Argv) (flag : Option Text) (exe : Text) (args : List Text)
    (t : OpenFilesThread) (ts : List OpenFilesThread)
    → length memory ≡ (1 + length args) + length (t ∷ ts) + 1
    → let argv = pre ++ (flag ∷ some exe ∷ (map some args ++ none ∷ [])) in
      then_words
        (exec_editor_fork multiple (some memory) argv (length pre + 1) (1 + length args) t ts)
      ≡ some (exe ∷ (if multiple then retry_files (t ∷ ts) ++ args else t.swp_file_path ∷ args))
unfolding exec_editor_fork
exec_editor_fork-words_of false memory pre flag exe args t ts h =
    squeeze-words_of pre flag exe (t.swp_file_path) args
exec_editor_fork-words_of true memory pre flag exe args t ts h =
    let rest : Argv = map some args ++ none ∷ [] in
    let d = drop-append_add pre (flag ∷ some exe ∷ rest) 1 in
    rw d (gather-words_of memory exe args (t ∷ ts) h)
