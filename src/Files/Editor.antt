-- ===== src/Files/Editor.antt =====
-- file.c: exec_editor_fork, the argument vector of the editor, and exec_editor.
pub mod Words
use b_project.Base.{
  ℕ, suc, ◌+◌, ◌-◌, ◌≤◌, ◌≡◌, refl, ap, sym, ◌∙◌, Bool, true, false, Option, none, some, List, [],
  ◌∷◌, ◌++◌, map, if◌then◌else◌, length, take, drop, set, get_elem?, length-set, take-set_suc,
  take-append-drop, take_all, length-append, Bool-cases, inl, inr, get_elem?-append_right, ◌==◌,
  arith,
}
use b_project.Base.Int.{ℤ, pos, negsuc}
use b_project.Base.Text.{Text}
use b_project.Files.Copy.{append_assoc, append_nil, drop-append_add}

-- THD_STATE_OK, THD_STATE_FAILED, THD_STATE_TERMINATED and THD_STATE_RETRY.
pub data ThdState : Type 0 where
  ok failed terminated retry : ThdState

-- struct open_files_thread, less the thread and the range.
pub record OpenFilesThread : Type 0 where
  pub swp_file_path : Text
  pub thd_state : ThdState

abbrev pub is_retry : ThdState → Bool
is_retry retry = true
is_retry _ = false

-- An argument vector: `none` is the NULL at its end.
abbrev pub Argv : Type 0
Argv = List (Option Text)

abbrev and_word : Text → Option (List Text) → Option (List Text)
and_word w none = none
and_word w (some ws) = some (w ∷ ws)

-- What execvp makes of a vector: the words up to NULL, or nothing when there is no NULL in the memory.
unfoldable pub words_of : Argv → Option (List Text)
words_of [] = none
words_of (none ∷ v) = some []
words_of (some w ∷ v) = and_word w (words_of v)

abbrev pub then_words : Option Argv → Option (List Text)
then_words none = none
then_words (some v) = words_of v

-- memcpy of words to the index j.
unfoldable pub store : Argv → ℕ → Argv → Argv
store dst j [] = dst
store dst j (w ∷ ws) = store (set dst j w) (j + 1) ws

-- The loop over the threads: the vector and j.
unfoldable pub retry_loop : Argv → ℕ → List OpenFilesThread → Argv × ℕ
retry_loop dst j [] = (dst, j)
retry_loop dst j (t ∷ ts) =
    let taken = retry_loop (set dst j (some t.swp_file_path)) (j + 1) ts in
    let skipped = retry_loop dst j ts in if is_retry t.thd_state then taken else skipped

abbrev pub word_at : Argv → ℕ → Option Text
word_at v i = elim (get_elem? v i) [ none ↦ none | some w ↦ w ]

-- The file goes between the executable and its arguments: p_exe_path stands at `at` of argv, and is
-- moved back by one.
unfoldable pub squeeze : Text → Argv → ℕ → Argv
squeeze swp argv at = drop (at - 1) (set (set argv (at - 1) (word_at argv at)) at (some swp))

-- The new vector for all files; malloc gives the words `memory`, exe_argc + nr + 1 of them.
unfoldable pub gather : Argv → Argv → ℕ → List OpenFilesThread → Argv
unfolding store retry_loop
gather memory c exe_argc oft =
    let filled = retry_loop (set memory 0 (word_at c 0)) 1 oft in
    store filled.0 filled.1 (take exe_argc (drop 1 c))

-- The vector that execvp is called with; none when malloc fails. In single mode `oft` points to the one
-- thread of the caller.
unfoldable pub exec_editor_fork :
    Bool → Option Argv → Argv → ℕ → ℕ → OpenFilesThread → List OpenFilesThread → Option Argv
exec_editor_fork false malloc argv at exe_argc t ts = some (squeeze t.swp_file_path argv at)
exec_editor_fork true none argv at exe_argc t ts = none
exec_editor_fork true (some memory) argv at exe_argc t ts =
    some (gather memory (drop at argv) exe_argc (t ∷ ts))

-- The result of fork and the exit status of the child: the caller gets the pid, or -1.
unfoldable pub exec_editor : ℤ → ℕ → ℤ
exec_editor (negsuc n) wstatus = negsuc n
exec_editor (pos f) wstatus = if wstatus == 0 then pos f else negsuc 0

abbrev pub retry_files : List OpenFilesThread → List Text
retry_files [] = []
retry_files (t ∷ ts) =
    let files = retry_files ts in if is_retry t.thd_state then t.swp_file_path ∷ files else files
