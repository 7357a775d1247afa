-- ===== src/Files/Tests.antt =====
-- Swap files at concrete texts.
use b_project.Base.{
  none, ℕ, ◌+◌, ◌≡◌, refl, ◌⊎◌, true, false, some, List, [], ◌∷◌, ◌++◌, length, drop, replicate,
  arith,
}
use b_project.Base.Int.{ℤ, pos, negsuc}
use b_project.Base.Text.{Text, codes}
use b_project.IntervalTree.{ItNode, it_node}
use b_project.Sql.Resize.{OffsetUpdate}
use b_project.Files.Copy.{slice}
use b_project.Files.Swap.{
  Oracles, oracle_search, push_swap_file, search_lines, strstr, getlines, swap_file_path,
  pull_swap_file,
}
use b_project.Files.Backing.{write_offset_update}
use b_project.Files.Pull.{marked, BeginInside, pull_swap_file_marks}
use b_project.Files.Splice.{splice, InOrder, write_offset_update_splices}
use b_project.Files.RoundTrip.{Inside, all_opened, all_written}
use b_project.Files.Places.{Unmistakable, FirstAt, updates, pull_swap_file-find_intervals}
use b_project.Files.Swap.{find_intervals}
use b_project.Files.Search.{find, shift, oracle_search-find}
use b_project.Files.Editor.{ThdState, retry, ok, OpenFilesThread, then_words, exec_editor_fork}
use b_project.Files.Editor.Words.{exec_editor_fork-words_of}
use b_project.Files.Push.{push_swap_file_ignores}

abbrev story : List ℕ
story = codes "a big fish"

abbrev marks : Oracles
marks = record { opening = codes "<<"; closing = codes ">>" }

-- "big" and "fish"
abbrev words : List ItNode
words = it_node 2 5 1 ∷ it_node 6 10 2 ∷ []

-- What Linux moves at most.
abbrev sendfile_max : ℕ
sendfile_max = 2147479552

abbrev story_marked : List ℕ
story_marked = codes "a <<big>> <<fish>>"

swap_path : swap_file_path (codes "/tmp") (codes "/home/a.txt") ≡ codes "/tmp/a.txt.swp"
unfolding swap_file_path
swap_path = refl

found : oracle_search true story_marked (codes ">>") 8 ≡ some 16
unfolding oracle_search search_lines strstr getlines
found = refl

pull_swap_file_marks_example :
    pull_swap_file all_opened sendfile_max marks words story
      (codes "from an older run of the editor")
    ≡ (
      pos 0,
      marked marks 0 story words
          ++ drop (length (marked marks 0 story words)) (codes "from an older run of the editor"),
    )
pull_swap_file_marks_example =
    pull_swap_file_marks all_opened sendfile_max marks words story
      (codes "from an older run of the editor") (omega arith) (omega arith)
      (unfold BeginInside in
        (omega arith, omega arith, omega arith, (omega arith, omega arith, omega arith, tt)))

pulled_text : marked marks 0 story words ≡ story_marked
unfolding marked slice
pulled_text = refl

-- The second word was edited.
abbrev edits : List OffsetUpdate
edits =
    record { backing_start = 2; backing_end = 5; swp_start = 4; swp_end = 7 }
    ∷ record { backing_start = 6; backing_end = 10; swp_start = 12; swp_end = 17 }
    ∷ []

abbrev story_edited : List ℕ
story_edited = codes "a <<big>> <<whale>>"

spliced : splice 0 story story_edited edits ≡ codes "a big whale"
unfolding splice slice
spliced = refl

write_offset_update_splices_example :
    write_offset_update all_written sendfile_max edits story story_edited
    ≡ record { ret = pos 0; bytes = splice 0 story story_edited edits; release_set = true }
write_offset_update_splices_example =
    write_offset_update_splices all_written sendfile_max edits story story_edited (omega arith)
      (omega arith) (unfold splice slice in omega arith) (omega arith)
      (unfold InOrder in
        (
          omega arith,
          omega arith,
          omega arith,
          omega arith,
          omega arith,
          (omega arith, omega arith, omega arith, omega arith, omega arith, omega arith),
        ))

oracle_search-find_example :
    oracle_search true (codes "ab\ncd>>") (codes ">>") 1
    ≡ shift 1 (find (codes "b\ncd>>") (codes ">>"))
oracle_search-find_example =
    oracle_search-find (codes "ab\ncd>>") 62 (codes ">") 1 (omega arith, (omega arith, tt))
      (omega arith, (omega arith, (omega arith, (omega arith, (omega arith, (omega arith, tt))))))

abbrev fails : List ItNode → ℕ → ℤ × ℕ
fails its w = (negsuc 0, w + 1)

abbrev succeeds : List ItNode → ℕ → ℤ × ℕ
succeeds its w = (pos 0, w + 2)

push_swap_file_ignores_example :
    let r = push_swap_file fails false (some story_marked) marks words 0 in
    let r' = push_swap_file succeeds false (some story_marked) marks words 0 in
    (r.ret ≡ r'.ret)
    × (r.unlinked ≡ r'.unlinked)
    × (((r.ret ≡ pos 0) × (r.unlinked ≡ true)) ⊎ ((r.ret ≡ negsuc 1) × (r.unlinked ≡ false)))
push_swap_file_ignores_example =
    push_swap_file_ignores fails succeeds false (some story_marked) marks words 0

abbrev thread : Text → ThdState → OpenFilesThread
thread path state = record { swp_file_path = path; thd_state = state }

-- Of three files the second has been written.
exec_editor_fork-words_of_example :
    then_words (
      exec_editor_fork true
        (some (replicate 6 none))
        (none ∷ some (codes "-E") ∷ some (codes "vi") ∷ some (codes "-n") ∷ none ∷ [])
        2
        2
        (thread (codes "a.swp") retry)
        (thread (codes "b.swp") ok ∷ thread (codes "c.swp") retry ∷ []))
    ≡ some (codes "vi" ∷ codes "a.swp" ∷ codes "c.swp" ∷ codes "-n" ∷ [])
exec_editor_fork-words_of_example =
    exec_editor_fork-words_of true (replicate 6 none) (none ∷ []) (some (codes "-E")) (codes "vi")
      (codes "-n" ∷ []) (thread (codes "a.swp") retry)
      (thread (codes "b.swp") ok ∷ thread (codes "c.swp") retry ∷ []) (omega arith)

pull_swap_file-find_intervals_example :
    let swp = (pull_swap_file all_opened sendfile_max marks words story []).1 in
    let found = find_intervals true swp marks 0 words in
    (found.0 ≡ true)
    × (write_offset_update all_written sendfile_max (updates words found.1) story swp
        ≡ record { ret = pos 0; bytes = story; release_set = true })
pull_swap_file-find_intervals_example =
    pull_swap_file-find_intervals sendfile_max marks words story [] (omega arith)
      (unfold marked slice in omega arith) (omega arith)
      (unfold Inside in
        (
          omega arith,
          omega arith,
          omega arith,
          (omega arith, omega arith, omega arith, omega arith),
        ))
      (omega arith, (omega arith, tt)) (omega arith, (omega arith, tt))
      (unfold Unmistakable FirstAt find slice in (refl, refl, (refl, refl, tt)))
      (unfold marked slice in
        (
          omega arith,
          (
            omega arith,
            (
              omega arith,
              (
                omega arith,
                (
                  omega arith,
                  (
                    omega arith,
                    (
                      omega arith,
                      (
                        omega arith,
                        (
                          omega arith,
                          (
                            omega arith,
                            (
                              omega arith,
                              (
                                omega arith,
                                (
                                  omega arith,
                                  (
                                    omega arith,
                                    (omega arith, (omega arith, (omega arith, (omega arith, tt)))),
                                  ),
                                ),
                              ),
                            ),
                          ),
                        ),
                      ),
                    ),
                  ),
                ),
              ),
            ),
          ),
        ))
