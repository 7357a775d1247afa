-- ===== src/Files/ThreadTests.antt =====
-- Two threads, of which the second asks for another try.
use b_project.Base.{◌≡◌, refl, true, false, [], ◌∷◌, arith}
use b_project.Files.Editor.{ok, retry}
use b_project.Files.Threads.{pushed, again, thd_open_files, returned, rounds, prepare_file_threads}
use b_project.Files.Threads.Lost.{rounds_lose_retries}

rounds_lose_retries_example :
    rounds 0 ((true, ok ∷ retry ∷ []) ∷ []) [] 2 ≡ returned true (retry ∷ []) 1 0
rounds_lose_retries_example =
    rounds_lose_retries 0 2 (ok ∷ []) (retry ∷ []) [] (refl, tt) (omega arith) (omega arith)

-- The same from the start of the call: the second thread waits for good.
second_lost :
    prepare_file_threads true true true
      (true ∷ true ∷ [])
      (retry ∷ retry ∷ [])
      ((true, ok ∷ retry ∷ []) ∷ [])
    ≡ returned true (retry ∷ []) 1 0
unfolding prepare_file_threads
second_lost = refl

-- With the messages in the other order the master goes on, and has one thread to wait for.
second_seen :
    prepare_file_threads true true true
      (true ∷ true ∷ [])
      (retry ∷ retry ∷ [])
      ((true, retry ∷ ok ∷ []) ∷ (true, ok ∷ []) ∷ [])
    ≡ returned true [] 0 0
unfolding prepare_file_threads
second_seen = refl

-- In mode w a successful push unlocks in query_resize_file, and the thread unlocks again at its end.
unlocked_twice :
    thd_open_files true true true ((true, again, 0) ∷ (true, pushed, 1) ∷ [])
    ≡ (record { sent = retry ∷ retry ∷ ok ∷ []; waits = false; unlinked = false; unlocks = 2 })
unfolding thd_open_files
unlocked_twice = refl
