-- ===== src/Files/Threads.antt =====
-- file.c: a thread for each file of a range, and the master that waits for them. What the system, the
-- editor and push_swap_file answer comes in as lists, in the order in which it is asked for.
pub mod Lost
use b_project.Base.{
  ℕ, suc, ◌+◌, ◌-◌, Bool, true, false, Option, none, some, List, [], ◌∷◌, ◌++◌, length, ltb, ◌==◌,
  if◌then◌else◌,
}
use b_project.Files.Editor.{ThdState, ok, failed, terminated, retry}

-- push_swap_file: 0, -1, and the other negative numbers.
pub data PushRet : Type 0 where
  pushed refused again : PushRet

-- What a thread did: what it put into global_qc, whether it still waits (for the master or the editor),
-- whether it removed its swap file itself, and how often zk_unlock_intervals was called, at its end or in
-- query_resize_file.
pub record ThreadRun : Type 0 where
  pub sent : List ThdState
  pub waits : Bool
  pub unlinked : Bool
  pub unlocks : ℕ

abbrev pub leaves : List ThdState → ThreadRun
leaves sent = record { sent = sent; waits = false; unlinked = false; unlocks = 1 }

abbrev sending : ThdState → ThreadRun → ThreadRun
sending st r = record r { sent = st ∷ r.sent }

-- The calls of zk_unlock_intervals in a push come to those of the rest of the run.
abbrev after_push : ℕ → ThreadRun → ThreadRun
after_push unlocks r = record r { unlocks = unlocks + r.unlocks }

-- The loop in multiple mode: what the master sent, what the push then gives, and how often it called
-- zk_unlock_intervals in query_resize_file.
unfoldable pub multiple_loop : List (Bool × PushRet × ℕ) → ThreadRun
multiple_loop [] = record { sent = []; waits = true; unlinked = false; unlocks = 0 }
multiple_loop ((false, push, u) ∷ steps) = record (leaves []) { unlinked = true }
multiple_loop ((true, pushed, u) ∷ steps) = after_push u (leaves (ok ∷ []))
multiple_loop ((true, refused, u) ∷ steps) = after_push u (leaves (terminated ∷ []))
multiple_loop ((true, again, u) ∷ steps) = after_push u (sending retry (multiple_loop steps))

-- The loop with an editor of its own: whether the editor came back well, and the push as above.
unfoldable pub single_loop : List (Bool × PushRet × ℕ) → ThreadRun
single_loop [] = record { sent = []; waits = true; unlinked = false; unlocks = 0 }
single_loop ((false, push, u) ∷ steps) = leaves []
single_loop ((true, pushed, u) ∷ steps) = after_push u (leaves [])
single_loop ((true, refused, u) ∷ steps) = after_push u (leaves [])
single_loop ((true, again, u) ∷ steps) = after_push u (single_loop steps)

-- `sql` and `pull` tell whether sql_init and pull_swap_file do not fail.
unfoldable pub thd_open_files : Bool → Bool → Bool → List (Bool × PushRet × ℕ) → ThreadRun
unfolding multiple_loop single_loop
thd_open_files multiple false pull steps = leaves (terminated ∷ [])
thd_open_files multiple true false steps = leaves (terminated ∷ [])
thd_open_files true true true steps = sending retry (multiple_loop steps)
thd_open_files false true true steps = sending ok (single_loop steps)

-- open_files: for each file, whether pthread_create gives a thread. The states that are sent at once for
-- those it does not give.
unfoldable pub open_files : List Bool → List ThdState
open_files [] = []
open_files (true ∷ created) = open_files created
open_files (false ∷ created) = failed ∷ open_files created

-- The end of the first loop: the messages left, the threads that are set up, and how many files the
-- master unlocks for threads that do not exist; blocked where it waits for a message for good.
pub data Started : Type 0 where
  started : List ThdState → ℕ → ℕ → Started
  start_blocked : Started

abbrev pub one_more : ThdState → Started → Started
one_more st start_blocked = start_blocked
one_more terminated (started q n u) = started q n u
one_more failed (started q n u) = started q n (u + 1)
one_more ok (started q n u) = started q (n + 1) u
one_more retry (started q n u) = started q (n + 1) u

-- The loop over num_files messages.
unfoldable pub count_threads : ℕ → List ThdState → Started
count_threads ℕ.zero queue = started queue 0 0
count_threads (suc files) [] = start_blocked
count_threads (suc files) (st ∷ queue) = one_more st (count_threads files queue)

-- The end of a round: the messages left, num_thds and succ.
pub data Round : Type 0 where
  round : List ThdState → ℕ → Bool → Round
  blocked : Round

-- for (i = 0; i < num_thds; i++), whose body takes threads that ended off num_thds.
unfoldable pub gather : List ThdState → ℕ → ℕ → Bool → Round
gather [] i n succ = if ltb i n then blocked else round [] n succ
gather (retry ∷ queue) i n succ =
    if ltb i n then gather queue (i + 1) n true else round (retry ∷ queue) n succ
gather (st ∷ queue) i n succ =
    if ltb i n then gather queue (i + 1) (n - 1) succ else round (st ∷ queue) n succ

-- How prepare_file_threads ends: what it returns, the messages that nobody read, the threads that were
-- told to stop, the threads still counted and the files that it unlocked.
pub data Prepared : Type 0 where
  returned : Bool → List ThdState → ℕ → ℕ → Prepared
  hangs : Prepared

-- The do loop: whether the editor came back well, and the messages of the round.
abbrev pub after_round : (List ThdState → ℕ → Prepared) → ℕ → Round → Prepared
after_round next_round unlocked blocked = hangs
after_round next_round unlocked (round left n true) = next_round left n
after_round next_round unlocked (round left n false) = returned true left n unlocked

-- The messages left are read in front of the new ones, as in a run where the master comes to them before
-- a thread has sent one; where the new ones are there first, the stack of pcq.h gives these first.
unfoldable pub rounds : ℕ → List (Bool × List ThdState) → List ThdState → ℕ → Prepared
unfolding gather
rounds unlocked [] queue n = hangs
rounds unlocked ((false, sent) ∷ more) queue n = returned true queue n unlocked
rounds unlocked ((true, sent) ∷ more) queue n =
    after_round (rounds unlocked more) unlocked (gather (queue ++ sent) 0 n false)

abbrev with_threads : Bool → List (Bool × List ThdState) → Started → Prepared
with_threads multiple steps start_blocked = hangs
with_threads multiple steps (started queue n unlocked) =
    if n == 0
    then returned false queue 0 unlocked
    else if multiple
    then rounds unlocked steps queue n
    else returned true queue n unlocked

-- `init` and `alloc` tell whether pcq_init and malloc do not fail; `created` which threads there are, and
-- `sent` what the threads send first. Messages for threads that were not created come first.
unfoldable pub prepare_file_threads :
    Bool → Bool → Bool → List Bool → List ThdState → List (Bool × List ThdState) → Prepared
unfolding rounds count_threads open_files
prepare_file_threads multiple false alloc created sent steps = returned false [] 0 0
prepare_file_threads multiple true false created sent steps = returned true [] 0 0
prepare_file_threads multiple true true created sent steps =
    with_threads multiple steps (count_threads (length created) (open_files created ++ sent))
