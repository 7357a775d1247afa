-- ===== src/Files/Threads/Lost.antt =====
-- The master's rounds: prepare_file_threads of file.c.
use b_project.Base.{
  ℕ, ◌+◌, ◌-◌, ◌≤◌, ◌<◌, ◌≡◌, ap, ◌∙◌, Bool, true, false, List, [], ◌∷◌, ◌++◌, All, length, arith,
}
use b_project.Files.Editor.{ThdState, ok, failed, terminated, retry, is_retry}
use b_project.Files.Threads.{round, gather, returned, after_round, rounds}

-- Messages of threads that ended.
abbrev AllEnded : List ThdState → Type 0
AllEnded first = All (λ st. is_retry st ≡ false) first

gather-stops :
    (rest : List ThdState) (i n : ℕ) (succ : Bool)
    → n ≤ i
    → gather rest i n succ ≡ round rest n succ
unfolding gather
gather-stops [] i n succ h = ground arith
gather-stops (ok ∷ rest) i n succ h = ground arith
gather-stops (failed ∷ rest) i n succ h = ground arith
gather-stops (terminated ∷ rest) i n succ h = ground arith
gather-stops (retry ∷ rest) i n succ h = ground arith

gather-ended :
    (st : ThdState) (queue : List ThdState) (i n : ℕ) (succ : Bool)
    → is_retry st ≡ false
    → i < n
    → gather (st ∷ queue) i n succ ≡ gather queue (i + 1) (n - 1) succ
unfolding gather
gather-ended ok queue i n succ e h = ground arith
gather-ended failed queue i n succ e h = ground arith
gather-ended terminated queue i n succ e h = ground arith
gather-ended retry queue i n succ e h = absurd (cc)

gather-half :
    (first rest : List ThdState) (i n : ℕ)
    → AllEnded first
    → n ≤ i + length first + length first
    → i + length first + length first ≤ n + 1
    → gather (first ++ rest) i n false ≡ round rest (n - length first) false
gather-half [] rest i n a h1 h2 =
    gather-stops rest i n false (omega arith) ∙ ap (λ m. round rest m false) (omega arith)
gather-half (st ∷ first) rest i n (e, a) h1 h2 =
    gather-ended st (first ++ rest) i n false e (omega arith)
    ∙ gather-half first rest (i + 1) (n - 1) a (omega arith) (omega arith)
    ∙ ap (λ m. round rest m false) (omega arith)

-- When half of the n threads, rounded up, end in a round before any of them asks for another try, the
-- master reads no further, although the others wait for it: the call returns 0 and what they sent stays
-- unread, also if they ask for another try.
pub rounds_lose_retries :
    (unlocked n : ℕ) (first rest : List ThdState) (more : List (Bool × List ThdState))
    → AllEnded first
    → n ≤ length first + length first
    → length first + length first ≤ n + 1
    → rounds unlocked ((true, first ++ rest) ∷ more) [] n
      ≡ returned true rest (n - length first) unlocked
unfolding rounds
rounds_lose_retries unlocked n first rest more a h1 h2 =
    ap (after_round (rounds unlocked more) unlocked)
      (gather-half first rest 0 n a (omega arith) (omega arith))
