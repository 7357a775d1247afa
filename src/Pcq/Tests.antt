-- ===== src/Pcq/Tests.antt =====
-- The buffer at concrete contents.
use b_project.Base.{◌≡◌, refl, true, some, [], ◌∷◌, arith, ℕ}
use b_project.Pcq.{Pcq, waits, goes, pcq_init, pcq_dequeue}
use b_project.Pcq.Stack.{
  enqueue, dequeue, blocked, stored, got, answers, stack_answers, pcq_init-answers,
}
use b_project.Pcq.Wakeup.{
  System, Reach, here, next, Inv, started, Reach-Inv-started, calls_dequeue, sleeps_empty,
}

abbrev one_of_two : Pcq ℕ
one_of_two = record { q = 7 ∷ 0 ∷ []; sz = 2; cap = 1 }

-- Not a queue: 8 was put in after 7, and comes out first.
last_in_first_out :
    pcq_dequeue {A = ℕ} (record { q = 7 ∷ 8 ∷ []; sz = 2; cap = 2 })
    ≡ goes (record { q = 7 ∷ 8 ∷ []; sz = 2; cap = 1 }, some 8)
unfolding pcq_dequeue
last_in_first_out = refl

fresh : pcq_init {A = ℕ} true 5 2 ≡ some (record { q = 5 ∷ 5 ∷ []; sz = 2; cap = 0 })
unfolding pcq_init
fresh = refl

abbrev empty_two : Pcq ℕ
empty_two = record { q = 0 ∷ 0 ∷ []; sz = 2; cap = 0 }

abbrev asleep : System ℕ
asleep = record { queue = empty_two; producers = 0; on_full = 0; consumers = 0; on_empty = 1 }

empty_waits : pcq_dequeue empty_two ≡ waits
unfolding pcq_dequeue
empty_waits = refl

Reach-asleep : Reach (started empty_two) asleep
Reach-asleep = next (next here calls_dequeue) (sleeps_empty (omega arith) empty_waits)

Reach-Inv-started_example : Inv asleep
Reach-Inv-started_example = Reach-Inv-started empty_two (omega arith) Reach-asleep

pcq_init-answers_example :
    (p : Pcq ℕ) × (pcq_init true 5 2 ≡ some p)
    × (answers p (enqueue 7 ∷ enqueue 8 ∷ enqueue 9 ∷ dequeue ∷ [])
        ≡ stack_answers 2 [] (enqueue 7 ∷ enqueue 8 ∷ enqueue 9 ∷ dequeue ∷ []))
pcq_init-answers_example = pcq_init-answers 5 2 (enqueue 7 ∷ enqueue 8 ∷ enqueue 9 ∷ dequeue ∷ [])

last_out :
    stack_answers {A = ℕ} 2 [] (enqueue 7 ∷ enqueue 8 ∷ enqueue 9 ∷ dequeue ∷ [])
    ≡ stored ∷ stored ∷ blocked ∷ got 8 ∷ []
unfolding stack_answers
last_out = refl
