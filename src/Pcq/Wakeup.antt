-- ===== src/Pcq/Wakeup.antt =====
-- Threads over one pcq: each awake thread runs the critical section when it gets the lock, and a
-- condition variable wakes one waiter, if there is one. A waiter may also wake with no signal.
use b_project.Base.{ℕ, ◌+◌, ◌-◌, ◌≤◌, ◌<◌, ◌≡◌, Option, arith, ◌==◌, if◌then◌else◌}
use b_project.Pcq.{Pcq, waits, goes, pcq_enqueue, pcq_dequeue}

-- Counts of the threads inside the two functions: awake ones, which will test or test again, and
-- ones asleep in pthread_cond_wait.
pub record System {ℓ} (A : Type ℓ) : Type ℓ where
  pub queue : Pcq A
  pub producers : ℕ
  pub on_full : ℕ
  pub consumers : ℕ
  pub on_empty : ℕ

-- pthread_cond_signal on `empty`, and on `full`.
abbrev signal_empty {ℓ} : {A : Type ℓ} → System A → System A
signal_empty s = record s {
  consumers = if s.on_empty == 0 then s.consumers else s.consumers + 1;
  on_empty = s.on_empty - 1;
}

abbrev signal_full {ℓ} : {A : Type ℓ} → System A → System A
signal_full s = record s {
  producers = if s.on_full == 0 then s.producers else s.producers + 1;
  on_full = s.on_full - 1;
}

pub data Step {ℓ} {A : Type ℓ} (s : System A) : System A → Type ℓ where
  calls_enqueue : Step s (record s { producers = s.producers + 1 })
  calls_dequeue : Step s (record s { consumers = s.consumers + 1 })
  puts :
      (a : A) (p : Pcq A)
      → 0 < s.producers
      → pcq_enqueue s.queue a ≡ goes p
      → Step s (signal_empty (record s { queue = p; producers = s.producers - 1 }))
  sleeps_full :
      (a : A)
      → 0 < s.producers
      → pcq_enqueue s.queue a ≡ waits
      → Step s (record s { producers = s.producers - 1; on_full = s.on_full + 1 })
  takes :
      (p : Pcq A) (r : Option A)
      → 0 < s.consumers
      → pcq_dequeue s.queue ≡ goes (p, r)
      → Step s (signal_full (record s { queue = p; consumers = s.consumers - 1 }))
  sleeps_empty :
      0 < s.consumers
      → pcq_dequeue s.queue ≡ waits
      → Step s (record s { consumers = s.consumers - 1; on_empty = s.on_empty + 1 })
  wakes_full :
      0 < s.on_full → Step s (record s { producers = s.producers + 1; on_full = s.on_full - 1 })
  wakes_empty :
      0 < s.on_empty → Step s (record s { consumers = s.consumers + 1; on_empty = s.on_empty - 1 })

pub data Reach {ℓ} {A : Type ℓ} (s : System A) : System A → Type ℓ where
  here : Reach s s
  next : {t u : System A} → Reach s t → Step t u → Reach s u

-- A sleeper whose condition no longer holds is matched by an awake thread of its kind.
pub record Inv {ℓ} {A : Type ℓ} (s : System A) : Type ℓ where
  pub within : s.queue.cap ≤ s.queue.sz
  pub served : 0 < s.on_empty → s.queue.cap ≤ s.consumers
  pub drained : 0 < s.on_full → s.queue.sz ≤ s.queue.cap + s.producers

module _ {ℓ} {A : Type ℓ} where
  enqueue_cap :
      (p : Pcq A) {m : Pcq A} (a : A)
      → pcq_enqueue p a ≡ goes m
      → p.cap ≤ p.sz
      → (m.cap ≡ p.cap + 1) × (m.sz ≡ p.sz) × (p.cap < p.sz)
  unfolding pcq_enqueue
  enqueue_cap p a e h = ground arith

  dequeue_cap :
      (p : Pcq A) {m : Pcq A} {r : Option A}
      → pcq_dequeue p ≡ goes (m, r)
      → (m.cap + 1 ≡ p.cap) × (m.sz ≡ p.sz)
  unfolding pcq_dequeue
  dequeue_cap p e = ground arith

  enqueue_waits : (p : Pcq A) (a : A) → pcq_enqueue p a ≡ waits → p.cap ≡ p.sz
  unfolding pcq_enqueue
  enqueue_waits p a e = ground arith

  dequeue_waits : (p : Pcq A) → pcq_dequeue p ≡ waits → p.cap ≡ 0
  unfolding pcq_dequeue
  dequeue_waits p e = ground arith

  Step-Inv : {s t : System A} → Step s t → Inv s → Inv t
  Step-Inv calls_enqueue v = ground arith
  Step-Inv calls_dequeue v = ground arith
  Step-Inv {s} (puts a p h e) v = ground (arith, enqueue_cap s.queue a e v.within)
  Step-Inv {s} (sleeps_full a h e) v = ground (arith, enqueue_waits s.queue a e)
  Step-Inv {s} (takes p r h e) v = ground (arith, dequeue_cap s.queue e)
  Step-Inv {s} (sleeps_empty h e) v = ground (arith, dequeue_waits s.queue e)
  Step-Inv (wakes_full h) v = ground arith
  Step-Inv (wakes_empty h) v = ground arith

  Reach-Inv : {s t : System A} → Inv s → Reach s t → Inv t
  Reach-Inv v here = v
  Reach-Inv v (next r st) = Step-Inv st (Reach-Inv v r)

  abbrev pub started : Pcq A → System A
  started p = record { queue = p; producers = 0; on_full = 0; consumers = 0; on_empty = 0 }

  -- From a queue that holds no more than its size and no threads in it, after any interleaving of
  -- calls, waits, signals and wake-ups: the queue still holds at most its size; while a consumer sleeps
  -- and elements are there, at least as many consumers are awake as there are elements; and while a
  -- producer sleeps, at least as many producers are awake as slots are free. No wake-up is lost.
  pub Reach-Inv-started : {t : System A} (p : Pcq A) → p.cap ≤ p.sz → Reach (started p) t → Inv t
  Reach-Inv-started p h r = Reach-Inv (ground arith) r
