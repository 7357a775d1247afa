-- ===== src/Pcq/Stack.antt =====
-- Runs of enqueues and dequeues beside a bounded stack.
use b_project.Base.{
  ℕ, zero, suc, ◌-◌, ◌≤◌, ◌<◌, ◌≡◌, refl, ap, subst, ◌∙◌, true, false, Option, none, some, List, [],
  ◌∷◌, ◌==◌, if◌then◌else◌, length, get_elem?, set, replicate, length-set, get_elem?-set_self,
  length-replicate, Bool-cases, inl, inr, arith,
}
use b_project.Pcq.{Pcq, Pass, waits, goes, pcq_init, pcq_enqueue, pcq_dequeue}

pub data Op {ℓ} (A : Type ℓ) : Type ℓ where
  enqueue : A → Op A
  dequeue : Op A

-- What a caller sees; `wild` is a read outside the array.
pub data Answer {ℓ} (A : Type ℓ) : Type ℓ where
  blocked stored wild : Answer A
  got : A → Answer A

module _ {ℓ} {A : Type ℓ} where
  abbrev answer_enqueue : Pcq A → Pass (Pcq A) → Pcq A × Answer A
  answer_enqueue p waits = (p, blocked)
  answer_enqueue p (goes m) = (m, stored)

  abbrev answer_dequeue : Pcq A → Pass (Pcq A × Option A) → Pcq A × Answer A
  answer_dequeue p waits = (p, blocked)
  answer_dequeue p (goes (m, none)) = (m, wild)
  answer_dequeue p (goes (m, some a)) = (m, got a)

  -- One call; one that would wait is left out.
  abbrev pub step : Pcq A → Op A → Pcq A × Answer A
  step p (enqueue a) = answer_enqueue p (pcq_enqueue p a)
  step p dequeue = answer_dequeue p (pcq_dequeue p)

  unfoldable pub answers : Pcq A → List (Op A) → List (Answer A)
  answers p [] = []
  answers p (op ∷ ops) = (step p op).1 ∷ answers (step p op).0 ops

  -- A stack of at most sz elements, the last one first.
  abbrev stack_step : ℕ → List A → Op A → List A × Answer A
  stack_step sz xs (enqueue a) = if length xs == sz then (xs, blocked) else (a ∷ xs, stored)
  stack_step sz [] dequeue = ([], blocked)
  stack_step sz (x ∷ xs) dequeue = (xs, got x)

  unfoldable pub stack_answers : ℕ → List A → List (Op A) → List (Answer A)
  stack_answers sz xs [] = []
  stack_answers sz xs (op ∷ ops) =
      (stack_step sz xs op).1 ∷ stack_answers sz (stack_step sz xs op).0 ops

  -- The used slots hold the stack.
  abbrev Slots : List A → List A → Type ℓ
  Slots q [] = Unit
  Slots q (x ∷ xs) = (get_elem? q (length xs) ≡ some x) × Slots q xs

  abbrev Represents : Pcq A → List A → Type ℓ
  Represents p xs = (p.cap ≡ length xs) × (length p.q ≡ p.sz) × (p.cap ≤ p.sz) × Slots p.q xs

  get_elem?-set_below :
      (xs : List A) (i j : ℕ) (v : A) → j < i → get_elem? (set xs i v) j ≡ get_elem? xs j
  get_elem?-set_below [] i j v h = refl
  get_elem?-set_below (x ∷ xs) zero j v h = absurd (omega arith)
  get_elem?-set_below (x ∷ xs) (suc i) zero v h = refl
  get_elem?-set_below (x ∷ xs) (suc i) (suc j) v h = get_elem?-set_below xs i j v (omega arith)

  Slots-set :
      (q : List A) (i : ℕ) (a : A) (xs : List A) → length xs ≤ i → Slots q xs → Slots (set q i a) xs
  Slots-set q i a [] h s = tt
  Slots-set q i a (x ∷ xs) h (e, s) =
      (get_elem?-set_below q i (length xs) a (omega arith) ∙ e, Slots-set q i a xs (omega arith) s)

  -- One call keeps the representation and answers as the stack does.
  Agrees : ℕ → Pcq A × Answer A → List A × Answer A → Type ℓ
  Agrees sz m n = Represents m.0 n.0 × (m.0.sz ≡ sz) × (m.1 ≡ n.1)

  enqueue-Agrees :
      (p : Pcq A) (xs : List A) (a : A)
      → Represents p xs
      → Agrees p.sz (step p (enqueue a)) (stack_step p.sz xs (enqueue a))
  unfolding Agrees pcq_enqueue
  enqueue-Agrees p xs a (c, l, w, s) = elim (Bool-cases (length xs == p.sz)) [
    | inl full ↦
        let test : (p.cap == p.sz) ≡ true = ground arith in
        rw (test, full) ((c, l, w, s), refl, refl)
    | inr room ↦
        let test : (p.cap == p.sz) ≡ false = ground arith in
        let last : get_elem? (set p.q p.cap a) (length xs) ≡ some a =
          ap (get_elem? (set p.q p.cap a)) (omega arith)
          ∙ get_elem?-set_self p.q p.cap a (ground arith) in
        rw (test, room)
          (
            (
              omega arith,
              length-set p.q p.cap a ∙ l,
              ground arith,
              (last, Slots-set p.q p.cap a xs (omega arith) s),
            ),
            refl,
            refl,
          )
  ]

  dequeue-Agrees :
      (p : Pcq A) (xs : List A)
      → Represents p xs
      → Agrees p.sz (step p dequeue) (stack_step p.sz xs dequeue)
  unfolding Agrees pcq_dequeue
  dequeue-Agrees p [] (c, l, w, s) =
      let test : (p.cap == 0) ≡ true = ground arith in rw test ((c, l, w, s), refl, refl)
  dequeue-Agrees p (x ∷ xs) (c, l, w, (e, s)) =
      let test : (p.cap == 0) ≡ false = ground arith in
      let top : p.cap - 1 ≡ length xs = omega arith in
      let found : get_elem? p.q (p.cap - 1) ≡ some x = ap (get_elem? p.q) top ∙ e in
      rw (test, found) ((top, l, omega arith, s), refl, refl)

  step-Agrees :
      (p : Pcq A) (xs : List A) (op : Op A)
      → Represents p xs
      → Agrees p.sz (step p op) (stack_step p.sz xs op)
  step-Agrees p xs (enqueue a) h = enqueue-Agrees p xs a h
  step-Agrees p xs dequeue h = dequeue-Agrees p xs h

  answers-stack :
      (p : Pcq A) (xs : List A) (sz : ℕ) (ops : List (Op A))
      → Represents p xs
      → p.sz ≡ sz
      → answers p ops ≡ stack_answers sz xs ops
  unfolding answers stack_answers Agrees
  answers-stack p xs sz [] h e = refl
  answers-stack p xs sz (op ∷ ops) h e =
      let (kept, size, same) =
        subst (λ n. Agrees n (step p op) (stack_step n xs op)) e (step-Agrees p xs op h) in
      rw same (
        ap (λ l. (stack_step sz xs op).1 ∷ l)
          (answers-stack (step p op).0 (stack_step sz xs op).0 sz ops kept size))

  -- Any run of calls on a new buffer of sz slots gives the answers of a stack of at most sz elements:
  -- every call that would wait is one that the stack refuses, an element comes out that was stored last,
  -- and no call reads or writes outside the array.
  pub pcq_init-answers :
      (junk : A) (sz : ℕ) (ops : List (Op A))
      → (p : Pcq A) × (pcq_init true junk sz ≡ some p) × (answers p ops ≡ stack_answers sz [] ops)
  unfolding pcq_init
  pcq_init-answers junk sz ops =
      let p : Pcq A = record { q = replicate sz junk; sz = sz; cap = 0 } in
      (p, refl, answers-stack p [] sz ops (refl, length-replicate sz junk, omega arith, tt) refl)
