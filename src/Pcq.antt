-- ===== src/Pcq.antt =====
-- pcq.h: the bounded buffer between the main thread and the file threads.
pub mod Order
pub mod Wakeup
pub mod Stack
mod Tests
use b_project.Base.{
  ℕ, ◌+◌, ◌-◌, Bool, true, false, Option, none, some, List, ◌==◌, if◌then◌else◌, length, get_elem?,
  set, replicate,
}

-- `q` is the array of sz slots, of which the first cap are used; `full` and `empty` are condition
-- variables, whose waiters are kept by the system of Wakeup.
pub record Pcq {ℓ} (A : Type ℓ) : Type ℓ where
  pub q : List A
  pub sz : ℕ
  pub cap : ℕ

-- One pass through the critical section: the thread waits, or goes on and signals.
pub data Pass {ℓ} (R : Type ℓ) : Type ℓ where
  waits : Pass R
  goes : R → Pass R

module _ {ℓ} {A : Type ℓ} where
  -- malloc gives sz slots of unspecified content, or fails.
  unfoldable pub pcq_init : Bool → A → ℕ → Option (Pcq A)
  pcq_init alloc junk sz =
      if alloc then some (record { q = replicate sz junk; sz = sz; cap = 0 }) else none

  -- The test of `while (cap == sz)` and what follows the loop.
  unfoldable pub pcq_enqueue : Pcq A → A → Pass (Pcq A)
  pcq_enqueue p elm =
      if p.cap == p.sz then waits else goes (record p { q = set p.q p.cap elm; cap = p.cap + 1 })

  unfoldable pub pcq_dequeue : Pcq A → Pass (Pcq A × Option A)
  pcq_dequeue p =
      if p.cap == 0 then waits else goes (record p { cap = p.cap - 1 }, get_elem? p.q (p.cap - 1))

  -- The array is freed and the sizes cleared; no use is left.
  unfoldable pub pcq_deinit : Pcq A → Pcq A
  pcq_deinit p = record { q = List.[]; sz = 0; cap = 0 }
