-- ===== src/Pcq/Order.antt =====
-- What comes out of a pcq, and that every access stays inside its array.
use b_project.Base.{
  ◌+◌, ◌-◌, ◌≤◌, ◌<◌, ◌≡◌, refl, some, arith, length, take, set, length-set, get_elem?-set_self,
  take-set, ◌∙◌,
}
use b_project.Pcq.{Pcq, waits, goes, pcq_enqueue, pcq_dequeue}

pub record IsValid {ℓ} {A : Type ℓ} (p : Pcq A) : Type ℓ where
  pub slots : length (p.q) ≡ p.sz
  pub within : p.cap ≤ p.sz

module _ {ℓ} {A : Type ℓ} where
  -- While a buffer has room, an element is stored inside the array behind those already there, which
  -- stay as they are, and the next dequeue gives that same element back: the buffer is a stack.
  pcq_dequeue-enqueue :
      (p : Pcq A) (a : A)
      → IsValid p
      → p.cap < p.sz
      → (m n : Pcq A) × (pcq_enqueue p a ≡ goes m)
        × IsValid m
        × (take p.cap m.q ≡ take p.cap p.q)
        × (pcq_dequeue m ≡ goes (n, some a))
        × (n.cap ≡ p.cap)
        × (take n.cap n.q ≡ take p.cap p.q)
        × IsValid n
  unfolding pcq_enqueue pcq_dequeue
  pcq_dequeue-enqueue p a v h =
      let xs = set p.q p.cap a in
      let back : p.cap + 1 - 1 ≡ p.cap = omega arith in
      let size = length-set p.q p.cap a in
      let prefix = take-set p.q p.cap a in
      let inside : p.cap < length (p.q) = omega (arith, v.slots) in
      (
        record { q = xs; sz = p.sz; cap = p.cap + 1 },
        record { q = xs; sz = p.sz; cap = p.cap },
        ground arith,
        record { slots = size ∙ v.slots; within = omega arith },
        prefix,
        ground (arith, get_elem?-set_self p.q p.cap a inside),
        refl,
        prefix,
        record { slots = size ∙ v.slots; within = v.within },
      )

  -- A full buffer makes the caller wait, and so does an empty one; neither is changed.
  pcq_waits :
      (p : Pcq A) (a : A)
      → (p.cap ≡ p.sz → pcq_enqueue p a ≡ waits) × (p.cap ≡ 0 → pcq_dequeue p ≡ waits)
  unfolding pcq_enqueue pcq_dequeue
  pcq_waits p a = (ground arith, ground arith)
