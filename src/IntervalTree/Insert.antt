-- ===== src/IntervalTree/Insert.antt =====
-- it_insert_new on a well-formed list: what it yields when the new interval meets at most one node,
-- and the use after free when it meets two.
use b_project.Base.{
  ap, ℕ, zero, suc, ◌+◌, ◌≤◌, ◌<◌, ◌≡◌, refl, Bool, true, false, ◌||◌, List, [], ◌∷◌, arith, ltb,
  if◌then◌else◌, length, Bool-cases, inl, inr,
}
use mathlib.Core.Bool.{or_assoc}
use b_project.IntervalTree.{
  ItNode, it_node, it_intersect, live, done, use_after_free, widen, absorb, place, it_insert_new,
}
use b_project.IntervalTree.Shape.{Beyond, IsTree, slots, inside, covers, touched}

-- Nothing beyond the new interval's end is met.
touched-Beyond :
    (f : ItNode) (m : ℕ) (xs : List ItNode) → f.bound ≤ m → Beyond m xs → touched f xs ≡ 0
unfolding touched it_intersect
touched-Beyond f m [] h s = refl
touched-Beyond f m (p ∷ xs) h s = ground (arith, touched-Beyond f p.bound xs)

absorb_alone :
    (k : ℕ) (f p : ItNode) (xs : List ItNode)
    → Beyond p.bound xs
    → p.base ≤ p.bound
    → it_intersect f p ≡ true
    → touched f xs ≡ 0
    → absorb (suc k) (widen f p) (slots xs) ≡ done true (live (widen f p) ∷ slots xs)
unfolding absorb touched it_intersect widen
absorb_alone k f p [] s v h t = refl
absorb_alone k f p (q ∷ xs) s v h t = ground arith

-- The list that the source means to build when at most one node is met.
unfoldable pub inserted : ItNode → List ItNode → List ItNode
inserted f [] = f ∷ []
inserted f (p ∷ xs) =
    if it_intersect f p
    then widen f p ∷ xs
    else if ltb p.base f.base
    then p ∷ inserted f xs
    else f ∷ p ∷ xs

inserted-Beyond :
    (m : ℕ) (f : ItNode) (xs : List ItNode)
    → m < f.base
    → f.base ≤ f.bound
    → Beyond m xs
    → touched f xs ≤ 1
    → Beyond m (inserted f xs)
unfolding inserted touched it_intersect widen
inserted-Beyond m f [] h v s t = ground arith
inserted-Beyond m f (p ∷ []) h v s t = ground arith
inserted-Beyond m f (p ∷ q ∷ xs) h v s t = ground (arith, inserted-Beyond p.bound f (q ∷ xs))

inserted-IsTree :
    (f : ItNode) (xs : List ItNode)
    → f.base ≤ f.bound
    → IsTree xs
    → touched f xs ≤ 1
    → IsTree (inserted f xs)
unfolding inserted touched it_intersect widen
inserted-IsTree f [] v s t = ground arith
inserted-IsTree f (p ∷ []) v s t = ground arith
inserted-IsTree f (p ∷ q ∷ xs) v s t = ground (arith, inserted-Beyond p.bound f (q ∷ xs))

inside-widen :
    (f p : ItNode) (x : ℕ)
    → f.base ≤ f.bound
    → p.base ≤ p.bound
    → it_intersect f p ≡ true
    → inside x (widen f p) ≡ (inside x f || inside x p)
unfolding it_intersect widen
inside-widen f p x v w h = ground arith

or_left_comm : (a b c : Bool) → (a || (b || c)) ≡ (b || (a || c))
or_left_comm true true c = refl
or_left_comm true false c = refl
or_left_comm false b c = refl

Beyond-IsTree : (m : ℕ) (xs : List ItNode) → Beyond m xs → IsTree xs
Beyond-IsTree m [] s = tt
Beyond-IsTree m (p ∷ xs) s = (s.1, s.2)

covers-inserted :
    (f : ItNode) (xs : List ItNode) (x : ℕ)
    → f.base ≤ f.bound
    → IsTree xs
    → covers (inserted f xs) x ≡ (inside x f || covers xs x)
unfolding inserted
covers-inserted f [] x v s = refl
covers-inserted f (p ∷ xs) x v s = elim (Bool-cases (it_intersect f p)) [
  | inl hit ↦
      rw (hit, inside-widen f p x v s.0 hit) (or_assoc (inside x f) (inside x p) (covers xs x))
  | inr miss ↦ rw miss (elim (Bool-cases (ltb p.base f.base)) [
    | inl below ↦
        rw (below, covers-inserted f xs x v (Beyond-IsTree p.bound xs s.1))
          (or_left_comm (inside x p) (inside x f) (covers xs x))
    | inr above ↦ rw above
  ])
]

-- What a hit leaves over, when at most one node is met.
touched_rest :
    (f p : ItNode) (xs : List ItNode)
    → it_intersect f p ≡ true
    → touched f (p ∷ xs) ≤ 1
    → (touched f xs ≡ 0) × (touched f (p ∷ xs) ≡ 1)
unfolding touched
touched_rest f p xs h t = ground arith

-- A node that begins beyond the new interval ends the walk.
touched_none :
    (f p : ItNode) (xs : List ItNode)
    → it_intersect f p ≡ false
    → f.base ≤ p.base
    → p.base ≤ p.bound
    → Beyond p.bound xs
    → touched f (p ∷ xs) ≡ 0
unfolding touched it_intersect
touched_none f p xs h b v s = ground (arith, touched-Beyond f p.bound xs)

touched_miss :
    (f p : ItNode) (xs : List ItNode) → it_intersect f p ≡ false → touched f (p ∷ xs) ≡ touched f xs
unfolding touched
touched_miss f p xs h = rw h

touched_hit :
    (f p : ItNode) (xs : List ItNode)
    → it_intersect f p ≡ true
    → touched f (p ∷ xs) ≡ suc (touched f xs)
unfolding touched
touched_hit f p xs h = rw h

place-inserted :
    (k : ℕ) (f : ItNode) (xs : List ItNode)
    → f.base ≤ f.bound
    → IsTree xs
    → touched f xs ≤ 1
    → length xs + 1 < k
    → place k true f (slots xs) ≡ done (ltb 0 (touched f xs)) (slots (inserted f xs))
unfolding place inserted
place-inserted zero f xs v s t h = absurd (omega arith)
place-inserted (suc k) f [] v s t h = unfold touched in refl
place-inserted (suc zero) f (p ∷ xs) v s t h = absurd (omega arith)
place-inserted (suc (suc k)) f (p ∷ xs) v s t h = elim (Bool-cases (it_intersect f p)) [
  | inl hit ↦ rw (
    hit,
    absorb_alone k f p xs s.1 s.0 hit (touched_rest f p xs hit t).0,
    (touched_rest f p xs hit t).1,
  )
  | inr miss ↦ elim (Bool-cases (ltb p.base f.base)) [
    | inl below ↦ rw (
      miss,
      below,
      touched_miss f p xs miss,
      place-inserted (suc k) f xs v (Beyond-IsTree p.bound xs s.1)
          (omega (arith, touched_miss f p xs miss)) (omega arith),
    )
    | inr above ↦ rw (touched_none f p xs miss (ground arith) s.0 s.1, miss, above)
  ]
]

length-slots : (xs : List ItNode) → length (slots xs) ≡ length xs
length-slots [] = refl
length-slots (p ∷ xs) = ap suc (length-slots xs)

-- A list grows by the new node, unless a node absorbs it.
length-inserted :
    (f : ItNode) (xs : List ItNode)
    → f.base ≤ f.bound
    → IsTree xs
    → touched f xs ≤ 1
    → length (inserted f xs) ≡ (if ltb 0 (touched f xs) then length xs else length xs + 1)
unfolding inserted
length-inserted f [] v s t = unfold touched in refl
length-inserted f (p ∷ xs) v s t = elim (Bool-cases (it_intersect f p)) [
  | inl hit ↦ rw (hit, (touched_rest f p xs hit t).1)
  | inr miss ↦ elim (Bool-cases (ltb p.base f.base)) [
    | inl below ↦
        rw
          (
            miss,
            below,
            touched_miss f p xs miss,
            length-inserted f xs v (Beyond-IsTree p.bound xs s.1)
                (omega (arith, touched_miss f p xs miss)),
          )
          (ground arith)
    | inr above ↦ rw (touched_none f p xs miss (ground arith) s.0 s.1, miss, above) (omega arith)
  ]
]

pub it_insert_new-inserted :
    (xs : List ItNode) (base bound id : ℕ)
    → IsTree xs
    → base ≤ bound
    → touched (it_node base bound id) xs ≤ 1
    → (it_insert_new true (slots xs) base bound id
        ≡ done
            (ltb 0 (touched (it_node base bound id) xs))
            (slots (inserted (it_node base bound id) xs)))
      × IsTree (inserted (it_node base bound id) xs)
      × (length (inserted (it_node base bound id) xs)
          ≡ (if ltb 0 (touched (it_node base bound id) xs) then length xs else length xs + 1))
      × ((x : ℕ)
          → covers (inserted (it_node base bound id) xs) x
            ≡ (inside x (it_node base bound id) || covers xs x))
unfolding it_insert_new
it_insert_new-inserted xs base bound id s v t =
    let f = it_node base bound id in
    (
      rw (length-slots xs) (place-inserted (length xs + 2) f xs v s t (omega arith)),
      inserted-IsTree f xs v s t,
      length-inserted f xs v s t,
      λ x. covers-inserted f xs x v s,
    )

-- On a sorted list whose nodes neither overlap nor touch, a new interval that meets or touches at most
-- one node is inserted without a fault and within the rounds given, when malloc gives a node. The result
-- is again such a list, it covers exactly the old offsets and the new interval's, and `new` is reported
-- (no node absorbed it) exactly if no node was met, as the list then has one node more.
pub it_insert_new-covers :
    (xs : List ItNode) (base bound id : ℕ)
    → IsTree xs
    → base ≤ bound
    → touched (it_node base bound id) xs ≤ 1
    → (ys : List ItNode) × (it_insert_new true (slots xs) base bound id
        ≡ done (ltb 0 (touched (it_node base bound id) xs)) (slots ys))
      × IsTree ys
      × (length ys
          ≡ (if ltb 0 (touched (it_node base bound id) xs) then length xs else length xs + 1))
      × ((x : ℕ) → covers ys x ≡ (inside x (it_node base bound id) || covers xs x))
it_insert_new-covers xs base bound id s v t =
    let (e, tree, size, same) = it_insert_new-inserted xs base bound id s v t in
    (inserted (it_node base bound id) xs, e, tree, size, same)

-- The third node that meets the base node is reached through the freed second one.
absorb_fault :
    (k : ℕ) (f p : ItNode) (xs : List ItNode)
    → p.base ≤ p.bound
    → Beyond p.bound xs
    → it_intersect f p ≡ true
    → 1 ≤ touched f xs
    → absorb (suc (suc k)) (widen f p) (slots xs) ≡ use_after_free
unfolding absorb touched it_intersect widen
absorb_fault k f p [] v s h t = absurd (omega arith)
absorb_fault k f p (q ∷ xs) v s h t = ground (arith, touched-Beyond f q.bound xs)

place_fault :
    (k : ℕ) (alloc : Bool) (f : ItNode) (xs : List ItNode)
    → f.base ≤ f.bound
    → IsTree xs
    → 2 ≤ touched f xs
    → length xs + 1 < k
    → place k alloc f (slots xs) ≡ use_after_free
unfolding place
place_fault zero alloc f xs v s t h = absurd (omega arith)
place_fault (suc k) alloc f [] v s t h = absurd (unfold touched in omega arith)
place_fault (suc zero) alloc f (p ∷ xs) v s t h = absurd (omega arith)
place_fault (suc (suc zero)) alloc f (p ∷ xs) v s t h = absurd (omega arith)
place_fault (suc (suc (suc k))) alloc f (p ∷ xs) v s t h = elim (Bool-cases (it_intersect f p)) [
  | inl hit ↦ rw (hit, absorb_fault k f p xs s.0 s.1 hit (omega (arith, touched_hit f p xs hit)))
  | inr miss ↦ elim (Bool-cases (ltb p.base f.base)) [
    | inl below ↦ rw (
      miss,
      below,
      place_fault (suc (suc k)) alloc f xs v (Beyond-IsTree p.bound xs s.1)
          (omega (arith, touched_miss f p xs miss)) (omega arith),
    )
    | inr above ↦ absurd (omega (arith, touched_none f p xs miss (ground arith) s.0 s.1))
  ]
]

-- On the same lists, a new interval that meets or touches two nodes or more makes the walk read the node
-- that it has just freed, whether or not malloc would give a node.
pub it_insert_new_faults :
    (alloc : Bool) (xs : List ItNode) (base bound id : ℕ)
    → IsTree xs
    → base ≤ bound
    → 2 ≤ touched (it_node base bound id) xs
    → it_insert_new alloc (slots xs) base bound id ≡ use_after_free
unfolding it_insert_new
it_insert_new_faults alloc xs base bound id s v t =
    rw (length-slots xs)
      (place_fault (length xs + 2) alloc (it_node base bound id) xs v s t (omega arith))
