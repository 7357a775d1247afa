-- ===== src/IntervalTree.antt =====
-- interval_tree.h and interval_tree.c: the intervals of one file as a linked list in order of base.
pub mod Shape
pub mod Insert
mod Tests
use b_project.Base.{
  ℕ, zero, suc, ◌+◌, Bool, true, false, ◌&&◌, Option, none, some, List, [], ◌∷◌, ltb, leb,
  if◌then◌else◌, length,
}
use b_project.Base.Text.{Text}

-- struct it_node, less its list link (the list structure) and its mutex. Strings are `none` for NULL.
pub record ItNode : Type 0 where
  pub id : ℕ
  pub base : ℕ
  pub bound : ℕ
  pub sequence : ℕ
  pub file_path : Option Text
  pub lock_name : Option Text
  pub lock_acquired : Bool
  pub lock_type : ℕ

-- A zeroed node with an interval: the local `f` of it_insert_new.
abbrev pub it_node : ℕ → ℕ → ℕ → ItNode
it_node base bound id = record {
  id = id;
  base = base;
  bound = bound;
  sequence = 0;
  file_path = none;
  lock_name = none;
  lock_acquired = false;
  lock_type = 0;
}

unfoldable pub it_intersect : ItNode → ItNode → Bool
it_intersect a b = leb a.base b.bound && leb b.base a.bound

unfoldable pub it_conflict : ItNode → ItNode → Bool
it_conflict a b = ltb a.base b.bound && ltb b.base a.bound

-- What a link of the list leads to: a node, or memory that was given to free().
pub data Slot : Type 0 where
  live : ItNode → Slot
  freed : Slot

-- it_deinit frees every node and leaves the empty list. A second free() of a slot is a fault.
pub data Freeing : Type 0 where
  emptied : ℕ → Freeing
  double_free : Freeing

unfoldable pub it_deinit : List Slot → ℕ → Freeing
it_deinit [] n = emptied n
it_deinit (freed ∷ rest) n = double_free
it_deinit (live p ∷ rest) n = it_deinit rest (n + 1)

-- How the walk of it_insert_new ends: with the list after it and whether a node absorbed the new
-- interval, by reading freed memory, or not at all.
pub data Walk : Type 0 where
  done : Bool → List Slot → Walk
  use_after_free : Walk
  out_of_fuel : Walk

abbrev pub behind : Slot → Walk → Walk
behind s (done merged ys) = done merged (s ∷ ys)
behind s use_after_free = use_after_free
behind s out_of_fuel = out_of_fuel

-- A node that the walk passes stands behind the base node.
abbrev second_place : Slot → Walk → Walk
second_place s (done merged (x ∷ ys)) = done merged (x ∷ s ∷ ys)
second_place s other = other

-- *p_itn becomes the union of itself and *p_f.
unfoldable pub widen : ItNode → ItNode → ItNode
widen f p = record p {
  base = if ltb f.base p.base then f.base else p.base;
  bound = if ltb p.bound f.bound then f.bound else p.bound;
}

-- The base node takes over the bound of a later one.
unfoldable pub extend : ItNode → ItNode → ItNode
extend b p = record b { bound = if ltb b.bound p.bound then p.bound else b.bound }

-- The walk once p_f is a node of the list, which stands in front of `rest` when the walk ends. On a
-- further intersection the source sets p_f->next to the node that it then frees, and goes on from p_f:
-- the link of p_f still leads to the freed node.
unfoldable pub absorb : ℕ → ItNode → List Slot → Walk
absorb zero b rest = out_of_fuel
absorb (suc k) b [] = done true (live b ∷ [])
absorb (suc k) b (freed ∷ rest) = use_after_free
absorb (suc k) b (live p ∷ rest) =
    let hit = absorb k (extend b p) (freed ∷ rest) in
    let passed = absorb k b rest in
    if it_intersect b p
    then hit
    else if ltb p.base b.base
    then second_place (live p) passed
    else done true (live b ∷ live p ∷ rest)

-- The walk while p_f is the local interval f. Nodes with a smaller base are passed (`save` moves on);
-- at the end f is added after the last of them, if malloc gives a node.
unfoldable pub place : ℕ → Bool → ItNode → List Slot → Walk
unfolding absorb
place zero alloc f xs = out_of_fuel
place (suc k) alloc f [] = done false (if alloc then live f ∷ [] else [])
place (suc k) alloc f (freed ∷ rest) = use_after_free
place (suc k) alloc f (live p ∷ rest) =
    let hit = absorb k (widen f p) rest in
    let passed = place k alloc f rest in
    if it_intersect f p
    then hit
    else if ltb p.base f.base
    then behind (live p) passed
    else done false (if alloc then live f ∷ live p ∷ rest else live p ∷ rest)

-- One round more than the list has nodes, and one for a node that is visited again.
unfoldable pub it_insert_new : Bool → List Slot → ℕ → ℕ → ℕ → Walk
unfolding place
it_insert_new alloc it base bound id = place (length it + 2) alloc (it_node base bound id) it
