-- ===== src/IntervalTree/Shape.antt =====
-- The shape that it_insert_new keeps: sorted nodes that neither overlap nor touch.
use b_project.Base.{
  ℕ, suc, ◌≤◌, ◌<◌, Bool, false, ◌&&◌, ◌||◌, List, [], ◌∷◌, ltb, leb, if◌then◌else◌,
}
use b_project.IntervalTree.{ItNode, Slot, live, it_intersect}

-- Every node lies beyond m, and beyond its predecessor.
abbrev pub Beyond : ℕ → List ItNode → Type 0
Beyond m [] = Unit {0}
Beyond m (p ∷ xs) = (m < p.base) × (p.base ≤ p.bound) × Beyond p.bound xs

abbrev pub IsTree : List ItNode → Type 0
IsTree [] = Unit {0}
IsTree (p ∷ xs) = (p.base ≤ p.bound) × Beyond p.bound xs

abbrev pub slots : List ItNode → List Slot
slots [] = []
slots (p ∷ xs) = live p ∷ slots xs

abbrev pub inside : ℕ → ItNode → Bool
inside x p = leb p.base x && ltb x p.bound

-- Offset x lies in one of the half-open intervals.
abbrev pub covers : List ItNode → ℕ → Bool
covers [] x = false
covers (p ∷ xs) x = inside x p || covers xs x

-- How many nodes an interval meets or touches.
unfoldable pub touched : ItNode → List ItNode → ℕ
touched f [] = 0
touched f (p ∷ xs) = if it_intersect f p then suc (touched f xs) else touched f xs
