-- ===== src/Bo/Regions.antt =====
-- add_range: the line of a token as its marks are found, described by the offsets of the marks.
use b_project.Base.{
  ℕ, zero, suc, ◌+◌, ◌*◌, ◌/◌, ◌%◌, ◌^◌, ◌≤◌, ◌<◌, ◌≡◌, refl, sym, Bool, true, false, Option, none,
  some, List, [], ◌∷◌, ◌++◌, All, length, ltb, append_assoc, length-append, take_all, Bool-cases,
  inl, inr, arith, append-nil,
}
use b_project.Base.Text.{Text, decimal, decimal_onto}
use b_project.Bo.{Slot, range_name, file_flag, region_text, saved, with_mark, add_range}

abbrev below : ℕ → ℕ
below zero = 1
below (suc d) = below d * 10

length-decimal_onto :
    (k d n : ℕ) (s : Text) → n < below (suc d) → length (decimal_onto k n s) ≤ suc d + length s
length-decimal_onto zero d n s h = omega arith
length-decimal_onto (suc k) zero n s h =
    let e : ltb n 10 ≡ true = ground arith in rw e (omega arith)
length-decimal_onto (suc k) (suc d) n s h = elim (Bool-cases (ltb n 10)) [
  | inl e ↦ rw e (omega arith)
  | inr e ↦
      let l : n / 10 < below (suc d) = omega arith in
      rw e (omega (arith, length-decimal_onto k d (n / 10) ((b'0' + n % 10) ∷ s) l))
]

abbrev pub Small : ℕ → Type 0
Small n = n < 2 ^ 63

length-decimal : (n : ℕ) → Small n → length (decimal n) ≤ 20
unfolding decimal
length-decimal n h = omega (arith, length-decimal_onto (n + 1) 19 n [] (omega arith))

-- A region as it is written, which the buffer holds.
abbrev pub region : ℕ → ℕ → Text
region base bound = b' ' ∷ (decimal base ++ b',' ∷ decimal bound)

region_text-region : (a b : ℕ) → Small a → Small b → region_text a b ≡ region a b
unfolding region_text
region_text-region a b ha hb =
    let whole = length-append (decimal a) (b',' ∷ decimal b) in
    let la = length-decimal a ha in
    let lb = length-decimal b hb in take_all 62 (region a b) (omega arith)

-- The regions between the first and the second mark, the third and the fourth, and so on.
abbrev pub regions : List ℕ → Text
regions [] = []
regions (a ∷ []) = []
regions (a ∷ b ∷ offsets) = region a b ++ regions offsets

-- The mark that waits for another.
abbrev open_mark : List ℕ → Option ℕ
open_mark [] = none
open_mark (a ∷ []) = some a
open_mark (a ∷ b ∷ offsets) = open_mark offsets

abbrev or_name : ℕ → Option Text → Text
or_name w none = range_name w
or_name w (some line) = line

-- The line of token w with marks at these offsets: what it was, or its name, then the file and the regions.
abbrev pub line_with : Text → ℕ → Option Text → List ℕ → Option Text
line_with fp w line [] = line
line_with fp w line (a ∷ offsets) = some ((or_name w line ++ file_flag fp) ++ regions (a ∷ offsets))

abbrev is_added : List ℕ → Bool
is_added [] = false
is_added (a ∷ offsets) = true

abbrev pub slot_with : Text → ℕ → Option Text → List ℕ → Slot
slot_with fp w line offsets = record {
  line = line_with fp w line offsets;
  interval = open_mark offsets;
  added = is_added offsets;
}

-- What another mark adds to the regions.
abbrev closing : Option ℕ → ℕ → Text
closing none o = []
closing (some a) o = region a o

abbrev toggled : Option ℕ → ℕ → Option ℕ
toggled none o = some o
toggled (some a) o = none

regions-snoc :
    (offsets : List ℕ) (o : ℕ)
    → (regions (offsets ++ o ∷ []) ≡ regions offsets ++ closing (open_mark offsets) o)
      × (open_mark (offsets ++ o ∷ []) ≡ toggled (open_mark offsets) o)
regions-snoc [] o = (refl, refl)
regions-snoc (a ∷ []) o = (append-nil (region a o), refl)
regions-snoc (a ∷ b ∷ offsets) o =
    let (r, m) = regions-snoc offsets o in
    (rw r (sym (append_assoc (region a b) (regions offsets) (closing (open_mark offsets) o))), m)

open_mark-Small :
    (offsets : List ℕ) (a : ℕ) → All Small offsets → open_mark offsets ≡ some a → Small a
open_mark-Small [] a h e = absurd (cc)
open_mark-Small (x ∷ []) a (h, _) e = ground arith
open_mark-Small (x ∷ y ∷ offsets) a (_, (_, h)) e = open_mark-Small offsets a h e

saved-Small : (o : ℕ) → Small o → saved o ≡ some o
saved-Small o h = let l : ltb o (2 ^ 63) ≡ true = ground arith in rw l

-- Enough memory.
abbrev pub Gives : (ℕ → Bool) → Type 0
Gives gives = (n : ℕ) → gives n ≡ true

first_mark :
    (gives : ℕ → Bool) (fp : Text) (o w : ℕ) (line : Option Text)
    → Gives gives
    → Small o
    → add_range gives fp o w (slot_with fp w line []) ≡ some (slot_with fp w line (o ∷ []))
unfolding add_range
first_mark gives fp o w none g h =
    rw (g 8, g (length (range_name w) + 4 + length fp + 3 + 1), saved-Small o h, append-nil)
first_mark gives fp o w (some line) g h =
    rw (g (length line + 4 + length fp + 3 + 1), saved-Small o h, append-nil)

with_mark-closing :
    (gives : ℕ → Bool) (o : ℕ) (open_at : Option ℕ) (line : Text)
    → Gives gives
    → Small o
    → ((a : ℕ) → open_at ≡ some a → Small a)
    → with_mark gives o (length line) open_at line
      ≡ some (record {
        line = some (line ++ closing open_at o);
        interval = toggled open_at o;
        added = true;
      })
with_mark-closing gives o none line g h small = rw (saved-Small o h, append-nil)
with_mark-closing gives o (some a) line g h small = rw (
  g (length line + length (region_text a o) + 1),
  region_text-region a o (small a refl) h,
  take_all (length line) line (omega arith),
)

-- One more mark is one more offset.
pub add_range-slot_with :
    (gives : ℕ → Bool) (fp : Text) (o w : ℕ) (line : Option Text) (offsets : List ℕ)
    → Gives gives
    → Small o
    → All Small offsets
    → add_range gives fp o w (slot_with fp w line offsets)
      ≡ some (slot_with fp w line (offsets ++ o ∷ []))
unfolding add_range
add_range-slot_with gives fp o w line [] g h small = first_mark gives fp o w line g h
add_range-slot_with gives fp o w line (a ∷ offsets) g h small =
    let begun = or_name w line ++ file_flag fp in
    let l = begun ++ regions (a ∷ offsets) in
    let joined = append_assoc begun (regions (a ∷ offsets)) (closing (open_mark (a ∷ offsets)) o) in
    let (r, m) = regions-snoc (a ∷ offsets) o in
    rw (r, m, ← joined)
      (with_mark-closing gives o (open_mark (a ∷ offsets)) l g h
        (λ x. open_mark-Small (a ∷ offsets) x small))
