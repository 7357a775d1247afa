-- ===== src/Cli/Regions.antt =====
-- main.c, get_range: the regions that it reads and those that it refuses.
use b_project.Base.{
  ℕ, zero, suc, ◌+◌, ◌≤◌, min, ◌*◌, ◌/◌, ◌%◌, ◌<◌, ◌≡◌, refl, ap, sym, ◌∙◌, Bool, true, false, not,
  Option, none, some, [], ◌∷◌, ◌++◌, leb, ltb, ◌==◌, if◌then◌else◌, Bool-cases, inl, inr, arith,
}
use b_project.Base.Text.{Text, strchr, atol, read_digits, read_digits-digit, decimal, decimal_onto}
use b_project.Cli.{get_range, region, long_max}

read_digits-decimal_onto :
    (k n : ℕ) (s : Text) → n < k → read_digits 0 (decimal_onto k n s) ≡ read_digits n s
read_digits-decimal_onto zero n s h = absurd (omega arith)
read_digits-decimal_onto (suc k) n s h = elim (Bool-cases (ltb n 10)) [
  | inl e ↦
      let l : n < 10 = ground arith in
      rw e (read_digits-digit 0 n s l ∙ ap (λ a. read_digits a s) (omega arith))
  | inr e ↦
      let l : n / 10 < k = ground arith in
      let m : n / 10 * 10 + n % 10 ≡ n = omega arith in
      let one = read_digits-digit (n / 10) (n % 10) s (omega arith) in
      rw e (
        read_digits-decimal_onto k (n / 10) ((b'0' + n % 10) ∷ s) l
        ∙ one
        ∙ ap (λ a. read_digits a s) m)
]

strchr-decimal_onto :
    (k n : ℕ) (s : Text) → n < k → strchr (decimal_onto k n s) b',' ≡ strchr s b','
strchr-decimal_onto zero n s h = absurd (omega arith)
strchr-decimal_onto (suc k) n s h = elim (Bool-cases (ltb n 10)) [
  | inl e ↦ let d : (b'0' + n == b',') ≡ false = ground arith in rw (e, d)
  | inr e ↦
      let l : n / 10 < k = ground arith in
      let d : (b'0' + n % 10 == b',') ≡ false = ground arith in
      rw e (strchr-decimal_onto k (n / 10) ((b'0' + n % 10) ∷ s) l ∙ rw d)
]

append-decimal_onto : (k n : ℕ) (s t : Text) → decimal_onto k n s ++ t ≡ decimal_onto k n (s ++ t)
append-decimal_onto zero n s t = refl
append-decimal_onto (suc k) n s t = elim (Bool-cases (ltb n 10)) [
  | inl e ↦ rw e
  | inr e ↦ rw e (append-decimal_onto k (n / 10) ((b'0' + n % 10) ∷ s) t)
]

-- A number has a first digit.
first_digit : (k n : ℕ) (s : Text) → n < k → (d : ℕ) × (r : Text) × (decimal_onto k n s ≡ d ∷ r)
first_digit zero n s h = absurd (omega arith)
first_digit (suc k) n s h = elim (Bool-cases (ltb n 10)) [
  | inl e ↦ (b'0' + n, s, rw e)
  | inr e ↦
      let l : n / 10 < k = ground arith in
      let (d, r, f) = first_digit k (n / 10) ((b'0' + n % 10) ∷ s) l in (d, r, rw e f)
]

if-not : (c : Bool) (x y : Option (ℕ × ℕ)) → (if not c then y else x) ≡ (if c then x else y)
if-not true x y = refl
if-not false x y = refl

atol-decimal_onto : (k n : ℕ) → n < k → atol (decimal_onto k n []) ≡ n
atol-decimal_onto k n h = ap (λ r. r.0) (read_digits-decimal_onto k n [] h)

get_range-comma : (a : ℕ) (t : Text) → a ≤ long_max → get_range (decimal a ++ b',' ∷ t) ≡ region a t
unfolding get_range decimal
get_range-comma a t h =
    let joined = append-decimal_onto (a + 1) a [] (b',' ∷ t) in
    let found = strchr-decimal_onto (a + 1) a (b',' ∷ t) (omega arith) in
    let read = ap (λ q. q.0) (read_digits-decimal_onto (a + 1) a (b',' ∷ t) (omega arith)) in
    let fits : min a long_max ≡ a = omega arith in rw (joined, found, read, fits)

region-decimal :
    (a b : ℕ) → b ≤ long_max → region a (decimal b) ≡ (if ltb a b then some (a, b) else none)
unfolding decimal
region-decimal a b h =
    let (d, r, f) = first_digit (b + 1) b [] (omega arith) in
    let read : atol (d ∷ r) ≡ b = ap atol (sym f) ∙ atol-decimal_onto (b + 1) b (omega arith) in
    let fits : min b long_max ≡ b = omega arith in
    let test : leb b a ≡ not (ltb a b) = ground arith in
    rw (f, read, fits, test) (if-not (ltb a b) (some (a, b)) none)

-- A region printed as two decimal numbers with a comma is read as these numbers if the base is below the
-- bound, and refused if not, for numbers that a long holds. With nothing behind the comma it is refused,
-- whatever the base.
pub get_range-decimal :
    (a b : ℕ)
    → a ≤ long_max
    → b ≤ long_max
    → (get_range (decimal a ++ b',' ∷ decimal b) ≡ (if ltb a b then some (a, b) else none))
      × (get_range (decimal a ++ b',' ∷ []) ≡ none)
get_range-decimal a b ha hb =
    (get_range-comma a (decimal b) ha ∙ region-decimal a b hb, get_range-comma a [] ha)
