-- ===== src/Base/Text.antt =====
-- C strings as lists of bytes without their NUL, and the string functions of libc that the program
-- calls. A pointer into a string is the list from there on.
use Prim.Native.Nat.{Ordering, lt, eq, gt, compare}
use Prim.Native.Char.{code}
use Prim.Native.String.{String}
use Prim.Native.Nat.{ℕ, zero, suc, ◌+◌, ◌-◌, ◌*◌, ◌/◌, ◌%◌, ◌<◌}
use mathlib.Core.Path.{◌≡◌, refl}
use mathlib.Core.Bool.{Bool, true, false, ◌&&◌}
use mathlib.Core.Option.{Option, none, some}
use mathlib.Core.List.{List, [], ◌∷◌}
use native.Mathlib.Omega.{arith}
use b_project.Base.Tests.{leb, ltb, ◌==◌, if◌then◌else◌}

abbrev pub Text : Type 0
Text = List ℕ

abbrev pub codes : String → Text
codes String.[] = []
codes (String.◌∷◌ c s) = code c ∷ codes s

-- !strcmp(a, b)
abbrev pub str_eq : Text → Text → Bool
str_eq [] [] = true
str_eq [] (y ∷ ys) = false
str_eq (x ∷ xs) [] = false
str_eq (x ∷ xs) (y ∷ ys) = (x == y) && str_eq xs ys

pub str_eq_refl : (s : Text) → str_eq s s ≡ true
str_eq_refl [] = refl
str_eq_refl (x ∷ s) = ground (arith, str_eq_refl s)

pub str_eq→eq : (s t : Text) → str_eq s t ≡ true → s ≡ t
str_eq→eq [] [] h = refl
str_eq→eq [] (y ∷ t) h = cc
str_eq→eq (x ∷ s) [] h = cc
str_eq→eq (x ∷ s) (y ∷ t) h = ground (arith, str_eq→eq s t)

-- !strncmp(s, p, strlen(p))
abbrev pub starts_with : Text → Text → Bool
starts_with s [] = true
starts_with [] (y ∷ p) = false
starts_with (x ∷ s) (y ∷ p) = (x == y) && starts_with s p

-- strchr: the first occurrence.
abbrev pub strchr : Text → ℕ → Option Text
strchr [] c = none
strchr (x ∷ s) c = if x == c then some (x ∷ s) else strchr s c

abbrev or_else : Option Text → Option Text → Option Text
or_else (some a) b = some a
or_else none b = b

-- strrchr: the last occurrence.
abbrev pub strrchr : Text → ℕ → Option Text
strrchr [] c = none
strrchr (x ∷ s) c = or_else (strrchr s c) (if x == c then some (x ∷ s) else none)

abbrev pub is_digit : ℕ → Bool
is_digit c = leb b'0' c && leb c b'9'

-- The digits at the front, with the value read so far, and what follows them: strtol, strtoul and
-- atol in base 10 at a text that begins with a digit.
abbrev pub read_digits : ℕ → Text → ℕ × Text
read_digits acc [] = (acc, [])
read_digits acc (c ∷ s) =
    let more = read_digits (acc * 10 + (c - b'0')) s in if is_digit c then more else (acc, c ∷ s)

pub read_digits-digit :
    (acc d : ℕ) (s : Text)
    → d < 10
    → read_digits acc ((b'0' + d) ∷ s) ≡ read_digits (acc * 10 + d) s
read_digits-digit acc d s h =
    let e : is_digit (b'0' + d) ≡ true = ground arith in
    let n : acc * 10 + (b'0' + d - b'0') ≡ acc * 10 + d = omega arith in rw (e, n)

abbrev pub atol : Text → ℕ
atol s = (read_digits 0 s).0

pub str_eq_comm : (s t : Text) → str_eq s t ≡ str_eq t s
str_eq_comm [] [] = refl
str_eq_comm [] (y ∷ t) = refl
str_eq_comm (x ∷ s) [] = refl
str_eq_comm (x ∷ s) (y ∷ t) = ground (arith, str_eq_comm s t)

-- The decimal digits of a number, behind which `s` follows: %lu and %d. The fuel is more than the
-- digits of n.
abbrev pub decimal_onto : ℕ → ℕ → Text → Text
decimal_onto zero n s = s
decimal_onto (suc k) n s =
    let rest = decimal_onto k (n / 10) ((b'0' + n % 10) ∷ s) in
    if ltb n 10 then (b'0' + n) ∷ s else rest

unfoldable pub decimal : ℕ → Text
decimal n = decimal_onto (n + 1) n []

abbrev pub pad_zeros : ℕ → Text → Text
pad_zeros zero s = s
pad_zeros (suc k) s = b'0' ∷ pad_zeros k s

abbrev pub text_length : Text → ℕ
text_length [] = 0
text_length (c ∷ s) = suc (text_length s)

-- %010d of a number that is not negative.
unfoldable pub decimal10 : ℕ → Text
unfolding decimal
decimal10 n = pad_zeros (10 - text_length (decimal n)) (decimal n)

-- The order of strcmp, with what is to be said of equal texts.
unfoldable pub text_order : Text → Text → Ordering → Ordering
text_order [] [] same = same
text_order [] (y ∷ ys) same = lt
text_order (x ∷ xs) [] same = gt
text_order (x ∷ xs) (y ∷ ys) same = elim (compare x y) [
  | lt ↦ lt
  | eq ↦ text_order xs ys same
  | gt ↦ gt
]
