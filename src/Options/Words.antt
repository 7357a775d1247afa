-- ===== src/Options/Words.antt =====
-- get_an_oracle: an oracle that was written is read back, quoted or not.
use b_project.Base.{
  ◌⊎◌, inl, inr, refl, ◌≡◌, ℕ, ◌≤◌, ◌≡◌, refl, ap, ◌∙◌, Bool, true, false, not, ◌||◌, Option, none,
  some, List, [], ◌∷◌, ◌++◌, All, length, ltb, ◌==◌, if◌then◌else◌, append_assoc, arith,
}
use b_project.Base.Text.{Text}
use b_project.Options.{
  oracle_len_min, oracle_len_max, is_blank, skip_blanks, up_to_quote, pull_string, up_to_blank,
  or_word, sized, get_an_oracle, Chosen, oracles, bad_copy, with_second, with_first, from_target,
  choose_line, get_oracles,
}

-- The two ways to write an oracle in a line.
abbrev pub written : Bool → Text → Text
written true w = b'"' ∷ (w ++ b'"' ∷ [])
written false w = w

abbrev pub is_unquotable : ℕ → Bool
is_unquotable c = c == b'"' || c == b'\\'

abbrev begins_with_quote : Text → Bool
begins_with_quote [] = true
begins_with_quote (c ∷ w) = c == b'"'

-- An oracle that can be written so: between quotes it holds no quote and no backslash; a word holds no
-- blank and begins with no quote.
abbrev pub Writable : Bool → Text → Type 0
Writable true w = All (λ c. is_unquotable c ≡ false) w
Writable false w = All (λ c. is_blank c ≡ false) w × (begins_with_quote w ≡ false)

-- What is left behind an oracle with a blank after it.
abbrev pub left : Bool → Text → Text
left true rest = b' ' ∷ rest
left false rest = rest

up_to_blank-append :
    (w rest : Text)
    → All (λ c. is_blank c ≡ false) w
    → up_to_blank (w ++ b' ' ∷ rest) ≡ some (w, rest)
unfolding up_to_blank
up_to_blank-append [] rest h = refl
up_to_blank-append (c ∷ w) rest (n, h) = rw (n, up_to_blank-append w rest h) refl

up_to_quote-append :
    (before : ℕ) (w rest : Text)
    → (before == b'\\') ≡ false
    → All (λ c. is_unquotable c ≡ false) w
    → up_to_quote before (w ++ b'"' ∷ rest) ≡ some (w, rest)
unfolding up_to_quote
up_to_quote-append before [] rest e h = rw e refl
up_to_quote-append before (c ∷ w) rest e (n, h) =
    let quote : (c == b'"') ≡ false = ground arith in
    let slash : (c == b'\\') ≡ false = ground arith in
    rw (quote, up_to_quote-append c w rest slash h) refl

unsized : Bool → Text → Text → Option (Text × Text)
unsized quoted w rest =
    let t = skip_blanks (written quoted w ++ b' ' ∷ rest) in or_word t (pull_string t)

unsized-written :
    (quoted : Bool) (w rest : Text)
    → Writable quoted w
    → unsized quoted w rest ≡ some (w, left quoted rest)
unfolding unsized skip_blanks
unsized-written true w rest h =
    ap (λ s. or_word (b'"' ∷ s) (pull_string (b'"' ∷ s))) (append_assoc w (b'"' ∷ []) (b' ' ∷ rest))
    ∙ rw (up_to_quote-append b'"' w (b' ' ∷ rest) refl h) refl
unsized-written false [] rest (a, n) = absurd (cc)
unsized-written false (c ∷ w) rest ((a, h), n) = rw (a, n) (up_to_blank-append (c ∷ w) rest (a, h))

abbrev pub fits : Text → Bool
fits w = not (ltb (length w) oracle_len_min || ltb oracle_len_max (length w))

-- An oracle of 8 to 255 bytes, written between quotes or as a word, is read back, up to the blank behind
-- it; a shorter or longer one is refused.
pub get_an_oracle-written :
    (quoted : Bool) (w rest : Text)
    → Writable quoted w
    → get_an_oracle (written quoted w ++ b' ' ∷ rest)
      ≡ (if fits w then some (w, left quoted rest) else none)
unfolding get_an_oracle unsized
get_an_oracle-written quoted w rest h = ap sized (unsized-written quoted w rest h) ∙ ground arith

pub get_an_oracle-left :
    (quoted : Bool) (rest : Text) → get_an_oracle (left quoted rest) ≡ get_an_oracle rest
unfolding get_an_oracle skip_blanks
get_an_oracle-left true rest = refl
get_an_oracle-left false rest = refl

-- What is read has the length of an oracle.
sized-fits : (o : Option (Text × Text)) (w rest : Text) → sized o ≡ some (w, rest) → fits w ≡ true
sized-fits none w rest h = absurd (cc)
sized-fits (some (v, r)) w rest h = ground arith

get_an_oracle-fits : (t w rest : Text) → get_an_oracle t ≡ some (w, rest) → fits w ≡ true
unfolding get_an_oracle
get_an_oracle-fits t w rest h =
    sized-fits (or_word (skip_blanks t) (pull_string (skip_blanks t))) w rest h

-- Room for an oracle of a struct oracles, with its NUL.
abbrev pub InBounds : Text → Type 0
InBounds w = (oracle_len_min ≤ length w) × (length w ≤ oracle_len_max)

-- A program that has copied these oracles; a bad copy is in no bounds.
abbrev BothInBounds : Chosen → Type 0
BothInBounds (oracles open_oracle close) = InBounds open_oracle × InBounds close
BothInBounds bad_copy = ⊥

-- What becomes of a line's text, unless it is a bad copy.
abbrev InBoundsOrBad : Chosen → Type 0
InBoundsOrBad chosen = (chosen ≡ bad_copy) ⊎ BothInBounds chosen

fits-InBounds : (w : Text) → fits w ≡ true → InBounds w
fits-InBounds w h = (ground arith, ground arith)

with_second-InBounds :
    (a : Text) (o : Option (Text × Text))
    → ((w rest : Text) → o ≡ some (w, rest) → fits w ≡ true)
    → InBounds a
    → InBoundsOrBad (with_second a o)
with_second-InBounds a none h i = inl refl
with_second-InBounds a (some (w, rest)) h i = inr (i, fits-InBounds w (h w rest refl))

with_first-InBounds :
    (o : Option (Text × Text))
    → ((w rest : Text) → o ≡ some (w, rest) → fits w ≡ true)
    → InBoundsOrBad (with_first o)
with_first-InBounds none h = inl refl
with_first-InBounds (some (w, rest)) h =
    with_second-InBounds w (get_an_oracle rest) (get_an_oracle-fits rest)
      (fits-InBounds w (h w rest refl))

from_target-InBounds : (target : Option Text) → InBoundsOrBad (from_target target)
from_target-InBounds none = inr (omega arith)
from_target-InBounds (some tp) = with_first-InBounds (get_an_oracle tp) (get_an_oracle-fits tp)

opened-InBounds :
    (alloc : Bool) (options_path : Text) (lines : Option (List Text)) (path : Text)
    → InBoundsOrBad (get_oracles alloc options_path lines path)
unfolding get_oracles
opened-InBounds alloc [] lines path = inr (omega arith)
opened-InBounds alloc (c ∷ options_path) none path = inr (omega arith)
opened-InBounds alloc (c ∷ options_path) (some lines) path =
    from_target-InBounds (choose_line alloc path lines 0 none)

of_chosen :
    (chosen : Chosen) (a b : Text)
    → InBoundsOrBad chosen
    → chosen ≡ oracles a b
    → InBounds a × InBounds b
of_chosen chosen a b (inl bad) e = absurd (cc)
of_chosen chosen a b (inr h) e = rw e at h

-- Whatever the options file holds, and whether or not there is one: if the call ends with two oracles, and
-- not with a copy from freed memory or NULL, each has 8 to 255 bytes, which the arrays of struct oracles hold
-- with their NUL.
pub get_oracles-InBounds :
    (alloc : Bool) (options_path : Text) (lines : Option (List Text)) (path a b : Text)
    → get_oracles alloc options_path lines path ≡ oracles a b
    → InBounds a × InBounds b
get_oracles-InBounds alloc options_path lines path a b e =
    of_chosen (get_oracles alloc options_path lines path) a b
      (opened-InBounds alloc options_path lines path) e
