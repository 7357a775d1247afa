-- ===== src/Bo/Places.antt =====
-- Where the marks of a text stand, and the entries of the tokens behind it.
use b_project.Base.{
  ℕ, zero, suc, ◌+◌, ◌≤◌, ◌<◌, ◌≡◌, refl, ap, ◌∙◌, Bool, true, false, not, Option, none, some, List,
  [], ◌∷◌, ◌++◌, All, length, get_elem?, set, ◌==◌, if◌then◌else◌, Bool-cases, inl, inr, arith,
  append-nil,
}
use b_project.Base.Text.{Text}
use b_project.Bo.{Slot, one_more, index_of, token_of, State}
use b_project.Bo.Regions.{Small, slot_with}

abbrev is_copied : ℕ → Option ℕ → Bool
is_copied b none = not (b == 13)
is_copied b (some w) = false

-- The text without its marks and without carriage returns.
abbrev pub unmarked_text : Text → Text
unmarked_text [] = []
unmarked_text (b ∷ text) =
    if is_copied b (token_of b) then b ∷ unmarked_text text else unmarked_text text

abbrev is_mark : ℕ → Option ℕ → Bool
is_mark w none = false
is_mark w (some v) = v == w

abbrev position : Bool → ℕ → ℕ
position copied c = if copied then suc c else c

-- The places of the marks of token w in the unmarked text, when c bytes stand before it.
abbrev pub offsets : ℕ → ℕ → Text → List ℕ
offsets w c [] = []
offsets w c (b ∷ text) =
    let rest = offsets w (position (is_copied b (token_of b)) c) text in
    if is_mark w (token_of b) then c ∷ rest else rest

-- The entries of the tokens from w on, whose lines were these, behind a text.
abbrev pub slots_after : Text → Text → ℕ → List (Option Text) → List Slot
slots_after fp text w [] = []
slots_after fp text w (line ∷ lines) =
    slot_with fp w line (offsets w 0 text) ∷ slots_after fp text (suc w) lines

abbrev pub state_after : Text → List (Option Text) → Text → State
state_after fp lines text = record {
  slots = slots_after fp text 0 lines;
  output = unmarked_text text;
  c = length (unmarked_text text);
}

abbrev if_copied : ℕ → Text
if_copied b = if is_copied b (token_of b) then b ∷ [] else []

abbrev if_mark : ℕ → ℕ → ℕ → List ℕ
if_mark w c b = if is_mark w (token_of b) then c ∷ [] else []

pub unmarked_text-snoc :
    (text : Text) (b : ℕ) → unmarked_text (text ++ b ∷ []) ≡ unmarked_text text ++ if_copied b
unmarked_text-snoc [] b = refl
unmarked_text-snoc (x ∷ text) b = elim (Bool-cases (is_copied x (token_of x))) [
  | inl e ↦ rw (e, unmarked_text-snoc text b)
  | inr e ↦ rw (e, unmarked_text-snoc text b)
]

length-if :
    (copied : Bool) (x c : ℕ) (text : Text)
    → c + length (if copied then x ∷ text else text) ≡ position copied c + length text
length-if true x c text = omega arith
length-if false x c text = refl

if-append :
    (m : Bool) (c : ℕ) (xs ys : List ℕ)
    → (if m then c ∷ (xs ++ ys) else xs ++ ys) ≡ (if m then c ∷ xs else xs) ++ ys
if-append true c xs ys = refl
if-append false c xs ys = refl

offsets-snoc :
    (w c : ℕ) (text : Text) (b : ℕ)
    → offsets w c (text ++ b ∷ [])
      ≡ offsets w c text ++ if_mark w (c + length (unmarked_text text)) b
offsets-snoc w c [] b = ap (λ n. if_mark w n b) (omega arith)
offsets-snoc w c (x ∷ text) b =
    let copied = is_copied x (token_of x) in
    let at = length-if copied x c (unmarked_text text) in
    let rest = offsets w (position copied c) text in
    let marked = if_mark w (position copied c + length (unmarked_text text)) b in
    rw (at, offsets-snoc w (position copied c) text b)
      (if-append (is_mark w (token_of x)) c rest marked)

-- A byte that is no mark of these tokens leaves their entries.
slot_after-other :
    (fp : Text) (line : Option Text) (w b : ℕ) (text : Text)
    → is_mark w (token_of b) ≡ false
    → slot_with fp w line (offsets w 0 (text ++ b ∷ [])) ≡ slot_with fp w line (offsets w 0 text)
slot_after-other fp line w b text e =
    ap (slot_with fp w line) (offsets-snoc w 0 text b ∙ rw e (append-nil (offsets w 0 text)))

pub slots_after-others :
    (fp : Text) (lines : List (Option Text)) (w b : ℕ) (text : Text)
    → ((v : ℕ) → w ≤ v → is_mark v (token_of b) ≡ false)
    → slots_after fp (text ++ b ∷ []) w lines ≡ slots_after fp text w lines
slots_after-others fp [] w b text h = refl
slots_after-others fp (line ∷ lines) w b text h =
    let same = slot_after-other fp line w b text (h w (omega arith)) in
    rw (same, slots_after-others fp lines (suc w) b text (λ v l. h v (omega arith)))

-- A mark of one of these tokens changes the entries of that token.
pub slots_after-set :
    (fp : Text) (lines : List (Option Text)) (line : Option Text) (w i v b : ℕ) (text : Text)
    → v ≡ w + i
    → token_of b ≡ some v
    → get_elem? lines i ≡ some line
    → set
        (slots_after fp text w lines)
        i
        (slot_with fp v line (offsets v 0 text ++ length (unmarked_text text) ∷ []))
      ≡ slots_after fp (text ++ b ∷ []) w lines
slots_after-set fp [] line w i v b text at e g = absurd (cc)
slots_after-set fp (l ∷ lines) line w zero v b text at e g =
    let here : v ≡ w = omega arith in
    let same : line ≡ l = cc in
    let marked : (v == v) ≡ true = ground arith in
    let later = slots_after-others fp lines (suc v) b text (λ u lt. rw e (ground arith)) in
    let whole : ◌≡◌ {A = ℕ} (0 + length (unmarked_text text)) (length (unmarked_text text)) =
      omega arith in
    rw (← here, same, later, offsets-snoc v 0 text b, e, marked, whole)
slots_after-set fp (l ∷ lines) line w (suc i) v b text at e g =
    let other = slot_after-other fp l w b text (rw e (ground arith)) in
    let rest = slots_after-set fp lines line (suc w) i v b text (omega arith) e g in
    rw (other, rest)

pub get_elem?-slots_after :
    (fp : Text) (lines : List (Option Text)) (line : Option Text) (w i v : ℕ) (text : Text)
    → v ≡ w + i
    → get_elem? lines i ≡ some line
    → get_elem? (slots_after fp text w lines) i ≡ some (slot_with fp v line (offsets v 0 text))
get_elem?-slots_after fp [] line w i v text at g = absurd (cc)
get_elem?-slots_after fp (l ∷ lines) line w zero v text at g =
    let here : v ≡ w = omega arith in let same : line ≡ l = cc in rw (here, same)
get_elem?-slots_after fp (l ∷ lines) line w (suc i) v text at g =
    get_elem?-slots_after fp lines line (suc w) i v text (omega arith) g

pub length-unmarked_text : (text : Text) → length (unmarked_text text) ≤ length text
length-unmarked_text [] = omega arith
length-unmarked_text (b ∷ text) = elim (Bool-cases (is_copied b (token_of b))) [
  | inl e ↦ rw e (omega (arith, length-unmarked_text text))
  | inr e ↦ rw e (omega (arith, length-unmarked_text text))
]

pub offsets-Small :
    (w c : ℕ) (text : Text) → Small (c + length (unmarked_text text)) → All Small (offsets w c text)
offsets-Small w c [] h = tt
offsets-Small w c (b ∷ text) h =
    let copied = is_copied b (token_of b) in
    let at = length-if copied b c (unmarked_text text) in
    let rest = offsets-Small w (position copied c) text (rw (← at) h) in
    elim (Bool-cases (is_mark w (token_of b))) [
      | inl e ↦ rw e (omega arith, rest)
      | inr e ↦ rw e rest
    ]

one_more-some : (o : Option ℕ) (w : ℕ) → one_more o ≡ some w → (i : ℕ) × (o ≡ some i) × (w ≡ suc i)
one_more-some none w h = absurd (cc)
one_more-some (some i) w h = (i, refl, ground arith)

pub index_of-bound :
    (ts : Text) (b w : ℕ) → (b == 0) ≡ false → index_of ts b ≡ some w → w < length ts
index_of-bound [] b w n e = absurd (cc (n, e))
index_of-bound (t ∷ ts) b w n e = elim (Bool-cases (b == t)) [
  | inl same ↦ let first : some 0 ≡ some w = rw same at e in ground arith
  | inr other ↦
      let (i, found, after) = one_more-some (index_of ts b) w (rw other at e) in
      omega (arith, index_of-bound ts b i n found)
]
