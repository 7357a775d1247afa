-- ===== src/Files/Copy.antt =====
-- Copying between files: what write and sendfile do when the target is written from its start on and
-- the source has the bytes asked for.
use b_project.Base.{
  ℕ, zero, suc, ◌+◌, ◌-◌, ◌≤◌, ◌<◌, min, ◌≡◌, refl, ap, sym, ◌∙◌, some, List, [], ◌∷◌, ◌++◌, lt→ltb,
  length, take, drop, replicate, length-append, length-take, length-drop, take-append-drop, arith,
}
use b_project.Files.{OpenFile, off_limit, write, sendfile}

-- The bytes from a on and in front of b.
unfoldable pub slice {ℓ} : {A : Type ℓ} → ℕ → ℕ → List A → List A
slice a b xs = take (b - a) (drop a xs)

-- A file of which `new` is written over the front of `old`.
abbrev pub over : List ℕ → List ℕ → OpenFile
over new old = record { bytes = new ++ drop (length new) old; at = length new }

module _ {ℓ} {A : Type ℓ} where
  pub append_assoc : (xs ys zs : List A) → xs ++ ys ++ zs ≡ xs ++ (ys ++ zs)
  append_assoc [] ys zs = refl
  append_assoc (x ∷ xs) ys zs = ap (◌∷◌ x) (append_assoc xs ys zs)

  pub append_nil : (xs : List A) → xs ++ [] ≡ xs
  append_nil [] = refl
  append_nil (x ∷ xs) = ap (◌∷◌ x) (append_nil xs)

  pub take-length_append : (xs ys zs : List A) → take (length xs) ((xs ++ ys) ++ zs) ≡ xs
  take-length_append [] ys zs = refl
  take-length_append (x ∷ xs) ys zs = ap (◌∷◌ x) (take-length_append xs ys zs)

  pub drop-append_add : (xs ys : List A) (n : ℕ) → drop (length xs + n) (xs ++ ys) ≡ drop n ys
  drop-append_add [] ys n = ap (λ k. drop k ys) (omega arith)
  drop-append_add (x ∷ xs) ys n =
      let e : suc (length xs) + n ≡ suc (length xs + n) = omega arith in
      rw e (drop-append_add xs ys n)

  pub drop_nil : (n : ℕ) → drop {A = A} n [] ≡ []
  drop_nil zero = refl
  drop_nil (suc n) = refl

  drop-drop : (n m : ℕ) (xs : List A) → drop n (drop m xs) ≡ drop (m + n) xs
  drop-drop n zero xs = ap (λ k. drop k xs) (omega arith)
  drop-drop zero (suc m) [] =
      let e : suc m ≡ suc m + 0 = omega arith in ap (λ k. drop {A = A} k []) e
  drop-drop (suc n) (suc m) [] =
      let e : suc (m + suc n) ≡ suc m + suc n = omega arith in ap (λ k. drop {A = A} k []) e
  drop-drop n (suc m) (x ∷ xs) =
      let e : suc m + n ≡ suc (m + n) = omega arith in rw e (drop-drop n m xs)

  pub length-slice : (a b : ℕ) (xs : List A) → b ≤ length xs → length (slice a b xs) ≡ b - a
  unfolding slice
  length-slice a b xs h =
      let e1 = length-take (b - a) (drop a xs) in let e2 = length-drop a xs in omega (arith, e1, e2)

  -- Two slices that meet, and a slice that meets the rest.
  pub slice-append-drop : (a b : ℕ) (xs : List A) → a ≤ b → slice a b xs ++ drop b xs ≡ drop a xs
  unfolding slice
  slice-append-drop a b xs h =
      let e : b ≡ a + (b - a) = omega arith in
      ap (λ k. slice a b xs ++ drop k xs) e
      ∙ ap (λ ys. slice a b xs ++ ys) (sym (drop-drop (b - a) a xs))
      ∙ take-append-drop (b - a) (drop a xs)

-- A write behind what has been written so far.
pub write-over : (new out old : List ℕ) → write new (over out old) ≡ over (out ++ new) old
unfolding write
write-over new out old =
    let pad = replicate (length out - length (out ++ drop (length out) old)) 0 in
    let front = take-length_append out (drop (length out) old) pad in
    let back =
      drop-append_add out (drop (length out) old) (length new)
      ∙ drop-drop (length new) (length out) old in
    let e = length-append out new in rw (front, back, e, append_assoc out new)

abbrev pub file : List ℕ → ℕ → OpenFile
file bytes at = record { bytes = bytes; at = at }

-- A call of sendfile that moves all of n bytes.
pub sendfile-over :
    (most : ℕ) (out old src : List ℕ) (at n : ℕ)
    → n ≤ most
    → n < off_limit
    → at + n ≤ length src
    → sendfile most (over out old) (file src at) n ≡ record {
      moved = some n;
      target = over (out ++ take n (drop at src)) old;
      source = file src (at + n);
    }
unfolding sendfile
sendfile-over most out old src at n small fits inside =
    let m : min n most ≡ n = omega arith in
    let l1 = length-take n (drop at src) in
    let l2 = length-drop at src in
    let l : length (take n (drop at src)) ≡ n = omega (arith, l1, l2) in
    rw (m, lt→ltb n off_limit fits, l, write-over (take n (drop at src)) out old)
