-- ===== src/Options/Lines.antt =====
-- get_oracles: which line is taken.
use b_project.Base.{
  ℕ, zero, suc, ◌≡◌, refl, ◌∙◌, Bool, true, false, not, ◌||◌, Option, none, some, List, [], ◌∷◌,
  ◌++◌, All, ltb, if◌then◌else◌, Bool-cases, inl, inr, arith,
}
use b_project.Base.Text.{Text, str_eq}
use b_project.Options.{fname, token, target_rest, is_ext_name, new_level, skipped, choose_line}

-- The name of a line fits the file: its extension, its name or its path.
abbrev pub names_file : Text → Text → Bool
names_file path str = is_ext_name path str || str_eq str (fname path) || str_eq str path

abbrev pub about_others : Text → Text → Bool
about_others path line = skipped line || not (names_file path (token line))

new_level-others :
    (path str : Text) (level : ℕ) → names_file path str ≡ false → new_level path str level ≡ level
unfolding new_level
new_level-others path str zero h = ground arith
new_level-others path str (suc zero) h = ground arith
new_level-others path str (suc (suc zero)) h = ground arith
new_level-others path str (suc (suc (suc level))) h = refl

new_level-named :
    (path str : Text) → names_file path str ≡ true → ltb 0 (new_level path str 0) ≡ true
unfolding new_level
new_level-named path str h = ground arith

choose_line-others :
    (path : Text) (line : Text) (rest : List Text) (level : ℕ) (target : Option Text)
    → about_others path line ≡ true
    → choose_line true path (line ∷ rest) level target ≡ choose_line true path rest level target
unfolding choose_line
choose_line-others path line rest level target h = elim (Bool-cases (skipped line)) [
  | inl passed ↦ rw passed refl
  | inr read ↦
      let other : names_file path (token line) ≡ false = ground arith in
      let up : ltb level level ≡ false = ground arith in
      rw (read, new_level-others path (token line) level other, up) refl
]

pub choose_line-append :
    (path : Text) (before rest : List Text) (level : ℕ) (target : Option Text)
    → All (λ line. about_others path line ≡ true) before
    → choose_line true path (before ++ rest) level target ≡ choose_line true path rest level target
choose_line-append path [] rest level target h = refl
choose_line-append path (line ∷ before) rest level target (n, h) =
    choose_line-others path line (before ++ rest) level target n
    ∙ choose_line-append path before rest level target h

choose_line-after :
    (path : Text) (after : List Text) (level : ℕ) (target : Option Text)
    → All (λ line. about_others path line ≡ true) after
    → choose_line true path after level target ≡ target
unfolding choose_line
choose_line-after path [] level target h = refl
choose_line-after path (line ∷ after) level target (n, h) =
    choose_line-others path line after level target n ∙ choose_line-after path after level target h

either_way : (b : Bool) (t : Option Text) → (if b then t else t) ≡ t
either_way true t = refl
either_way false t = refl

pub choose_line-named :
    (path line : Text) (after : List Text)
    → skipped line ≡ false
    → names_file path (token line) ≡ true
    → All (λ line. about_others path line ≡ true) after
    → choose_line true path (line ∷ after) 0 none ≡ some (target_rest line)
unfolding choose_line
choose_line-named path line after read named h =
    let up = new_level-named path (token line) named in
    let rest =
      choose_line-after path after (new_level path (token line) 0) (some (target_rest line)) h in
    rw (read, up, rest)
      (either_way (ltb 2 (new_level path (token line) 0)) (some (target_rest line)))
