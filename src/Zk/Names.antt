-- ===== src/Zk/Names.antt =====
-- The names of lock nodes: getLockName, getSequenceNumber and what the eligibility tests read.
use b_project.Base.{ℕ, ◌^◌, Option, none, some, [], ◌∷◌, ltb, if◌then◌else◌}
use b_project.Base.Text.{Text, codes, strrchr, read_digits, starts_with}

-- The part behind the last slash; NULL without a slash.
unfoldable pub get_lock_name : Text → Option Text
get_lock_name str = elim (strrchr str b'/') [
  | none ↦ none
  | some [] ↦ none
  | some (c ∷ name) ↦ some name
]

abbrev ulong_mod : ℕ
ulong_mod = 2 ^ 64

-- strtoul and its checks: what follows the digits must be the end, and the value must fit.
abbrev checked_number : ℕ × Text → ℕ
checked_number (n, []) = if ltb n ulong_mod then n else 0
checked_number (n, c ∷ s) = 0

unfoldable pub get_sequence_number : Text → ℕ
get_sequence_number lock_name = elim (strrchr lock_name b'-') [
  | none ↦ 0
  | some [] ↦ 0
  | some (c ∷ s) ↦ checked_number (read_digits 0 s)
]

-- strtol(strrchr(name, '-') + 1, ...): none where there is no dash, and the source reads through NULL.
unfoldable pub sequence_after_dash : Text → Option ℕ
sequence_after_dash name = elim (strrchr name b'-') [
  | none ↦ none
  | some [] ↦ none
  | some (c ∷ s) ↦ some (read_digits 0 s).0
]

-- The test for a write lock: the part behind the last slash begins with "write".
unfoldable pub write_part : Text → Option Text
write_part name = elim (strrchr name b'/') [
  | none ↦ none
  | some [] ↦ none
  | some (c ∷ s) ↦ if starts_with s (codes "write") then some (c ∷ s) else none
]
