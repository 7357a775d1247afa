-- ===== src/Sql/Resize/Cases.antt =====
-- What one UPDATE of query_resize_file does to each of a file's rows. The edited interval was
-- [b, ob) and has ns bytes now.
use b_project.Base.{ℕ, ◌+◌, ◌≤◌, ◌<◌, ◌≡◌, ◌≢◌, true, false, arith}
use b_project.Sql.{OffsetRow}
use b_project.Sql.Resize.{update_row}

-- Rows other than the edited one move by the change.
abbrev Moved : ℕ → ℕ → ℕ → OffsetRow → OffsetRow → Type 0
Moved ns b ob r r' = (r'.base + ob ≡ r.base + ns + b) × (r'.bound + ob ≡ r.bound + ns + b)

-- The UPDATE on the rows that the edited interval [b, ob) does not cut: the edited row itself keeps its
-- base, gets the new size and loses its conflict mark; a non-empty row that ends at b or earlier is not
-- changed at all; a row that begins at ob or later is moved by the change of size, both ends alike.
update_row_cases :
    (oid ns b ob : ℕ) (r : OffsetRow)
    → b < ob
    → (r.offset_id ≡ oid
        → r.base ≡ b
        → r.bound ≡ ob
        → update_row oid ns b ob r ≡ record r { bound = b + ns; conflict = false })
      × (r.offset_id ≢ oid → r.base < r.bound → r.bound ≤ b → update_row oid ns b ob r ≡ r)
      × (r.offset_id ≢ oid
          → ob ≤ r.base
          → r.base ≤ r.bound
          → Moved ns b ob r (update_row oid ns b ob r))
unfolding update_row
update_row_cases oid ns b ob r h =
    (λ e x y. ground arith, λ e x y. ground arith, λ e x y. ground arith)

-- A row that begins strictly inside the edited interval and ends at its end or later keeps its base
-- while its bound moves: if the edit removes more than what lies between the row's ends, the stored
-- bound comes to lie before the stored base.
update_row_inverts :
    (oid ns b ob : ℕ) (r : OffsetRow)
    → r.offset_id ≢ oid
    → b < r.base
    → r.base < ob
    → ob ≤ r.bound
    → r.bound + ns + b < r.base + ob
    → (update_row oid ns b ob r).bound < (update_row oid ns b ob r).base
unfolding update_row
update_row_inverts oid ns b ob r e x y z w = ground arith

-- The Conflict column is computed from the columns that the same statement has just moved. A row that
-- lies wholly behind the edited interval is marked as being in conflict whenever the edit leaves some
-- bytes and brings the row's base in front of the interval's old end.
update_row_false_conflict :
    (oid ns b ob : ℕ) (r : OffsetRow)
    → r.offset_id ≢ oid
    → b < ob
    → ob ≤ r.base
    → r.base < r.bound
    → 0 < ns
    → r.base + ns + b < ob + ob
    → (update_row oid ns b ob r).conflict ≡ true
unfolding update_row
update_row_false_conflict oid ns b ob r e x y z w v = ground arith
