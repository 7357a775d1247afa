-- ===== src/Sql/Untouched.antt =====
-- Transactions: runs that leave the tables alone, and runs that do until they fail.
use b_project.Base.{
  ℕ, zero, suc, ◌≡◌, ap, ◌∙◌, Bool, true, false, Option, none, some, List, [], ◌∷◌,
}
use b_project.Sql.{
  Db, Conn, M, pure, and_then, ◌>>=◌, ◌>>◌, exec, answer, after_reply, call, calls, fail_check,
  txn_start, txn_rollback,
}
use b_project.Sql.Keeps.{Keeps, FailKeeps}

-- The tables are d, and a rollback leaves them so.
abbrev pub At : Db → Conn → Type 0
At d c = (c.db ≡ d) × ((txn_rollback c).db ≡ d)

abbrev pub Stays : {A : Type 0} → M A → Type 0
Stays m = (d : Db) (c : Conn) → At d c → At d (m c).1

module _ {A B : Type 0} where
  and_then-At :
      (d : Db) (r : Option A × Conn) (f : A → M B)
      → ((a : A) → Stays (f a))
      → At d r.1
      → At d (and_then r f).1
  and_then-At d (none, c) f k h = h
  and_then-At d (some a, c) f k h = k a d c h

  pub >>=-Stays : (m : M A) (f : A → M B) → Stays m → ((a : A) → Stays (f a)) → Stays (m >>= f)
  unfolding ◌>>=◌
  >>=-Stays m f k l d c h = and_then-At d (m c) f l (k d c h)

answer-At : (replies : List Bool) (d : Db) (c : Conn) → At d c → At d (answer replies c).1
answer-At [] d c h = h
answer-At (r ∷ rs) d c h = h

after_reply-At :
    (f : Conn → Conn) (d : Db) (r : Bool × Conn)
    → ((c : Conn) → At d c → At d (f c))
    → At d r.1
    → At d (after_reply f r).1
after_reply-At f d (true, c) k h = k c h
after_reply-At f d (false, c) k h = h

pub exec-Stays : (f : Conn → Conn) → ((d : Db) (c : Conn) → At d c → At d (f c)) → Stays (exec f)
unfolding exec
exec-Stays f k d c h = after_reply-At f d (answer c.replies c) (k d) (answer-At c.replies d c h)

pub calls-Stays : (n : ℕ) → Stays (calls n)
unfolding calls pure
calls-Stays zero = λ d c h. h
calls-Stays (suc n) =
    >>=-Stays call (λ _. calls n) (exec-Stays (λ c. c) (λ d c h. h)) (λ _. calls-Stays n)

pub fail_check-Stays : (b : Bool) → Stays (fail_check b)
unfolding fail_check
fail_check-Stays true d c h = h
fail_check-Stays false d c h = h

-- A run that, when it fails, can be rolled back to the tables at its start.
abbrev pub Undone : {A : Type 0} → M A → Type 0
Undone m = (d : Db) (c : Conn) → At d c → (m c).0 ≡ none → (txn_rollback (m c).1).db ≡ d

module _ {A B : Type 0} where
  and_then-Undone :
      (d : Db) (r : Option A × Conn) (f : A → M B)
      → ((a : A) → Undone (f a))
      → At d r.1
      → (and_then r f).0 ≡ none
      → (txn_rollback (and_then r f).1).db ≡ d
  and_then-Undone d (none, c) f k h e = h.1
  and_then-Undone d (some a, c) f k h e = k a d c h e

  pub >>=-Undone : (m : M A) (f : A → M B) → Stays m → ((a : A) → Undone (f a)) → Undone (m >>= f)
  unfolding ◌>>=◌
  >>=-Undone m f k l d c h e = and_then-Undone d (m c) f l (k d c h) e

-- With the transaction of d open, a rollback goes back to d.
pub rollback-saved : (d : Db) (c : Conn) → c.saved ≡ some d → (txn_rollback c).db ≡ d
rollback-saved d c e = rw e

begin : Conn → Conn
begin c = record c { saved = some c.db }

started_reply :
    {A : Type 0} (m : M A) (d : Db) (r : Bool × Conn)
    → FailKeeps m
    → At d r.1
    → (and_then (after_reply begin r) (λ _. m)).0 ≡ none
    → (txn_rollback (and_then (after_reply begin r) (λ _. m)).1).db ≡ d
unfolding begin
started_reply m d (true, c) k h e = rollback-saved d (m (begin c)).1 (k (begin c) e ∙ ap some h.0)
started_reply m d (false, c) k h e = h.1

pub started-Undone : {A : Type 0} (m : M A) → FailKeeps m → Undone (txn_start >> m)
unfolding ◌>>=◌ exec begin
started-Undone m k d c h e = started_reply m d (answer c.replies c) k (answer-At c.replies d c h) e

-- A run that opens a transaction on d, or fails with nothing changed.
abbrev pub Opened : {A : Type 0} → Db → Option A × Conn → Type 0
Opened d (none, c) = (txn_rollback c).db ≡ d
Opened d (some a, c) = c.saved ≡ some d

abbrev pub Opens : {A : Type 0} → M A → Type 0
Opens m = (d : Db) (c : Conn) → At d c → Opened d (m c)

module _ {A B : Type 0} where
  and_then-Opened :
      (d : Db) (r : Option A × Conn) (f : A → M B)
      → ((a : A) → Opens (f a))
      → At d r.1
      → Opened d (and_then r f)
  and_then-Opened d (none, c) f k h = h.1
  and_then-Opened d (some a, c) f k h = k a d c h

  pub >>=-Opens : (m : M A) (f : A → M B) → Stays m → ((a : A) → Opens (f a)) → Opens (m >>= f)
  unfolding ◌>>=◌
  >>=-Opens m f k l d c h = and_then-Opened d (m c) f l (k d c h)

saved-Opened : {A : Type 0} (d : Db) (r : Option A × Conn) → r.1.saved ≡ some d → Opened d r
saved-Opened d (none, c) e = rollback-saved d c e
saved-Opened d (some a, c) e = e

begun-Opened :
    {A : Type 0} (m : M A) (d : Db) (r : Bool × Conn)
    → Keeps m
    → At d r.1
    → Opened d (and_then (after_reply begin r) (λ _. m))
unfolding begin
begun-Opened m d (true, c) k h = saved-Opened d (m (begin c)) (k (begin c) ∙ ap some h.0)
begun-Opened m d (false, c) k h = h.1

pub started-Opens : {A : Type 0} (m : M A) → Keeps m → Opens (txn_start >> m)
unfolding ◌>>=◌ exec begin
started-Opens m k d c h = begun-Opened m d (answer c.replies c) k (answer-At c.replies d c h)
