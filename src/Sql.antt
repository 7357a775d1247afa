-- ===== src/Sql.antt =====
-- The database of sql.h and sql.c. The tables are those of the schema; the statements are the texts in
-- sql.c, run as MySQL documents them. The server may fail any call: `replies` says how the next calls
-- end, and a call beyond its end succeeds.
pub mod Answered
pub mod Keeps
pub mod Untouched
pub mod Resize
pub mod Intervals
pub mod Insert
pub mod Select
pub mod Stored
mod Tests
mod QueryTests
mod SelectTests
use b_project.Base.{
  ℕ, suc, ◌+◌, Bool, true, false, ◌&&◌, Option, none, some, List, [], ◌∷◌, ◌++◌, ◌==◌,
  if◌then◌else◌,
}
use b_project.Base.Text.{Text, str_eq}

pub record RangeRow : Type 0 where
  pub range_id : ℕ
  pub name : Text
  pub init : Bool

pub record FileRow : Type 0 where
  pub file_id : ℕ
  pub path : Text

pub record JunctionRow : Type 0 where
  pub range_id : ℕ
  pub file_id : ℕ

pub record OffsetRow : Type 0 where
  pub offset_id : ℕ
  pub base : ℕ
  pub bound : ℕ
  pub conflict : Bool
  pub file_id : ℕ
  pub range_id : ℕ

-- `next_id` is larger than every id that a table has given out.
pub record Db : Type 0 where
  pub ranges : List RangeRow
  pub files : List FileRow
  pub junctions : List JunctionRow
  pub offsets : List OffsetRow
  pub next_id : ℕ

-- A connection: the tables as it sees them, those at the start of the transaction that is open, the user
-- variables @oid, @ns, @b and @ob, and how the server's next calls end. With no transaction open
-- (`saved` is none) what a statement changes is committed at once.
pub record Conn : Type 0 where
  pub db : Db
  pub saved : Option Db
  pub oid : ℕ
  pub ns : ℕ
  pub b : ℕ
  pub ob : ℕ
  pub replies : List Bool

-- A run of calls; none is the jump to `fail`.
abbrev pub M : Type 0 → Type 0
M A = Conn → Option A × Conn

unfoldable pub pure : {A : Type 0} → A → M A
pure a c = (some a, c)

abbrev pub and_then : {A B : Type 0} → Option A × Conn → (A → M B) → Option B × Conn
and_then (none, c) f = (none, c)
and_then (some a, c) f = f a c

infixl 5 ◌>>=◌ ◌>>◌
unfoldable pub ◌>>=◌ : {A B : Type 0} → M A → (A → M B) → M B
◌>>=◌ m f c = and_then (m c) f

abbrev pub ◌>>◌ : {B : Type 0} → M (Unit {0}) → M B → M B
m >> k = m >>= λ _. k

unfoldable pub fail : {A : Type 0} → M A
fail c = (none, c)

-- fail_check
unfoldable pub fail_check : Bool → M (Unit {0})
fail_check b c = if b then (some tt, c) else (none, c)

-- The server's answer to the next call.
abbrev pub answer : List Bool → Conn → Bool × Conn
answer [] c = (true, c)
answer (r ∷ rs) c = (r, record c { replies = rs })

abbrev pub after_reply : (Conn → Conn) → Bool × Conn → Option (Unit {0}) × Conn
after_reply f (true, c) = (some tt, f c)
after_reply f (false, c) = (none, c)

-- fail_check(!mysql_...(...)): a call whose success has the effect f.
unfoldable pub exec : (Conn → Conn) → M (Unit {0})
exec f c = after_reply f (answer c.replies c)

-- A call with no effect on the tables: preparing, storing and fetching.
abbrev pub call : M (Unit {0})
call = exec (λ c. c)

unfoldable pub calls : ℕ → M (Unit {0})
calls ℕ.zero = pure tt
calls (suc n) = call >> calls n

-- START TRANSACTION, which commits what is open, COMMIT and ROLLBACK; a rollback's result is not looked
-- at, and with no transaction open it changes nothing.
abbrev pub txn_start : M (Unit {0})
txn_start = exec (λ c. record c { saved = some c.db })

abbrev pub txn_commit : M (Unit {0})
txn_commit = exec (λ c. record c { saved = none })

abbrev or_db : Db → Option Db → Db
or_db d none = d
or_db d (some saved) = saved

abbrev pub txn_rollback : Conn → Conn
txn_rollback c = record c { db = or_db c.db c.saved; saved = none }
