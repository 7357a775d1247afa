-- ===== src/Sql/Keeps.antt =====
-- Transactions: what a rollback goes back to stays the same until a commit succeeds.
use b_project.Base.{
  ℕ, zero, suc, ◌≡◌, refl, ◌∙◌, Bool, true, false, Option, none, some, List, [], ◌∷◌,
}
use b_project.Sql.{
  Conn, M, pure, and_then, ◌>>=◌, exec, answer, after_reply, call, calls, fail_check, txn_commit,
  ◌>>◌,
}

-- A run that leaves the transaction's starting point alone.
abbrev pub Keeps : {A : Type 0} → M A → Type 0
Keeps m = (c : Conn) → (m c).1.saved ≡ c.saved

module _ {A B : Type 0} where
  and_then-saved :
      (r : Option A × Conn) (f : A → M B)
      → ((a : A) → Keeps (f a))
      → (and_then r f).1.saved ≡ r.1.saved
  and_then-saved (none, c) f k = refl
  and_then-saved (some a, c) f k = k a c

  pub >>=-Keeps : (m : M A) (f : A → M B) → Keeps m → ((a : A) → Keeps (f a)) → Keeps (m >>= f)
  unfolding ◌>>=◌
  >>=-Keeps m f k l c = and_then-saved (m c) f l ∙ k c

after_reply-saved :
    (f : Conn → Conn) (r : Bool × Conn)
    → ((c : Conn) → (f c).saved ≡ c.saved)
    → (after_reply f r).1.saved ≡ r.1.saved
after_reply-saved f (true, c) k = k c
after_reply-saved f (false, c) k = refl

answer-saved : (replies : List Bool) (c : Conn) → (answer replies c).1.saved ≡ c.saved
answer-saved [] c = refl
answer-saved (r ∷ rs) c = refl

pub exec-Keeps : (f : Conn → Conn) → ((c : Conn) → (f c).saved ≡ c.saved) → Keeps (exec f)
unfolding exec
exec-Keeps f k c = after_reply-saved f (answer c.replies c) k ∙ answer-saved c.replies c

pub call-Keeps : Keeps call
call-Keeps = exec-Keeps (λ c. c) (λ c. refl)

pub calls-Keeps : (n : ℕ) → Keeps (calls n)
unfolding calls pure
calls-Keeps zero = λ c. refl
calls-Keeps (suc n) = >>=-Keeps call (λ _. calls n) call-Keeps (λ _. calls-Keeps n)

pub pure-Keeps : {A : Type 0} (a : A) → Keeps (pure a)
unfolding pure
pure-Keeps a c = refl

pub fail_check-Keeps : (b : Bool) → Keeps (fail_check b)
unfolding fail_check
fail_check-Keeps true c = refl
fail_check-Keeps false c = refl

-- A run that, when it fails, leaves the starting point alone.
abbrev pub FailKeeps : {A : Type 0} → M A → Type 0
FailKeeps m = (c : Conn) → (m c).0 ≡ none → (m c).1.saved ≡ c.saved

module _ {A B : Type 0} where
  and_then-FailKeeps :
      (r : Option A × Conn) (f : A → M B)
      → ((a : A) → FailKeeps (f a))
      → (and_then r f).0 ≡ none
      → (and_then r f).1.saved ≡ r.1.saved
  and_then-FailKeeps (none, c) f k h = refl
  and_then-FailKeeps (some a, c) f k h = k a c h

  pub >>=-FailKeeps :
      (m : M A) (f : A → M B) → Keeps m → ((a : A) → FailKeeps (f a)) → FailKeeps (m >>= f)
  unfolding ◌>>=◌
  >>=-FailKeeps m f k l c h = and_then-FailKeeps (m c) f l h ∙ k c

committed-FailKeeps :
    {A : Type 0} (ou : A) (r : Bool × Conn)
    → (and_then (after_reply (λ d. record d { saved = none }) r) (λ _. pure ou)).0 ≡ none
    → (and_then (after_reply (λ d. record d { saved = none }) r) (λ _. pure ou)).1.saved ≡ r.1.saved
unfolding pure
committed-FailKeeps ou (true, c) h = cc
committed-FailKeeps ou (false, c) h = refl

pub commit-FailKeeps : {A : Type 0} (ou : A) → FailKeeps (txn_commit >> pure ou)
unfolding exec ◌>>=◌ pure
commit-FailKeeps ou c h = committed-FailKeeps ou (answer c.replies c) h ∙ answer-saved c.replies c
