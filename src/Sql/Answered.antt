-- ===== src/Sql/Answered.antt =====
-- Calls that the server answers: with no bad reply left, every call succeeds.
use b_project.Base.{ℕ, zero, suc, ◌≡◌, refl, some, []}
use b_project.Sql.{Conn, pure, ◌>>=◌, exec, calls, call}

pub exec-ok : (f : Conn → Conn) (c : Conn) → c.replies ≡ [] → exec f c ≡ (some tt, f c)
unfolding exec
exec-ok f c e = rw e

pub calls-ok : (n : ℕ) (c : Conn) → c.replies ≡ [] → calls n c ≡ (some tt, c)
unfolding calls pure ◌>>=◌
calls-ok zero c e = refl
calls-ok (suc n) c e = rw (exec-ok (λ d. d) c e) (calls-ok n c e)

pub call-ok : (c : Conn) → c.replies ≡ [] → call c ≡ (some tt, c)
call-ok c e = exec-ok (λ d. d) c e
