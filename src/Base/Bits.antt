-- ===== src/Base/Bits.antt =====
-- The test `!(n & (n - 1))` and doubling.
use Prim.Native.Nat.{ℕ, zero, suc, ◌+◌, ◌-◌, ◌*◌, ◌/◌, ◌%◌, ◌≤◌, ◌<◌, min, bit_and, digits}
use Prim.Native.Nat.{bit_and-bitwise}
use mathlib.Core.Path.{◌≡◌, refl, ◌∙◌}
use native.Mathlib.Omega.{arith}

-- The digit recursion behind `&` gives the same result on any fuel that covers its first argument.
enough_fuel :
    (k l a b : ℕ) → a ≤ k → a ≤ l → digits (λ _. zero) min k a b ≡ digits (λ _. zero) min l a b
enough_fuel zero zero a b h h' = refl
enough_fuel zero (suc l) zero b h h' = refl
enough_fuel zero (suc l) (suc a) b h h' = absurd (omega arith)
enough_fuel (suc k) zero zero b h h' = refl
enough_fuel (suc k) zero (suc a) b h h' = absurd (omega arith)
enough_fuel (suc k) (suc l) zero b h h' = refl
enough_fuel (suc k) (suc l) (suc a) b h h' =
    let a' : ℕ = suc a / 2 in omega (arith, enough_fuel k l a' (b / 2) (omega arith) (omega arith))

and-halves : (a b : ℕ) → 0 < a → bit_and a b ≡ bit_and (a / 2) (b / 2) * 2 + min (a % 2) (b % 2)
and-halves zero b h = absurd (omega arith)
and-halves (suc a) b h =
    let a' : ℕ = suc a / 2 in
    omega (
      arith,
      bit_and-bitwise (suc a) b,
      bit_and-bitwise a' (b / 2),
      enough_fuel a a' a' (b / 2) (omega arith) (omega arith),
    )

-- Doubling keeps `n & (n - 1)` at zero.
pub and-pred_double : (n : ℕ) → 0 < n → bit_and n (n - 1) ≡ 0 → bit_and (n * 2) (n * 2 - 1) ≡ 0
and-pred_double n h e =
    let half_n : n * 2 / 2 ≡ n = omega arith in
    let half_pred : (n * 2 - 1) / 2 ≡ n - 1 = omega arith in
    and-halves (n * 2) (n * 2 - 1) (omega arith) ∙ rw (half_n, half_pred, e) (omega arith)
