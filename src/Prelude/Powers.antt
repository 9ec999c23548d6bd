-- ===== src/Prelude/Powers.antt =====
-- Powers of two and products of the native numbers, which the arithmetic tactics do not know.
use Prim.Native.Nat.{ℕ, zero, suc, ◌+◌, ◌-◌, ◌*◌, ◌^◌, ◌≤◌, ◌<◌}
use mathlib.Core.Path.{◌≡◌, ap, ◌∙◌}
use native.Mathlib.Omega.{arith}

pub pow_two_suc : (n : ℕ) → 2 ^ suc n ≡ 2 * 2 ^ n
pow_two_suc n = grind arith

pub pow_two_pos : (n : ℕ) → 0 < 2 ^ n
pow_two_pos zero = omega arith
pow_two_pos (suc n) = omega (arith, pow_two_pos n, pow_two_suc n)

pub times_below : (k a b : ℕ) → a ≤ b → a * k ≤ b * k
times_below zero a b h = grind arith
times_below (suc k) a b h = grind (arith, times_below k a b h)

pub times_suc : (k a : ℕ) → suc a * k ≡ a * k + k
times_suc k a = grind arith

pub pow_two_add : (a b : ℕ) → 2 ^ (a + b) ≡ 2 ^ b * 2 ^ a
pow_two_add a zero = let e : a + 0 ≡ a = omega arith in rw e (grind arith)
pow_two_add a (suc b) =
    let e : a + suc b ≡ suc (a + b) = omega arith in
    rw (e, pow_two_suc (a + b), pow_two_suc b, pow_two_add a b) (grind arith)

pub pow_two_le : (a b : ℕ) → a ≤ b → 2 ^ a ≤ 2 ^ b
pow_two_le a b h =
    let e : 2 ^ b ≡ 2 ^ (b - a) * 2 ^ a =
      ap (λ k. 2 ^ k) (let split : b ≡ a + (b - a) = omega arith in split)
      ∙ pow_two_add a (b - a) in
    omega (arith, e, times_below (2 ^ a) 1 (2 ^ (b - a)) (pow_two_pos (b - a)))
