-- ===== src/Buddy/Bits.antt =====
-- The test of `order` for a power of two.
use cs_161_s21_problem_sets.Prelude.{
  ℕ, zero, suc, ◌+◌, ◌*◌, ◌/◌, ◌%◌, ◌^◌, ◌≤◌, ◌<◌, ◌≡◌, refl, ◌∙◌, ◌⊎◌, inl, inr, arith, ◌==◌,
  Bool-cases, pow_two_suc,
}
use cs_161_s21_problem_sets.Buddy.Order.{and_bits}

-- `y & (y + 1)` is zero for the numbers below a power of two, and for no others.
Parity : ℕ → Type 0
Parity a = (a % 2 ≡ 0) ⊎ (a % 2 ≡ 1)

parity : (a : ℕ) → Parity a
unfolding Parity
parity a = elim (Bool-cases (a % 2 == 0)) [
  | inl even ↦ inl (ground arith)
  | inr odd ↦ inr (ground arith)
]

and_same : (w a : ℕ) → a < 2 ^ w → and_bits w a a ≡ a
unfolding and_bits Parity
and_same zero a h = omega arith
and_same (suc w) a h = elim (parity a) [
  | inl even ↦ rw even (omega (arith, even, and_same w (a / 2) (omega (arith, pow_two_suc w))))
  | inr odd ↦ rw odd (omega (arith, odd, and_same w (a / 2) (omega (arith, pow_two_suc w))))
]

and_bits_zero : (w b : ℕ) → and_bits w 0 b ≡ 0
unfolding and_bits
and_bits_zero zero b = refl
and_bits_zero (suc w) b = omega (arith, and_bits_zero w (b / 2))

-- One digit of `y & (y + 1)`.
and_next-odd :
    (w y : ℕ) → y % 2 ≡ 1 → and_bits (suc w) y (y + 1) ≡ 2 * and_bits w (y / 2) (y / 2 + 1)
unfolding and_bits
and_next-odd w y odd =
    let e : (y + 1) / 2 ≡ y / 2 + 1 = omega arith in
    let z : (y + 1) % 2 ≡ 0 = omega arith in rw (odd, z, e) (omega arith)

and_next-even : (w y : ℕ) → y % 2 ≡ 0 → and_bits (suc w) y (y + 1) ≡ 2 * and_bits w (y / 2) (y / 2)
unfolding and_bits
and_next-even w y even = let e : (y + 1) / 2 ≡ y / 2 = omega arith in rw (even, e) (omega arith)

pub and_next-zero : (w k y : ℕ) → k ≤ w → y + 1 ≡ 2 ^ k → and_bits w y (y + 1) ≡ 0
and_next-zero w zero y le e = let z : y ≡ 0 = omega (arith, e) in rw z (and_bits_zero w 1)
and_next-zero zero (suc k) y le e = absurd (omega arith)
and_next-zero (suc w) (suc k) y le e =
    let (odd, half) = digits in
    and_next-odd w y odd ∙ omega (arith, and_next-zero w k (y / 2) (omega arith) half)
  where
    digits : (y % 2 ≡ 1) × (y / 2 + 1 ≡ 2 ^ k)
    digits = (omega (arith, e, pow_two_suc k), omega (arith, e, pow_two_suc k))

pub zero-and_next : (w y : ℕ) → y < 2 ^ w → and_bits w y (y + 1) ≡ 0 → (k : ℕ) × (y + 1 ≡ 2 ^ k)
unfolding Parity
zero-and_next zero y h z = (0, omega arith)
zero-and_next (suc w) y h z = elim (parity y) [
  | inl even ↦ (
    0,
    omega (arith, z, and_next-even w y even, and_same w (y / 2) (omega (arith, pow_two_suc w))),
  )
  | inr odd ↦
      let (k, e) =
        zero-and_next w (y / 2) (omega (arith, pow_two_suc w))
          (omega (arith, z, and_next-odd w y odd)) in
      (suc k, omega (arith, e, pow_two_suc k))
]
