-- ===== src/Buddy/CeilLog.antt =====
-- `order` is the binary logarithm, rounded up.
use cs_161_s21_problem_sets.Prelude.{
  ℕ, suc, ◌+◌, ◌-◌, ◌*◌, ◌%◌, ◌^◌, ◌≤◌, ◌<◌, ◌≡◌, ◌≢◌, refl, sym, ap, ◌∙◌, inl, inr, false, arith,
  ltb, ◌==◌, if◌then◌else◌, Bool-cases, pow_two_suc, pow_two_pos, pow_two_le, subst,
}
use cs_161_s21_problem_sets.Buddy.Order.{order, shift_loop, shift_loop_bounds, and_bits}
use cs_161_s21_problem_sets.Buddy.Bits.{and_next-zero, zero-and_next}

-- A power of two between two neighbours is the lower one.
power-lowest : (j k : ℕ) → 2 ^ j ≤ 2 ^ k → 2 ^ k < 2 ^ suc j → 2 ^ k ≡ 2 ^ j
power-lowest j k low high = elim (Bool-cases (ltb j k)) [
  | inl above ↦
      absurd (omega (arith, high, pow_two_le (suc j) k (let lt : j < k = ground arith in lt)))
  | inr not_above ↦ elim (Bool-cases (ltb k j)) [
    | inl below ↦ absurd (
        omega (
          arith,
          low,
          pow_two_suc k,
          pow_two_pos k,
          pow_two_le (suc k) j (let lt : k < j = ground arith in lt),
        ))
    | inr same ↦ ap (λ n. 2 ^ n) (let e : k ≡ j = ground arith in e)
  ]
]

abbrev pub CeilLog : ℕ → ℕ → Type 0
CeilLog sz k = (sz ≤ 2 ^ k) × (2 ^ k < 2 * sz)

exponent_below : (a k : ℕ) → 2 ^ k ≤ 2 ^ a → k ≤ a
exponent_below a k h = elim (Bool-cases (ltb a k)) [
  | inl above ↦ absurd (
      omega (
        arith,
        pow_two_suc a,
        pow_two_pos a,
        pow_two_le (suc a) k (let lt : a < k = ground arith in lt),
      ))
  | inr at_most ↦ ground arith
]

-- What the test on `y` decides.
rounded-CeilLog :
    (y k : ℕ)
    → y < 2 ^ 64
    → 2 ^ k ≤ y + 1
    → y + 1 < 2 ^ suc k
    → CeilLog (y + 1) (if and_bits 64 y (y + 1) == 0 then k else k + 1)
rounded-CeilLog y k fits low high = elim (Bool-cases (and_bits 64 y (y + 1) == 0)) [
  | inl exact ↦
      let (m, e) =
        zero-and_next 64 y fits (let z : and_bits 64 y (y + 1) ≡ 0 = ground arith in z) in
      let same = power-lowest k m (omega (arith, low, e)) (omega (arith, high, e)) in
      let this : CeilLog (y + 1) k = (omega (arith, e, same), omega (arith, e, same)) in
      rw exact this
  | inr between ↦
      let above : 2 ^ k ≢ y + 1 = λ e. absurd (
        let z = and_next-zero 64 k y (exponent_below 64 k (omega (arith, e))) (sym e) in
        ground arith) in
      let e : 2 ^ (k + 1) ≡ 2 * 2 ^ k = grind arith in
      let next : CeilLog (y + 1) (k + 1) =
        (omega (arith, e, high, pow_two_suc k), omega (arith, e, low, above)) in
      rw between next
]

order_next :
    (y k : ℕ)
    → y + 1 < 2 ^ 64
    → shift_loop 64 (y + 1) 0 ≡ k
    → order (y + 1) false ≡ (if and_bits 64 y (y + 1) == 0 then k else k + 1)
unfolding order
order_next y k fits e =
    let before : (y + 1 + 2 ^ 64 - 1) % 2 ^ 64 ≡ y = omega arith in
    let after : (y + 1) % 2 ^ 64 ≡ y + 1 = omega arith in rw (before, after, e) refl

-- `order` of a positive uint64_t is its binary logarithm, rounded up.
pub order_lem : (sz : ℕ) → 1 ≤ sz → sz < 2 ^ 64 → CeilLog sz (order sz false)
order_lem sz pos fits =
    let (k, e, low, high) = shift_loop_bounds 64 sz 0 pos (omega arith) in
    let next : sz - 1 + 1 ≡ sz = omega arith in
    let whole =
      rounded-CeilLog (sz - 1) k (omega arith) (omega (arith, low)) (omega (arith, high)) in
    let this =
      order_next (sz - 1) k (omega arith) (ap (λ n. shift_loop 64 n 0) next ∙ e ∙ omega arith) in
    subst (λ n. CeilLog n (order n false)) next
      (subst (λ n. CeilLog (sz - 1 + 1) n) (sym this) whole)
