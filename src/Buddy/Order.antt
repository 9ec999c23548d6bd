-- ===== src/Buddy/Order.antt =====
-- The orders of k-alloc.cc: `largest_fitting_ord` and `order`, and what their loops count.
use cs_161_s21_problem_sets.Prelude.{
  ℕ, zero, suc, ◌+◌, ◌-◌, ◌*◌, ◌/◌, ◌%◌, ◌^◌, ◌≤◌, ◌<◌, ◌≡◌, inl, inr, Bool, false, arith, leb,
  ◌==◌, if◌then◌else◌, Bool-cases, pow_two_suc,
}

-- `largest_fitting_ord`; a call halves `num`, so that 64 calls are enough for a uint64_t.
unfoldable pub largest_fitting_ord : ℕ → ℕ → ℕ → ℕ
largest_fitting_ord zero num sz = 0
largest_fitting_ord (suc fuel) num sz =
    let rest = largest_fitting_ord fuel (num / 2) (sz + 1) in
    if num == 1 then sz - 1 else if num == 0 then 0 else rest

-- The loop `while (sz >>= 1) ord++`.
unfoldable pub shift_loop : ℕ → ℕ → ℕ → ℕ
shift_loop zero sz ord = ord
shift_loop (suc fuel) sz ord =
    let rest = shift_loop fuel (sz / 2) (ord + 1) in if sz / 2 == 0 then ord else rest

-- `&` on numbers of `w` bits.
unfoldable pub and_bits : ℕ → ℕ → ℕ → ℕ
and_bits zero a b = 0
and_bits (suc w) a b = (a % 2) * (b % 2) + 2 * and_bits w (a / 2) (b / 2)

-- `order`
unfoldable pub order : ℕ → Bool → ℕ
order sz set_min =
    let y = (sz + 2 ^ 64 - 1) % 2 ^ 64 in
    let ord = shift_loop 64 sz 0 in
    let exact = if and_bits 64 y ((y + 1) % 2 ^ 64) == 0 then ord else ord + 1 in
    if set_min then if leb 12 exact then exact else 12 else exact

-- Halving counts the digits.
pub largest_fitting_ord_bounds :
    (fuel num sz : ℕ)
    → 1 ≤ num
    → num < 2 ^ fuel
    → (k : ℕ) × (largest_fitting_ord fuel num (sz + 1) ≡ sz + k) × (2 ^ k ≤ num) × (num < 2 ^ suc k)
unfolding largest_fitting_ord
largest_fitting_ord_bounds zero num sz pos fits = absurd (omega arith)
largest_fitting_ord_bounds (suc fuel) num sz pos fits = elim (Bool-cases (num == 1)) [
  | inl one ↦
      let e : num ≡ 1 = ground arith in
      (0, rw one (omega arith), omega (arith, e), omega (arith, e))
  | inr more ↦
      let some_left : 2 ≤ num = ground arith in
      let nonzero : (num == 0) ≡ false = ground arith in
      let (k, e, low, high) =
        largest_fitting_ord_bounds fuel (num / 2) (sz + 1) (omega arith)
          (omega (arith, pow_two_suc fuel)) in
      (
        suc k,
        rw (more, nonzero) (omega (arith, e)),
        omega (arith, pow_two_suc k),
        omega (arith, pow_two_suc (suc k)),
      )
]

pub shift_loop_bounds :
    (fuel sz ord : ℕ)
    → 1 ≤ sz
    → sz < 2 ^ suc fuel
    → (k : ℕ) × (shift_loop fuel sz ord ≡ ord + k) × (2 ^ k ≤ sz) × (sz < 2 ^ suc k)
unfolding shift_loop
shift_loop_bounds zero sz ord pos fits = (0, omega arith, omega arith, omega arith)
shift_loop_bounds (suc fuel) sz ord pos fits = elim (Bool-cases (sz / 2 == 0)) [
  | inl last ↦
      let e : sz ≡ 1 = ground arith in
      (0, rw last (omega arith), omega (arith, e), omega (arith, e))
  | inr more ↦
      let some_left : 2 ≤ sz = ground arith in
      let (k, e, low, high) =
        shift_loop_bounds fuel (sz / 2) (ord + 1) (omega arith)
          (omega (arith, pow_two_suc (suc fuel))) in
      (
        suc k,
        rw more (omega (arith, e)),
        omega (arith, pow_two_suc k),
        omega (arith, pow_two_suc (suc k)),
      )
]
