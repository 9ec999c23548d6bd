-- ===== src/Memfile/Capacity.antt =====
-- `msb` and `round_up_pow2` (lib.hh), by which a file's capacity grows.
use cs_161_s21_problem_sets.Prelude.{
  ℕ, zero, suc, ◌-◌, ◌*◌, ◌/◌, ◌^◌, ◌≤◌, ◌<◌, ◌≡◌, refl, arith, false, max, pow_two_suc, ◌==◌,
  if◌then◌else◌, Bool-cases, inl, inr,
}

-- The number of bits of `x`, of at most `n`.
unfoldable pub msb : ℕ → ℕ → ℕ
msb zero x = 0
msb (suc n) x = let rest = msb n (x / 2) in if x == 0 then 0 else suc rest

unfoldable pub round_up_pow2 : ℕ → ℕ
unfolding msb
round_up_pow2 x = if x == 0 then 0 else 2 ^ msb 64 (x - 1)

msb_of_none : (n x : ℕ) → x ≡ 0 → msb (suc n) x ≡ 0
unfolding msb
msb_of_none n x e = rw e refl

msb_positive : (n x : ℕ) → 0 < x → msb (suc n) x ≡ suc (msb n (x / 2))
unfolding msb
msb_positive n x h = let e : (x == 0) ≡ false = ground arith in rw e refl

msb_empty : (x : ℕ) → msb 0 x ≡ 0
unfolding msb
msb_empty x = refl

msb_le : (n x : ℕ) → msb n x ≤ n
unfolding msb
msb_le zero x = omega arith
msb_le (suc n) x = ground (arith, msb_le n (x / 2))

round_up_pow2-msb : (x : ℕ) → 0 < x → round_up_pow2 x ≡ 2 ^ msb 64 (x - 1)
unfolding round_up_pow2
round_up_pow2-msb x h = let e : (x == 0) ≡ false = is_positive x h in rw e refl
  where
    is_positive : (x : ℕ) → 0 < x → (x == 0) ≡ false
    is_positive x h = ground arith

-- A number lies below the power of two of its bits, and not below half of it.
msb_bounds : (n x : ℕ) → x < 2 ^ n → (x < 2 ^ msb n x) × (2 ^ msb n x ≤ max 1 (2 * x))
msb_bounds zero x h = msb_none x h
  where
    msb_none : (x : ℕ) → x < 2 ^ 0 → (x < 2 ^ msb 0 x) × (2 ^ msb 0 x ≤ max 1 (2 * x))
    msb_none x h = let e : msb 0 x ≡ 0 = msb_empty x in rw e (h, omega arith)
msb_bounds (suc n) x h = elim (Bool-cases (x == 0)) [
  | inl z ↦ let e : x ≡ 0 = ground arith in rw (msb_of_none n x e) (omega (arith, e), omega arith)
  | inr nz ↦
      let pos : 0 < x = ground arith in
      let (a, b) = msb_bounds n (x / 2) (omega (arith, pow_two_suc n)) in
      rw (msb_positive n x pos) (
        omega (arith, a, pow_two_suc (msb n (x / 2))),
        omega (arith, b, pos, pow_two_suc (msb n (x / 2))),
      )
]

-- `round_up_pow2` of a positive ssize_t is a power of two, not below the number and below its
-- double.
pub round_up_pow2_lem :
    (x : ℕ)
    → 0 < x
    → x < 2 ^ 63
    → (k : ℕ) × (round_up_pow2 x ≡ 2 ^ k)
      × (k ≤ 64)
      × (x ≤ round_up_pow2 x)
      × (round_up_pow2 x < 2 * x)
round_up_pow2_lem x pos small =
    let (a, b) = msb_bounds 64 (x - 1) (omega arith) in
    (
      msb 64 (x - 1),
      round_up_pow2-msb x pos,
      msb_le 64 (x - 1),
      omega (arith, round_up_pow2-msb x pos, a),
      omega (arith, round_up_pow2-msb x pos, b),
    )
