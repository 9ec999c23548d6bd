-- ===== src/Memory/Compare.antt =====
-- `memcmp` and `memchr`: the first byte that differs, the first that matches.
use cs_161_s21_problem_sets.Prelude.{
  ℕ, zero, suc, ◌+◌, ◌%◌, ◌<◌, ◌≡◌, ◌≢◌, refl, ◌∙◌, ap, ap₂, ◌⊎◌, inl, inr, Option, none, some,
  arith, ltb, ◌==◌, if◌then◌else◌, Bool-cases,
}
use cs_161_s21_problem_sets.Memory.Copy.{Mem}

-- The int that a comparison returns: -1, 0 or 1.
pub data Sign : Type 0 where
  less same more : Sign

-- `(a > b) - (a < b)`
abbrev pub sign : ℕ → ℕ → Sign
sign a b = if ltb b a then more else if ltb a b then less else same

unfoldable pub memcmp : ℕ → Mem → ℕ → ℕ → Sign
memcmp zero m a b = same
memcmp (suc n) m a b =
    let rest = memcmp n m (a + 1) (b + 1) in if m a == m b then rest else sign (m a) (m b)

-- The address found, none for a null pointer; the int is cut to an unsigned char.
unfoldable pub memchr : ℕ → Mem → ℕ → ℕ → Option ℕ
memchr zero m s c = none
memchr (suc n) m s c = let rest = memchr n m (s + 1) c in if m s == c % 256 then some s else rest

-- Where `memcmp` finds its answer: the ranges agree, or agree up to a byte whose order it is.
abbrev pub Ordered : Mem → ℕ → ℕ → ℕ → Sign → Type 0
Ordered m n a b r =
    ((r ≡ same) × ((k : ℕ) → k < n → m (a + k) ≡ m (b + k)))
    ⊎ ((i : ℕ) × (i < n)
        × (r ≢ same)
        × (r ≡ sign (m (a + i)) (m (b + i)))
        × ((k : ℕ) → k < i → m (a + k) ≡ m (b + k)))

agree-suc :
    (m : Mem) (n a b : ℕ)
    → m a ≡ m b
    → ((k : ℕ) → k < n → m (a + 1 + k) ≡ m (b + 1 + k))
    → (k : ℕ) → k < suc n
    → m (a + k) ≡ m (b + k)
agree-suc m n a b e h zero lt = ground arith
agree-suc m n a b e h (suc k) lt = ap m (omega arith) ∙ h k (omega arith) ∙ ap m (omega arith)

-- `memcmp` returns 0 where the two ranges are equal, and else the order of the first bytes that
-- differ.
pub memcmp-Ordered : (n : ℕ) (m : Mem) (a b : ℕ) → Ordered m n a b (memcmp n m a b)
unfolding memcmp
memcmp-Ordered zero m a b = inl (refl, λ k lt. absurd (omega arith))
memcmp-Ordered (suc n) m a b = elim (Bool-cases (m a == m b)) [
  | inr ne ↦ rw ne (inr (0, omega arith, ground arith, ground arith, λ k lt. absurd (omega arith)))
  | inl e ↦ rw e (elim (memcmp-Ordered n m (a + 1) (b + 1)) [
    | inl (r, h) ↦ inl (r, agree-suc m n a b (ground arith) h)
    | inr (i, lt, ne, r, h) ↦ inr (
      suc i,
      omega arith,
      ne,
      r ∙ ap₂ sign (ap m (omega arith)) (ap m (omega arith)),
      agree-suc m i a b (ground arith) h,
    )
  ])
]

-- No byte of the range is `v`.
abbrev pub Absent : Mem → ℕ → ℕ → ℕ → Type 0
Absent m s v n = (k : ℕ) → k < n → m (s + k) ≢ v

Absent-suc : (m : Mem) (s v n : ℕ) → m s ≢ v → Absent m (s + 1) v n → Absent m s v (suc n)
Absent-suc m s v n ne h zero lt e = ne (ap m (omega arith) ∙ e)
Absent-suc m s v n ne h (suc k) lt e = h k (omega arith) (ap m (omega arith) ∙ e)

-- `memchr` finds the first occurrence of the byte in the range, or there is none and it returns a
-- null pointer.
pub memchr_lem :
    (n : ℕ) (m : Mem) (s c : ℕ)
    → ((memchr n m s c ≡ none) × Absent m s (c % 256) n)
      ⊎ ((i : ℕ) × (i < n)
          × (memchr n m s c ≡ some (s + i))
          × (m (s + i) ≡ c % 256)
          × Absent m s (c % 256) i)
unfolding memchr
memchr_lem zero m s c = inl (refl, λ k lt. absurd (omega arith))
memchr_lem (suc n) m s c = elim (Bool-cases (m s == c % 256)) [
  | inl hit ↦
      let z : s + 0 ≡ s = omega arith in
      let here : m s ≡ c % 256 = ground arith in
      rw hit
        (inr (0, omega arith, ap some (omega arith), ap m z ∙ here, λ k lt. absurd (omega arith)))
  | inr miss ↦ rw miss (elim (memchr_lem n m (s + 1) c) [
    | inl (e, h) ↦ inl (e, Absent-suc m s (c % 256) n (ground arith) h)
    | inr (i, lt, e, at, h) ↦ inr (
      suc i,
      omega arith,
      e ∙ ap some (omega arith),
      ap m (omega arith) ∙ at,
      Absent-suc m s (c % 256) i (ground arith) h,
    )
  ])
]
