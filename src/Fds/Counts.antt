-- ===== src/Fds/Counts.antt =====
-- How many descriptors refer to a vnode.
use cs_161_s21_problem_sets.Prelude.{
  ℕ, zero, suc, ◌+◌, ◌≤◌, ◌<◌, ◌≡◌, refl, ap, ◌∙◌, inl, inr, true, false, Option, none, some, arith,
  ◌==◌, if◌then◌else◌, Bool-cases,
}
use cs_161_s21_problem_sets.Fds.State.{put}

-- 1 if the entry is the vnode.
abbrev pub is : Option ℕ → ℕ → ℕ
is none v = 0
is (some u) v = if u == v then 1 else 0

unfoldable pub uses : ℕ → (ℕ → Option ℕ) → ℕ → ℕ
uses zero fds v = 0
uses (suc k) fds v = is (fds k) v + uses k fds v

uses-put_above :
    (k fd : ℕ) (o : Option ℕ) (fds : ℕ → Option ℕ) (v : ℕ)
    → k ≤ fd
    → uses k (put fd o fds) v ≡ uses k fds v
unfolding uses
uses-put_above zero fd o fds v h = refl
uses-put_above (suc k) fd o fds v h =
    let off : (k == fd) ≡ false = ground arith in
    rw off (ap (λ n. is (fds k) v + n) (uses-put_above k fd o fds v (omega arith)))

pub uses-put :
    (k fd : ℕ) (o : Option ℕ) (fds : ℕ → Option ℕ) (v : ℕ)
    → fd < k
    → uses k (put fd o fds) v + is (fds fd) v ≡ uses k fds v + is o v
unfolding uses
uses-put zero fd o fds v h = absurd (omega arith)
uses-put (suc k) fd o fds v h = elim (Bool-cases (k == fd)) [
  | inl last ↦
      let e : k ≡ fd = ground arith in
      let same = uses-put_above k fd o fds v (omega (arith, e)) in
      rw last (omega (arith, same, ap (λ n. is (fds n) v) e))
  | inr more ↦ rw more (omega (arith, uses-put k fd o fds v (ground arith)))
]

pub uses-pos : (k fd : ℕ) (fds : ℕ → Option ℕ) (v : ℕ) → fd < k → is (fds fd) v ≤ uses k fds v
unfolding uses
uses-pos zero fd fds v h = absurd (omega arith)
uses-pos (suc k) fd fds v h = elim (Bool-cases (k == fd)) [
  | inl last ↦ let e : k ≡ fd = ground arith in omega (arith, ap (λ n. is (fds n) v) e)
  | inr more ↦ omega (arith, uses-pos k fd fds v (ground arith))
]

pub is-own : (o : Option ℕ) (v : ℕ) → o ≡ some v → is o v ≡ 1
is-own o v e = ap (λ p. is p v) e ∙ (let t : (v == v) ≡ true = ground arith in rw t refl)
