-- ===== src/Special/Random.antt =====
-- `rand`, `srand` and `rand(min, max)` (lib.cc), the bounds not being negative.
use cs_161_s21_problem_sets.Prelude.{
  ℕ, ◌+◌, ◌-◌, ◌*◌, ◌/◌, ◌%◌, ◌^◌, ◌≤◌, ◌≡◌, refl, Bool, true, Outcome, ok, assert, ◌>>◌, leb,
  if◌then◌else◌, arith, times_below,
}

pub record Rng : Type 0 where
  pub seed_set : Bool
  pub seed : ℕ

abbrev pub rand_max : ℕ
rand_max = 2 ^ 31 - 1

-- The two halves do not overlap, so that their disjunction is their sum.
abbrev pub srand : ℕ → Rng
srand s = record { seed_set = true; seed = s * 2 ^ 32 + s }

unfoldable pub next_seed : Rng → ℕ
next_seed g =
    let s = if g.seed_set then g.seed else (srand 819234718).seed in
    (s * 6364136223846793005 + 1) % 2 ^ 64

unfoldable pub rand : Rng → ℕ × Rng
rand g = (next_seed g / 2 ^ 32 % 2 ^ 31, record { seed_set = true; seed = next_seed g })

unfoldable pub rand_between : ℕ → ℕ → Rng → Outcome (ℕ × Rng)
unfolding rand
rand_between min max g = do
  assert (leb min max)
  assert (leb (max - min) rand_max)
  ok (min + ((rand g).0 * (max - min + 1)) % 2 ^ 64 / (rand_max + 1), (rand g).1)

rand_small : (g : Rng) → (rand g).0 ≤ rand_max
unfolding rand
rand_small g = omega arith

in_range :
    (r min max : ℕ)
    → r ≤ rand_max
    → min ≤ max
    → max - min ≤ rand_max
    → min + (r * (max - min + 1)) % 2 ^ 64 / (rand_max + 1) ≤ max
in_range r min max small le wide = omega (arith, times_below (max - min + 1) r rand_max small)

-- `rand(min, max)` with bounds that are not negative, in order and not too far apart, fails no
-- assertion and answers a number between them, both included.
pub rand_between_lem :
    (min max : ℕ) (g : Rng)
    → min ≤ max
    → max - min ≤ rand_max
    → (n : ℕ) × (g' : Rng) × (rand_between min max g ≡ ok (n, g')) × (min ≤ n) × (n ≤ max)
unfolding rand_between
rand_between_lem min max g le wide =
    let a : leb min max ≡ true = ground arith in
    let b : leb (max - min) rand_max ≡ true = ground arith in
    (
      min + ((rand g).0 * (max - min + 1)) % 2 ^ 64 / (rand_max + 1),
      (rand g).1,
      rw (a, b, rand_between) refl,
      omega arith,
      in_range (rand g).0 min max (rand_small g) le wide,
    )
