-- ===== src/Buddy/Blocks.antt =====
-- Where the blocks of a root lie: at multiples of their size, counted from the root's first page.
use cs_161_s21_problem_sets.Prelude.{
  ℕ, suc, ◌+◌, ◌-◌, ◌*◌, ◌/◌, ◌%◌, ◌^◌, ◌≤◌, ◌<◌, ◌≡◌, ◌≢◌, refl, sym, ap, ◌∙◌, inl, inr, arith,
  ltb, Bool-cases, pow_two_suc, pow_two_pos, pow_two_add, times_below, times_suc,
}
use native.Mathlib.Nat.{mul-add-div_right, zero-div}
use cs_161_s21_problem_sets.Buddy.Lists.{InBlock}

-- Pages of one root agree about the root.
abbrev pub Rooted : (ℕ → ℕ) → (ℕ → ℕ) → Type 0
Rooted r_ord r_page =
    (p q : ℕ)
    → r_page p ≤ p
    → p < r_page p + 2 ^ (r_ord p - 12)
    → r_page p ≤ q
    → q < r_page p + 2 ^ (r_ord p - 12)
    → (r_page q ≡ r_page p) × (r_ord q ≡ r_ord p)

-- The block of order `n` at `b` is the `steps`-th of 2 ^ `depth` in its root.
pub record Placed (r_ord r_page : ℕ → ℕ) (n b : ℕ) : Type 0 where
  pub steps : ℕ
  pub depth : ℕ
  pub order : n + depth + 12 ≡ r_ord b
  pub small : r_ord b ≤ 21
  pub inside : steps < 2 ^ depth
  pub at : b ≡ r_page b + steps * 2 ^ n

module _ {r_ord r_page : ℕ → ℕ} {n b : ℕ} (w : Placed r_ord r_page n b) where
  Placed-end : b + 2 ^ n ≤ r_page b + 2 ^ (r_ord b - 12)
  Placed-end =
      let size : 2 ^ (r_ord b - 12) ≡ 2 ^ w.depth * 2 ^ n =
        ap (λ k. 2 ^ k) (let e : r_ord b - 12 ≡ n + w.depth = omega (arith, w.order) in e)
        ∙ pow_two_add n w.depth in
      omega (
        arith,
        size,
        w.at,
        times_suc (2 ^ n) w.steps,
        times_below (2 ^ n) (suc w.steps) (2 ^ w.depth) w.inside,
      )

  Placed-start : r_page b ≤ b
  Placed-start = omega (arith, w.at)

  Placed-in : b < r_page b + 2 ^ (r_ord b - 12)
  Placed-in = omega (arith, Placed-end, pow_two_pos n)

  pub page-root :
      (p : ℕ) → Rooted r_ord r_page → InBlock n b p → (r_page p ≡ r_page b) × (r_ord p ≡ r_ord b)
  page-root p rooted (lo, hi) =
      rooted b p Placed-start Placed-in (omega (arith, Placed-start)) (omega (arith, Placed-end))

  pub Placed-order : n ≤ 9
  Placed-order = omega (arith, w.order, w.small)

-- Two multiples of a size that are less than it apart are the same.
multiple_unique : (j k size : ℕ) → j * size < k * size + size → k * size < j * size + size → j ≡ k
multiple_unique j k size h i = elim (Bool-cases (ltb j k)) [
  | inl low ↦ absurd (
      omega
        (arith, times_suc size j, times_below size (suc j) k (let lt : j < k = ground arith in lt)))
  | inr not_low ↦ elim (Bool-cases (ltb k j)) [
    | inl high ↦ absurd (
        omega (
          arith,
          times_suc size k,
          times_below size (suc k) j (let lt : k < j = ground arith in lt),
        ))
    | inr not_high ↦ ground arith
  ]
]

-- Two blocks of one order that share a page are the same.
pub Placed-unique :
    {r_ord r_page : ℕ → ℕ} {n b c : ℕ} (p : ℕ)
    → Rooted r_ord r_page
    → Placed r_ord r_page n b
    → Placed r_ord r_page n c
    → InBlock n b p
    → InBlock n c p
    → b ≡ c
Placed-unique {r_ord} {r_page} {n} {b} {c} p rooted v w (lo, hi) (lo', hi') =
    let same : r_page b ≡ r_page c =
      sym (page-root v p rooted (lo, hi)).0 ∙ (page-root w p rooted (lo', hi')).0 in
    let e : v.steps ≡ w.steps =
      multiple_unique v.steps w.steps (2 ^ n) (omega (arith, v.at, w.at, same))
        (omega (arith, v.at, w.at, same)) in
    v.at
    ∙ let g : r_page b + v.steps * 2 ^ n ≡ r_page c + w.steps * 2 ^ n = rw (same, e) refl in
      g ∙ sym w.at

-- The halves of a block.
double-times : (k size : ℕ) → k * (2 * size) ≡ (2 * k) * size
double-times k size = grind arith

left-at : (r size k b : ℕ) (n : ℕ) → size ≡ 2 ^ n → b ≡ r + k * 2 ^ suc n → b ≡ r + (2 * k) * size
left-at r size k b n e h =
    h
    ∙ ap (λ x. r + x)
        (ap (λ x. k * x) (pow_two_suc n) ∙ double-times k (2 ^ n) ∙ ap (λ x. (2 * k) * x) (sym e))

pub Placed-left :
    {r_ord r_page : ℕ → ℕ} {n b : ℕ} → Placed r_ord r_page (suc n) b → Placed r_ord r_page n b
Placed-left {r_ord} {r_page} {n} {b} w = record {
  steps = 2 * w.steps;
  depth = suc w.depth;
  order = omega (arith, w.order);
  small = w.small;
  inside = omega (arith, pow_two_suc w.depth, w.inside);
  at = left-at (r_page b) (2 ^ n) w.steps b n refl w.at;
}

pub Placed-right :
    {r_ord r_page : ℕ → ℕ} {n b : ℕ}
    → Rooted r_ord r_page
    → Placed r_ord r_page (suc n) b
    → Placed r_ord r_page n (b + 2 ^ n)
Placed-right {r_ord} {r_page} {n} {b} rooted w =
    let (same_page, same_ord) =
      page-root w (b + 2 ^ n) rooted (omega arith, omega (arith, pow_two_suc n, pow_two_pos n)) in
    record {
      steps = suc (2 * w.steps);
      depth = suc w.depth;
      order = omega (arith, w.order, same_ord);
      small = omega (arith, w.small, same_ord);
      inside = omega (arith, pow_two_suc w.depth, w.inside);
      at = omega (
        arith,
        left-at (r_page b) (2 ^ n) w.steps b n refl w.at,
        same_page,
        times_suc (2 ^ n) (2 * w.steps),
      );
    }

-- A block below its root's order is a half of a block of the next order: the left one, or the right one.
half : (k size : ℕ) → k % 2 ≡ 0 → (k / 2) * (2 * size) ≡ k * size
half k size e = double-times (k / 2) size ∙ ap (λ x. x * size) (omega arith)

odd_half : (k size : ℕ) → k % 2 ≡ 1 → (k / 2) * (2 * size) + size ≡ k * size
odd_half k size e =
    ap (λ x. x + size) (double-times (k / 2) size)
    ∙ sym (times_suc size (2 * (k / 2)))
    ∙ ap (λ x. x * size) (omega arith)

module _ {r_ord r_page : ℕ → ℕ} {n b : ℕ} (w : Placed r_ord r_page n b)
    (below : n + 12 ≢ r_ord b) where
  next_depth : suc (w.depth - 1) ≡ w.depth
  next_depth = omega (arith, w.order, below)

  next_inside : w.steps < 2 * 2 ^ (w.depth - 1)
  next_inside = omega (arith, w.inside, pow_two_suc (w.depth - 1), ap (λ k. 2 ^ k) next_depth)

  pub join_left : w.steps % 2 ≡ 0 → Placed r_ord r_page (suc n) b
  join_left even = record {
    steps = w.steps / 2;
    depth = w.depth - 1;
    order = omega (arith, w.order, next_depth);
    small = w.small;
    inside = omega (arith, next_inside);
    at = omega (arith, w.at, ap (λ x. w.steps / 2 * x) (pow_two_suc n), half w.steps (2 ^ n) even);
  }

  pub left_room : w.steps % 2 ≡ 1 → r_page b + 2 ^ n ≤ b
  left_room odd = omega (arith, w.at, odd_half w.steps (2 ^ n) odd)

  pub join_right : Rooted r_ord r_page → w.steps % 2 ≡ 1 → Placed r_ord r_page (suc n) (b - 2 ^ n)
  join_right rooted odd =
      let (same_page, same_ord) =
        rooted b (b - 2 ^ n) (Placed-start w) (Placed-in w) (omega (arith, left_room odd))
          (omega (arith, Placed-in w)) in
      record {
        steps = w.steps / 2;
        depth = w.depth - 1;
        order = omega (arith, w.order, next_depth, same_ord);
        small = omega (arith, w.small, same_ord);
        inside = omega (arith, next_inside);
        at = omega (
          arith,
          w.at,
          same_page,
          ap (λ x. w.steps / 2 * x) (pow_two_suc n),
          odd_half w.steps (2 ^ n) odd,
        );
      }

div_of_times : (k m : ℕ) → 0 < m → k * m / m ≡ k
div_of_times k m h =
    let e : k * m + 0 ≡ k * m = omega arith in
    ap (λ x. x / m) (sym e) ∙ mul-add-div_right h k 0 ∙ ap (λ x. k + x) (zero-div m) ∙ omega arith

bytes_of_times : (k size : ℕ) → (k * size) * 4096 ≡ k * (4096 * size)
bytes_of_times k size = grind arith

-- The number that `buddy_to_the_left` finds in the distance from the root.
pub distance-steps :
    {r_ord r_page : ℕ → ℕ} {n b : ℕ} (w : Placed r_ord r_page n b) (ord : ℕ)
    → ord ≡ n + 12
    → (b * 4096 - r_page b * 4096) / 2 ^ ord ≡ w.steps
distance-steps {r_ord} {r_page} {n} {b} w ord e =
    let bytes : b * 4096 - r_page b * 4096 ≡ w.steps * (4096 * 2 ^ n) =
      omega (arith, w.at, bytes_of_times w.steps (2 ^ n)) in
    let size : 2 ^ ord ≡ 4096 * 2 ^ n = ap (λ k. 2 ^ k) e ∙ pow_two_add n 12 in
    rw (bytes, size) (div_of_times w.steps (4096 * 2 ^ n) (omega (arith, pow_two_pos n)))
