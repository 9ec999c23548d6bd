-- ===== src/MemRange/Cover.antt =====
-- What a sorted array of ranges says of an address, and that the searches find it.
use cs_161_s21_problem_sets.Prelude.{
  ℕ, zero, suc, ◌+◌, ◌-◌, ◌≤◌, ◌<◌, ◌≡◌, refl, ap, ◌⊎◌, inl, inr, false, ◌&&◌, ok, arith, ltb, leb,
  ◌==◌, Bool-cases,
}
use cs_161_s21_problem_sets.MemRange.State.{
  Ranges, limit, find_from, find, type_of, lower_from, init,
}

-- The ranges lie one behind the other from address 0 on, and none is empty.
pub record IsSorted (r : Ranges) : Type 0 where
  pub nonempty : 0 < r.n
  pub from_zero : r.addr 0 ≡ 0
  pub grows : (k : ℕ) → k < r.n → r.addr k < r.addr (k + 1)

-- The address `a` lies in range `i`.
pub record In (r : Ranges) (a i : ℕ) : Type 0 where
  pub index : i < r.n
  pub above : r.addr i ≤ a
  pub below : a < r.addr (i + 1)

-- The address `a` has type `t`.
abbrev pub Covers : Ranges → ℕ → ℕ → Type 0
Covers r a t = (i : ℕ) × In r a i × (r.kind i ≡ t)

type_of-find : (r : Ranges) (a t i : ℕ) → find r a ≡ i → i < r.n → r.kind i ≡ t → type_of r a ≡ ok t
unfolding type_of
type_of-find r a t i f lt e = rw (f, type_of) (ground arith)

module _ {r : Ranges} (s : IsSorted r) where
  addr_mono_by : (d i : ℕ) → i + d ≤ r.n → r.addr i ≤ r.addr (i + d)
  addr_mono_by zero i h = let e : i + 0 ≡ i = omega arith in rw e (omega arith)
  addr_mono_by (suc d) i h =
      let e : i + suc d ≡ i + d + 1 = omega arith in
      rw e (omega (arith, addr_mono_by d i (omega arith), s.grows (i + d) (omega arith)))

  pub addr_mono : (i j : ℕ) → i ≤ j → j ≤ r.n → r.addr i ≤ r.addr j
  addr_mono i j h le =
      let e : i + (j - i) ≡ j = omega arith in rw e at (addr_mono_by (j - i) i (omega arith))

  pub addr_strict : (i j : ℕ) → i < j → j ≤ r.n → r.addr i < r.addr j
  addr_strict i j h le =
      omega (arith, addr_mono (i + 1) j (omega arith) le, s.grows i (omega arith))

  -- The order of addresses is that of their ranges.
  pub index_le : (a b i j : ℕ) → In r a i → In r b j → a ≤ b → i ≤ j
  index_le a b i j p q le = elim (Bool-cases (leb i j)) [
    | inl yes_le ↦ ground arith
    | inr no_le ↦
        let h : j + 1 ≤ i = ground arith in
        absurd (omega (arith, addr_mono (j + 1) i h (omega (arith, p.index)), p.above, q.below))
  ]

  find_from-In : (fuel a i k : ℕ) → In r a k → i ≤ k → k ≤ i + fuel → find_from fuel r a i ≡ k
  unfolding find_from
  find_from-In zero a i k p le room = omega arith
  find_from-In (suc fuel) a i k p le room = elim (Bool-cases (i == k)) [
    | inl e ↦ let e' : i ≡ k = ground arith in ground (arith, p.below, p.index, e')
    | inr ne ↦
        let lt : i + 1 ≤ k = ground arith in
        ground (
          arith,
          addr_mono (i + 1) k lt (omega (arith, p.index)),
          p.above,
          p.index,
          find_from-In fuel a (i + 1) k p lt (omega arith),
        )
  ]

  -- `type` of a covered address is its type: the search finds its range, and the assertion holds.
  pub type_of-Covers : (a t : ℕ) → Covers r a t → type_of r a ≡ ok t
  unfolding find
  type_of-Covers a t (i, p, e) =
      let f : find_from r.n r a 0 ≡ i =
        find_from-In r.n a 0 i p (omega arith) (omega (arith, p.index)) in
      type_of-find r a t i f p.index e

  -- The first loop of `set` stops at the range of its address.
  pub lower_from-In :
      (fuel a i : ℕ)
      → a < limit r
      → i < r.n
      → r.addr i ≤ a
      → r.n ≤ i + fuel
      → In r a (lower_from fuel r a i)
  unfolding lower_from
  lower_from-In zero a i lt h le room = absurd (omega arith)
  lower_from-In (suc fuel) a i lt h le room = elim (Bool-cases (leb (r.addr (i + 1)) a)) [
    | inl on ↦
        let le' : r.addr (i + 1) ≤ a = ground arith in
        let more : i + 1 < r.n = next_exists i a h lt le' in
        rw on (lower_from-In fuel a (i + 1) lt more le' (omega arith))
    | inr off ↦ rw off (record { index = h; above = le; below = ground arith })
  ]
    where
      next_exists : (i a : ℕ) → i < r.n → a < limit r → r.addr (i + 1) ≤ a → i + 1 < r.n
      next_exists i a h lt le' = elim (Bool-cases (i + 1 == r.n)) [
        | inl e ↦ let e' : i + 1 ≡ r.n = ground arith in absurd (omega (arith, ap r.addr e'))
        | inr ne ↦ ground arith
      ]

-- Where the second loop of `set` stops: before the first range that ends behind `a`, or at the end.
pub record Stops (r : Ranges) (a i j : ℕ) : Type 0 where
  pub from : i ≤ j
  pub upto : j ≤ r.n
  pub above : r.addr j ≤ a
  pub below : (j ≡ r.n) ⊎ (a < r.addr (j + 1))

pub find_from-Stops :
    (r : Ranges) (fuel a i : ℕ)
    → i ≤ r.n
    → r.addr i ≤ a
    → r.n ≤ i + fuel
    → Stops r a i (find_from fuel r a i)
unfolding find_from
find_from-Stops r zero a i h le room = record {
  from = omega arith;
  upto = h;
  above = le;
  below = inl (omega arith);
}
find_from-Stops r (suc fuel) a i h le room =
    elim (Bool-cases (ltb i r.n && leb (r.addr (i + 1)) a)) [
      | inl on ↦
          let w = find_from-Stops r fuel a (i + 1) (ground arith) (ground arith) (omega arith) in
          rw on (record {
            from = omega (arith, w.from);
            upto = w.upto;
            above = w.above;
            below = w.below;
          })
      | inr off ↦
          rw off (record { from = omega arith; upto = h; above = le; below = stopped r a i h off })
    ]
  where
    stopped :
        (r : Ranges) (a i : ℕ)
        → i ≤ r.n
        → (ltb i r.n && leb (r.addr (i + 1)) a) ≡ false
        → (i ≡ r.n) ⊎ (a < r.addr (i + 1))
    stopped r a i h off = elim (Bool-cases (i == r.n)) [
      | inl e ↦ inl (ground arith)
      | inr ne ↦ inr (ground arith)
    ]

-- The constructor makes one range of type 0 up to the limit.
pub init-Covers : (lim a : ℕ) → 0 < lim → a < lim → IsSorted (init lim) × Covers (init lim) a 0
unfolding init
init-Covers lim a h lt = (
  record { nonempty = omega arith; from_zero = refl; grows = λ k lt'. ground arith },
  (0, record { index = omega arith; above = omega arith; below = ground arith }, refl),
)
