-- ===== src/MemRange/Assign.antt =====
-- The end of `set`: the ranges from `i` up to `j` become one range of the new type.
use cs_161_s21_problem_sets.Prelude.{
  ℕ, ◌+◌, ◌-◌, ◌≤◌, ◌<◌, ◌≡◌, refl, ap, ◌∙◌, inl, inr, ok, arith, ltb, leb, ◌==◌, Bool-cases,
}
use cs_161_s21_problem_sets.MemRange.State.{Ranges, put, shift, Plan, assign}
use cs_161_s21_problem_sets.MemRange.Cover.{IsSorted, Covers, addr_mono}

-- The array `q` is `r` with the ranges from `i` up to `i + 1 + gap` made one of type `t`.
pub record Joined (r : Ranges) (i gap t : ℕ) (q : Ranges) : Type 0 where
  pub size : q.n + gap ≡ r.n
  pub low : (k : ℕ) → k ≤ i → q.addr k ≡ r.addr k
  pub high : (k : ℕ) → i < k → k ≤ q.n → q.addr k ≡ r.addr (k + gap)
  pub kind_low : (k : ℕ) → k < i → q.kind k ≡ r.kind k
  pub kind_here : q.kind i ≡ t
  pub kind_high : (k : ℕ) → i < k → k < q.n → q.kind k ≡ r.kind (k + gap)

pub assign-Joined :
    (p : Plan) (t : ℕ)
    → p.r.addr p.i ≡ p.first
    → p.r.addr p.j ≡ p.last
    → p.i < p.j
    → p.j ≤ p.r.n
    → (q : Ranges) × (assign p t ≡ ok q) × Joined p.r p.i (p.j - (p.i + 1)) t q
unfolding assign
assign-Joined p t f l lt le = elim (Bool-cases (ltb (p.i + 1) p.j)) [
  | inl more ↦ (
    record {
      n = p.r.n - (p.j - (p.i + 1));
      addr = shift p.r.addr (p.i + 1) p.j (p.r.n + 1 - p.j);
      kind = shift (put p.r.kind p.i t) (p.i + 1) p.j (p.r.n + 1 - p.j);
    },
    ground arith,
    record {
      size = ground arith;
      low = λ k h. ground arith;
      high = λ k h u.
          let e : p.j + (k - (p.i + 1)) ≡ k + (p.j - (p.i + 1)) = omega arith in ground (arith, e);
      kind_low = λ k h. ground arith;
      kind_here = ground arith;
      kind_high = λ k h u.
          let e : p.j + (k - (p.i + 1)) ≡ k + (p.j - (p.i + 1)) = omega arith in ground (arith, e);
    },
  )
  | inr one ↦
      let z : p.j - (p.i + 1) ≡ 0 = ground arith in
      (
        record p.r { kind = put p.r.kind p.i t },
        ground arith,
        record {
          size = omega (arith, z);
          low = λ k h. refl;
          high = λ k h u. let e : k ≡ k + (p.j - (p.i + 1)) = omega (arith, z) in ap p.r.addr e;
          kind_low = λ k h. ground arith;
          kind_here = ground arith;
          kind_high = λ k h u.
              let e : k ≡ k + (p.j - (p.i + 1)) = omega (arith, z) in
              let w : put p.r.kind p.i t k ≡ p.r.kind k = ground arith in w ∙ ap p.r.kind e;
        },
      )
]

module _ {r q : Ranges} (s : IsSorted r) (i gap t : ℕ) (lt : i + 1 + gap ≤ r.n)
    (w : Joined r i gap t q) where
  pub Joined-IsSorted : IsSorted q
  Joined-IsSorted = record {
    nonempty = omega (arith, w.size);
    from_zero = w.low 0 (omega arith) ∙ s.from_zero;
    grows = grows;
  }
    where
      grows : (k : ℕ) → k < q.n → q.addr k < q.addr (k + 1)
      grows k h = elim (Bool-cases (ltb k i)) [
        | inl low ↦
            let lt' : k + 1 ≤ i = ground arith in
            omega (arith, w.low k (omega arith), w.low (k + 1) lt', s.grows k (omega arith))
        | inr ge ↦ elim (Bool-cases (k == i)) [
          | inl e ↦
              let e' : k ≡ i = ground arith in
              let here : q.addr i ≡ r.addr i = w.low i (omega arith) in
              let next : q.addr (i + 1) ≡ r.addr (i + 1 + gap) =
                w.high (i + 1) (omega arith) (omega (arith, w.size)) in
              let up : r.addr (i + 1) ≤ r.addr (i + 1 + gap) =
                addr_mono s (i + 1) (i + 1 + gap) (omega arith) lt in
              rw e' (omega (arith, here, next, up, s.grows i (omega arith)))
          | inr ne ↦
              let gt : i < k = ground arith in
              let c : k + 1 + gap ≡ k + gap + 1 = omega arith in
              let next : q.addr (k + 1) ≡ r.addr (k + gap + 1) =
                w.high (k + 1) (omega arith) (omega arith) ∙ ap r.addr c in
              omega
                (arith, w.high k gt (omega arith), next, s.grows (k + gap) (omega (arith, w.size)))
        ]
      ]

  -- Addresses on either side keep their type, and those between get the new one.
  pub Joined-below : (a t' : ℕ) → Covers r a t' → a < r.addr i → Covers q a t'
  Joined-below a t' (k, p, e) h =
      let lt' : k + 1 ≤ i = elim (Bool-cases (ltb k i)) [
        | inl low ↦ ground arith
        | inr ge ↦
            let le : i ≤ k = ground arith in
            absurd (omega (arith, addr_mono s i k le (omega (arith, p.index)), p.above))
      ] in
      (
        k,
        record {
          index = omega (arith, w.size);
          above = omega (arith, w.low k (omega arith), p.above);
          below = omega (arith, w.low (k + 1) lt', p.below);
        },
        w.kind_low k (omega arith) ∙ e,
      )

  pub Joined-inside : (a : ℕ) → r.addr i ≤ a → a < r.addr (i + 1 + gap) → Covers q a t
  Joined-inside a le h = (
    i,
    record {
      index = omega (arith, w.size);
      above = omega (arith, w.low i (omega arith));
      below = omega (arith, w.high (i + 1) (omega arith) (omega (arith, w.size)));
    },
    w.kind_here,
  )

  pub Joined-above : (a t' : ℕ) → Covers r a t' → r.addr (i + 1 + gap) ≤ a → Covers q a t'
  Joined-above a t' (k, p, e) h =
      let ge : i + 1 + gap ≤ k = elim (Bool-cases (leb (i + 1 + gap) k)) [
        | inl high ↦ ground arith
        | inr low ↦
            let le : k + 1 ≤ i + 1 + gap = ground arith in
            absurd (omega (arith, addr_mono s (k + 1) (i + 1 + gap) le lt, p.below))
      ] in
      let c : k - gap + gap ≡ k = omega arith in
      let c' : k - gap + 1 + gap ≡ k + 1 = omega arith in
      let here : q.addr (k - gap) ≡ r.addr k =
        w.high (k - gap) (omega arith) (omega (arith, w.size, p.index)) ∙ ap r.addr c in
      let next : q.addr (k - gap + 1) ≡ r.addr (k + 1) =
        w.high (k - gap + 1) (omega arith) (omega (arith, w.size, p.index)) ∙ ap r.addr c' in
      (
        k - gap,
        record {
          index = omega (arith, w.size, p.index);
          above = omega (arith, here, p.above);
          below = omega (arith, next, p.below);
        },
        w.kind_high (k - gap) (omega arith) (omega (arith, w.size, p.index)) ∙ ap r.kind c ∙ e,
      )
