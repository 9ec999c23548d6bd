-- ===== src/MemRange/Steps.antt =====
-- `split` changes no type: it cuts one range in two.
use cs_161_s21_problem_sets.Prelude.{
  ℕ, ◌+◌, ◌-◌, ◌≤◌, ◌<◌, ◌≡◌, refl, sym, ap, ◌∙◌, inl, inr, arith, ltb, ◌==◌, Bool-cases,
}
use cs_161_s21_problem_sets.MemRange.State.{Ranges, split_at}
use cs_161_s21_problem_sets.MemRange.Cover.{IsSorted, In, Covers}

module _ {r : Ranges} (s : IsSorted r) (i x : ℕ) (lt : i < r.n) (lo : r.addr i < x)
    (hi : x < r.addr (i + 1)) where
  pub split_addr_low : (k : ℕ) → k ≤ i → (split_at r i x).addr k ≡ r.addr k
  unfolding split_at
  split_addr_low k h = ground arith

  pub split_addr_mid : (split_at r i x).addr (i + 1) ≡ x
  unfolding split_at
  split_addr_mid = ground arith

  pub split_addr_high : (k : ℕ) → i < k → k ≤ r.n → (split_at r i x).addr (k + 1) ≡ r.addr k
  unfolding split_at
  split_addr_high k h le = let e : i + 1 + (k + 1 - (i + 2)) ≡ k = omega arith in ground (arith, e)

  split_kind_low : (k : ℕ) → k ≤ i → (split_at r i x).kind k ≡ r.kind k
  unfolding split_at
  split_kind_low k h = ground arith

  split_kind_mid : (split_at r i x).kind (i + 1) ≡ r.kind i
  unfolding split_at
  split_kind_mid = ground arith

  split_kind_high : (k : ℕ) → i < k → k < r.n → (split_at r i x).kind (k + 1) ≡ r.kind k
  unfolding split_at
  split_kind_high k h le = let e : i + 1 + (k + 1 - (i + 2)) ≡ k = omega arith in ground (arith, e)

  pub n-split_at : (split_at r i x).n ≡ r.n + 1
  unfolding split_at
  n-split_at = refl

  split_grows : (k : ℕ) → k < r.n + 1 → (split_at r i x).addr k < (split_at r i x).addr (k + 1)
  split_grows k h = elim (Bool-cases (ltb k i)) [
    | inl low ↦
        let lt' : k + 1 ≤ i = ground arith in
        omega (
          arith,
          split_addr_low k (omega arith),
          split_addr_low (k + 1) lt',
          s.grows k (omega arith),
        )
    | inr ge ↦ elim (Bool-cases (ltb (i + 1) k)) [
      | inl high ↦
          let gt : i + 1 < k = ground arith in
          let e : k - 1 + 1 ≡ k = omega arith in
          let f : (split_at r i x).addr k ≡ r.addr (k - 1) =
            ap (λ m. (split_at r i x).addr m) (sym e)
            ∙ split_addr_high (k - 1) (omega arith) (omega arith) in
          let g : r.addr (k - 1) < r.addr k = rw e at (s.grows (k - 1) (omega arith)) in
          omega (arith, f, g, split_addr_high k (omega arith) (omega arith))
      | inr le ↦ elim (Bool-cases (k == i)) [
        | inl e ↦
            let e' : k ≡ i = ground arith in
            rw e' (omega (arith, split_addr_low i (omega arith), split_addr_mid))
        | inr ne ↦
            let e' : k ≡ i + 1 = ground arith in
            rw e'
              (omega (arith, split_addr_mid, split_addr_high (i + 1) (omega arith) (omega arith)))
      ]
    ]
  ]

  pub split_at-IsSorted : IsSorted (split_at r i x)
  split_at-IsSorted = record {
    nonempty = omega (arith, n-split_at);
    from_zero = split_addr_low 0 (omega arith) ∙ s.from_zero;
    grows = λ k h. split_grows k (omega (arith, n-split_at));
  }

  pub split_at-Covers : (a t : ℕ) → Covers r a t → Covers (split_at r i x) a t
  split_at-Covers a t (k, p, e) = elim (Bool-cases (ltb k i)) [
    | inl low ↦
        let lt' : k + 1 ≤ i = ground arith in
        (
          k,
          record {
            index = omega (arith, n-split_at);
            above = omega (arith, split_addr_low k (omega arith), p.above);
            below = omega (arith, split_addr_low (k + 1) lt', p.below);
          },
          split_kind_low k (omega arith) ∙ e,
        )
    | inr ge ↦ elim (Bool-cases (ltb i k)) [
      | inl high ↦
          let gt : i < k = ground arith in
          (
            k + 1,
            record {
              index = omega (arith, n-split_at, p.index);
              above = omega (arith, split_addr_high k gt (omega (arith, p.index)), p.above);
              below =
                  omega (
                    arith,
                    split_addr_high (k + 1) (omega arith) (omega (arith, p.index)),
                    p.below,
                  );
            },
            split_kind_high k gt p.index ∙ e,
          )
      | inr le ↦ let e' : k ≡ i = ground arith in at_cut a t (rw e' at p) (rw e' at e)
    ]
  ]
    where
      at_cut : (a t : ℕ) → In r a i → r.kind i ≡ t → Covers (split_at r i x) a t
      at_cut a t p e = elim (Bool-cases (ltb a x)) [
        | inl left ↦ (
          i,
          record {
            index = omega (arith, n-split_at);
            above = omega (arith, split_addr_low i (omega arith), p.above);
            below = ground (arith, split_addr_mid);
          },
          split_kind_low i (omega arith) ∙ e,
        )
        | inr right ↦ (
          i + 1,
          record {
            index = omega (arith, n-split_at);
            above = ground (arith, split_addr_mid);
            below = omega (arith, split_addr_high (i + 1) (omega arith) (omega arith), p.below);
          },
          split_kind_mid ∙ e,
        )
      ]
