-- ===== src/MemRange/Located.antt =====
-- The search of `set`: what the plan that it makes says of the array.
use cs_161_s21_problem_sets.Prelude.{
  ℕ, ◌+◌, ◌-◌, ◌≤◌, ◌<◌, ◌≡◌, ◌≢◌, refl, sym, ap, ◌∙◌, ◌⊎◌, inl, inr, true, ◌&&◌, ◌||◌, ok, arith,
  ltb, leb, ◌==◌, Bool-cases,
}
use cs_161_s21_problem_sets.MemRange.State.{
  Ranges, put, limit, Plan, lower_from, find_from, step_back, widen_first, widen_last, locate,
}
use cs_161_s21_problem_sets.MemRange.Cover.{
  IsSorted, In, Covers, Stops, addr_mono, index_le, lower_from-In, find_from-Stops,
}

-- The plan `p` covers [first, last), and where it covers more the type is `t` already; outside of it
-- the array of the plan says what `r` says.
pub record Good (r : Ranges) (first last t : ℕ) (p : Plan) : Type 0 where
  pub sorted : IsSorted p.r
  pub same_n : p.r.n ≡ r.n
  pub first_in : In p.r p.first p.i
  pub ordered : p.i ≤ p.j
  pub j_in : p.j ≤ p.r.n
  pub last_from : p.r.addr p.j ≤ p.last
  pub last_below : (p.last ≡ p.r.addr p.j) ⊎ ((p.j < p.r.n) × (p.last < p.r.addr (p.j + 1)))
  pub wide_left : p.first ≤ first
  pub wide_right : last ≤ p.last
  pub keeps : (a u : ℕ) → Covers r a u → (a < p.first) ⊎ (p.last ≤ a) → Covers p.r a u
  pub extends :
      (a u : ℕ) → Covers r a u → p.first ≤ a → a < p.last → (a < first) ⊎ (last ≤ a) → u ≡ t
  pub unchanged : (p.r ≡ r) ⊎ ((p.first ≡ p.r.addr p.i) × (p.last ≡ p.r.addr p.j))

-- The two assertions of the search.
In-asserted :
    {r : Ranges} {a i : ℕ}
    → In r a i
    → (ltb i r.n && (leb (r.addr i) a && ltb a (r.addr (i + 1)))) ≡ true
In-asserted p = ground (arith, p.index, p.above, p.below)

Stops-asserted :
    {r : Ranges} {a i j : ℕ}
    → Stops r a i j
    → (leb j r.n && (leb (r.addr j) a && (j == r.n || ltb a (r.addr (j + 1))))) ≡ true
Stops-asserted p = ground (arith, p.upto, p.above, p.below)

module _ {r : Ranges} (s : IsSorted r) where
  -- The type of an address is that of its range.
  pub kind_of_In : (a u i : ℕ) → Covers r a u → In r a i → u ≡ r.kind i
  kind_of_In a u i (k, p, e) q =
      let e' : k ≡ i =
        omega (arith, index_le s a a k i p q (omega arith), index_le s a a i k q p (omega arith)) in
      sym e ∙ ap r.kind e'

module _ {r : Ranges} (s : IsSorted r) (first last t : ℕ) (lt : first < last)
    (le : last ≤ limit r) where
  -- The left end after `step_back` and `widen_first`: index and address.
  record Left (i f : ℕ) : Type 0 where
    left_in : In r f i
    left_wide : f ≤ first
    left_type : (a : ℕ) → f ≤ a → a < first → (In r a i) × (r.kind i ≡ t)
    left_start : (r.kind i ≡ t → f ≡ r.addr i)
    left_end : (r.kind i ≡ t → ⊥) → first < r.addr (i + 1)

  Left-Left :
      (i0 : ℕ)
      → In r first i0
      → Left (step_back r i0 first t) (widen_first r (step_back r i0 first t) first t)
  unfolding step_back widen_first
  Left-Left i0 p = elim (Bool-cases (first == r.addr i0 && (ltb 0 i0 && r.kind (i0 - 1) == t))) [
    | inl back ↦
        let at : first ≡ r.addr i0 = ground arith in
        let pos : 0 < i0 = ground arith in
        let k : r.kind (i0 - 1) ≡ t = ground arith in
        let c : i0 - 1 + 1 ≡ i0 = omega arith in
        let c' : r.addr (i0 - 1 + 1) ≡ r.addr i0 = ap r.addr c in
        let g : r.addr (i0 - 1) < r.addr (i0 - 1 + 1) = s.grows (i0 - 1) (omega (arith, p.index)) in
        rw back (ground (arith, k))
    | inr stay ↦ rw stay (ground arith)
  ]

  module _ (i f j : ℕ) (l : Left i f) (st : Stops r last i j) where
    -- Left of `first` the plan covers only addresses of type `t`.
    extends_left : (a u : ℕ) → Covers r a u → f ≤ a → a < first → u ≡ t
    extends_left a u c h h' = let (q, e) = l.left_type a h h' in kind_of_In s a u i c q ∙ e

    take_next :
        j < r.n
        → r.kind j ≡ t
        → Good r first last t (record { r = r; i = i; j = j + 1; first = f; last = r.addr (j + 1) })
    take_next more e = record {
      sorted = s;
      same_n = refl;
      first_in = l.left_in;
      ordered = omega (arith, st.from);
      j_in = omega arith;
      last_from = omega arith;
      last_below = inl refl;
      wide_left = l.left_wide;
      wide_right = omega (arith, past);
      keeps = λ a u c out. c;
      extends = λ a u c h h' out. extend a u c h h' out;
      unchanged = inl refl;
    }
      where
        past : last < r.addr (j + 1)
        past = elim st.below [ inl at_end ↦ absurd (omega arith) | inr b ↦ b ]

        extend :
            (a u : ℕ) → Covers r a u → f ≤ a → a < r.addr (j + 1) → (a < first) ⊎ (last ≤ a) → u ≡ t
        extend a u c h h' (inl left) = extends_left a u c h left
        extend a u c h h' (inr right) =
            kind_of_In s a u j c
              (record { index = more; above = omega (arith, st.above); below = h' })
            ∙ e

    keep_both : Good r first last t (record { r = r; i = i; j = j; first = f; last = last })
    keep_both = record {
      sorted = s;
      same_n = refl;
      first_in = l.left_in;
      ordered = st.from;
      j_in = st.upto;
      last_from = st.above;
      last_below = ends;
      wide_left = l.left_wide;
      wide_right = omega arith;
      keeps = λ a u c out. c;
      extends = λ a u c h h' out. extend a u c h h' out;
      unchanged = inl refl;
    }
      where
        ends : (last ≡ r.addr j) ⊎ ((j < r.n) × (last < r.addr (j + 1)))
        ends = elim (Bool-cases (j == r.n)) [
          | inl e ↦ let e' : j ≡ r.n = ground arith in inl (omega (arith, ap r.addr e', st.above))
          | inr ne ↦ elim st.below [
            | inl at_end ↦ absurd (ground arith)
            | inr b ↦ inr (omega (arith, (let ne' : j ≢ r.n = ground arith in ne'), st.upto), b)
          ]
        ]

        extend : (a u : ℕ) → Covers r a u → f ≤ a → a < last → (a < first) ⊎ (last ≤ a) → u ≡ t
        extend a u c h h' (inl left) = extends_left a u c h left
        extend a u c h h' (inr right) = absurd (omega arith)

    move_start :
        i < j
        → f ≡ r.addr i
        → Good r first last t (record {
          r = record r { addr = put r.addr j last };
          i = i;
          j = j;
          first = f;
          last = last;
        })
    move_start more e = record {
      sorted = record {
        nonempty = s.nonempty;
        from_zero = ground (arith, s.from_zero);
        grows = grows;
      };
      same_n = refl;
      first_in = record {
        index = l.left_in.index;
        above = ground arith;
        below = ground (arith, l.left_in.below, l.left_wide);
      };
      ordered = st.from;
      j_in = st.upto;
      last_from = ground arith;
      last_below = inl (ground arith);
      wide_left = l.left_wide;
      wide_right = omega arith;
      keeps = keep;
      extends = λ a u c h h' out. extend a u c h h' out;
      unchanged = inr (ground arith, ground arith);
    }
      where
        grows : (k : ℕ) → k < r.n → put r.addr j last k < put r.addr j last (k + 1)
        grows k h = elim (Bool-cases (j == k)) [
          | inl at_j ↦
              let e' : j ≡ k = ground arith in
              let b : last < r.addr (k + 1) = elim st.below [
                | inl at_end ↦ absurd (omega arith)
                | inr b ↦ rw e' at b
              ] in
              ground (arith, b)
          | inr ne ↦ ground (arith, s.grows k h, st.above)
        ]

        extend : (a u : ℕ) → Covers r a u → f ≤ a → a < last → (a < first) ⊎ (last ≤ a) → u ≡ t
        extend a u c h h' (inl left) = extends_left a u c h left
        extend a u c h h' (inr right) = absurd (omega arith)

        keep :
            (a u : ℕ)
            → Covers r a u
            → (a < f) ⊎ (last ≤ a)
            → Covers (record r { addr = put r.addr j last }) a u
        keep a u (k, p, e') (inl left) =
            let lt' : k + 1 ≤ i = elim (Bool-cases (ltb k i)) [
              | inl low ↦ ground arith
              | inr ge ↦
                  let le' : i ≤ k = ground arith in
                  absurd (omega (arith, addr_mono s i k le' (omega (arith, p.index)), p.above))
            ] in
            (
              k,
              record {
                index = p.index;
                above = ground (arith, p.above);
                below = ground (arith, p.below);
              },
              e',
            )
        keep a u (k, p, e') (inr right) =
            let ge : j ≤ k = elim (Bool-cases (leb j k)) [
              | inl high ↦ ground arith
              | inr low ↦
                  let le' : k + 1 ≤ j = ground arith in
                  absurd (omega (arith, addr_mono s (k + 1) j le' st.upto, p.below, st.above))
            ] in
            (
              k,
              record {
                index = p.index;
                above = ground (arith, p.above);
                below = ground (arith, p.below);
              },
              e',
            )

    widen_last-Good : Good r first last t (widen_last r i j f last t)
    unfolding widen_last
    widen_last-Good = elim (Bool-cases (ltb j r.n && r.kind j == t)) [
      | inl next ↦ rw next (take_next (ground arith) (ground arith))
      | inr not_next ↦ elim (Bool-cases (ltb i j && f == r.addr i)) [
        | inl move ↦ rw (not_next, move) (move_start (ground arith) (ground arith))
        | inr stay ↦ rw (not_next, stay) keep_both
      ]
    ]

  locate-runs :
      In r first (lower_from r.n r first 0)
      → Stops r last
          (step_back r (lower_from r.n r first 0) first t)
          (find_from r.n r last (step_back r (lower_from r.n r first 0) first t))
      → let i = step_back r (lower_from r.n r first 0) first t in
        locate r first last t
        ≡ ok (widen_last r i (find_from r.n r last i) (widen_first r i first t) last t)
  unfolding locate
  locate-runs q st = rw (In-asserted q, locate, Stops-asserted st) refl

  -- The search ends without a panic, with a good plan.
  pub locate-Good : (p : Plan) × (locate r first last t ≡ ok p) × Good r first last t p
  unfolding locate
  locate-Good =
      let i0 = lower_from r.n r first 0 in
      let q : In r first i0 =
        lower_from-In s r.n first 0 (omega arith) s.nonempty (omega (arith, s.from_zero))
          (omega arith) in
      let l = Left-Left i0 q in
      let i = step_back r i0 first t in
      let f = widen_first r i first t in
      let st : Stops r last i (find_from r.n r last i) =
        find_from-Stops r r.n last i (omega (arith, l.left_in.index))
          (omega (arith, l.left_in.above, l.left_wide)) (omega arith) in
      (
        widen_last r i (find_from r.n r last i) f last t,
        locate-runs q st,
        widen_last-Good i f _ l st,
      )
