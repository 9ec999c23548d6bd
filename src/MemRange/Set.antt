-- ===== src/MemRange/Set.antt =====
-- `set` gives the addresses of its range the new type, and leaves all others theirs.
use cs_161_s21_problem_sets.Prelude.{
  ℕ, ◌+◌, ◌-◌, ◌≤◌, ◌<◌, ◌≡◌, ◌≢◌, refl, sym, ap, ◌∙◌, ◌⊎◌, inl, inr, true, false, ◌&&◌, ok, arith,
  ltb, leb, ◌==◌, if◌then◌else◌, Bool-cases,
}
use cs_161_s21_problem_sets.MemRange.State.{
  Ranges, limit, split_at, split, Plan, split_first, split_last, needed, carry_out, locate, set,
  assign, type_of,
}
use cs_161_s21_problem_sets.MemRange.Cover.{IsSorted, Covers, type_of-Covers}
use cs_161_s21_problem_sets.MemRange.Steps.{
  split_addr_low, split_addr_mid, split_addr_high, n-split_at, split_at-IsSorted, split_at-Covers,
}
use cs_161_s21_problem_sets.MemRange.Assign.{
  Joined, assign-Joined, Joined-IsSorted, Joined-below, Joined-inside, Joined-above,
}
use cs_161_s21_problem_sets.MemRange.Located.{Good, locate-Good}

split-ok :
    (maxsize : ℕ) (r : Ranges) (i a : ℕ)
    → i < r.n
    → r.n + 1 ≤ maxsize
    → r.addr i < a
    → a < r.addr (i + 1)
    → split maxsize r i a ≡ ok (split_at r i a)
unfolding split
split-ok maxsize r i a h room lo hi = ground arith

-- A plan on the way: its range starts at a bound, and nothing covered has changed.
record Half (maxsize : ℕ) (p q : Plan) : Type 0 where
  sorted : IsSorted q.r
  same_first : q.first ≡ p.first
  same_last : q.last ≡ p.last
  starts : q.first ≡ q.r.addr q.i
  i_in : q.i < q.r.n
  ordered : q.i ≤ q.j
  j_in : q.j ≤ q.r.n
  last_from : q.r.addr q.j ≤ q.last
  last_below : (q.last ≡ q.r.addr q.j) ⊎ ((q.j < q.r.n) × (q.last < q.r.addr (q.j + 1)))
  covers : (a u : ℕ) → Covers p.r a u → Covers q.r a u
  small : q.r.n ≤ maxsize
  room : q.last ≢ q.r.addr q.j → q.r.n + 1 ≤ maxsize

module _ {r : Ranges} {first last t : ℕ} {p : Plan} (lt : first < last) (g : Good r first last t p)
    (maxsize : ℕ) (fits : needed p ≤ maxsize) where
  module _ (lo : p.r.addr p.i < p.first) where
    cut : Plan
    cut = record p { r = split_at p.r p.i p.first; i = p.i + 1; j = p.j + 1 }

    count_cut : (split_at p.r p.i p.first).n ≡ p.r.n + 1
    count_cut = n-split_at g.sorted p.i p.first g.first_in.index lo g.first_in.below

    start_cut : (split_at p.r p.i p.first).addr (p.i + 1) ≡ p.first
    start_cut = split_addr_mid g.sorted p.i p.first g.first_in.index lo g.first_in.below

    end_cut : p.i < p.j → (split_at p.r p.i p.first).addr (p.j + 1) ≡ p.r.addr p.j
    end_cut h =
        split_addr_high g.sorted p.i p.first g.first_in.index lo g.first_in.below p.j h g.j_in

    next_cut : p.j < p.r.n → (split_at p.r p.i p.first).addr (p.j + 1 + 1) ≡ p.r.addr (p.j + 1)
    next_cut h =
        split_addr_high g.sorted p.i p.first g.first_in.index lo g.first_in.below (p.j + 1)
          (omega (arith, g.ordered)) (omega arith)

    -- The plan's right end is `i` itself only if `last` lies inside range `i`.
    end_cases :
        ((p.i ≡ p.j) × (p.j < p.r.n) × (p.last < p.r.addr (p.j + 1)))
        ⊎ ((p.i < p.j)
            × ((p.last ≡ p.r.addr p.j) ⊎ ((p.j < p.r.n) × (p.last < p.r.addr (p.j + 1)))))
    end_cases = elim (Bool-cases (p.i == p.j)) [
      | inl e ↦
          let e' : p.i ≡ p.j = ground arith in
          inl (elim g.last_below [
            | inl at ↦ absurd (omega (arith, ap p.r.addr e', g.wide_left, g.wide_right))
            | inr b ↦ (e', b.0, b.1)
          ])
      | inr ne ↦ let ne' : p.i ≢ p.j = ground arith in inr (omega (arith, g.ordered), g.last_below)
    ]

    cut-Half :
        p.r.n + 1 ≤ maxsize → (p.last ≢ p.r.addr p.j → p.r.n + 2 ≤ maxsize) → Half maxsize p cut
    unfolding cut
    cut-Half more twice = record {
      sorted = split_at-IsSorted g.sorted p.i p.first g.first_in.index lo g.first_in.below;
      same_first = refl;
      same_last = refl;
      starts = sym start_cut;
      i_in = omega (arith, count_cut, g.first_in.index);
      ordered = omega (arith, g.ordered);
      j_in = omega (arith, count_cut, g.j_in);
      last_from = elim end_cases [
        | inl (e, _, _) ↦
            let e' : p.j + 1 ≡ p.i + 1 = omega arith in
            rw e' (omega (arith, start_cut, g.wide_left, g.wide_right))
        | inr (h, _) ↦ omega (arith, end_cut h, g.last_from)
      ];
      last_below = elim end_cases [
        | inl (e, h, b) ↦ inr (omega (arith, count_cut), omega (arith, next_cut h))
        | inr (h, inl at) ↦ inl (at ∙ sym (end_cut h))
        | inr (_, inr (h, b)) ↦ inr (omega (arith, count_cut), omega (arith, next_cut h))
      ];
      covers = split_at-Covers g.sorted p.i p.first g.first_in.index lo g.first_in.below;
      small = omega (arith, count_cut, more);
      room = λ ne. elim end_cases [
        | inl (e, h, b) ↦
            let off : p.last ≢ p.r.addr p.j =
              λ at. omega (arith, at, ap p.r.addr e, g.wide_left, g.wide_right) in
            omega (arith, count_cut, twice off)
        | inr (h, _) ↦ omega (arith, count_cut, twice (λ at. ne (at ∙ sym (end_cut h))))
      ];
    }

  split_first-Half : (q : Plan) × (split_first maxsize p ≡ ok q) × Half maxsize p q
  unfolding split_first cut
  split_first-Half = elim (Bool-cases (p.first == p.r.addr p.i)) [
    | inl at ↦ (
      p,
      rw at refl,
      record {
        sorted = g.sorted;
        same_first = refl;
        same_last = refl;
        starts = ground arith;
        i_in = g.first_in.index;
        ordered = g.ordered;
        j_in = g.j_in;
        last_from = g.last_from;
        last_below = g.last_below;
        covers = λ a u c. c;
        small = ground (arith, fits);
        room = λ ne. ground (arith, fits);
      },
    )
    | inr off ↦
        let ne : p.first ≢ p.r.addr p.i = ground arith in
        let lo : p.r.addr p.i < p.first = omega (arith, g.first_in.above) in
        let more : p.r.n + 1 ≤ maxsize = ground (arith, fits) in
        (
          cut lo,
          rw (off, split_first)
              (rw (split-ok maxsize p.r p.i p.first g.first_in.index more lo g.first_in.below)
                refl),
          cut-Half lo more (λ ne'. ground (arith, fits)),
        )
  ]

-- A plan whose range starts and ends at bounds.
record Whole (maxsize : ℕ) (p q : Plan) : Type 0 where
  sorted : IsSorted q.r
  same_first : q.first ≡ p.first
  same_last : q.last ≡ p.last
  starts : q.first ≡ q.r.addr q.i
  ends : q.last ≡ q.r.addr q.j
  ordered : q.i ≤ q.j
  j_in : q.j ≤ q.r.n
  covers : (a u : ℕ) → Covers p.r a u → Covers q.r a u
  small : q.r.n ≤ maxsize

split_last-Whole :
    (maxsize : ℕ) (p q : Plan)
    → Half maxsize p q
    → (q' : Plan) × (split_last maxsize q ≡ ok q') × Whole maxsize p q'
unfolding split_last
split_last-Whole maxsize p q h = elim (Bool-cases (q.last == q.r.addr q.j)) [
  | inl at ↦ (
    q,
    rw at refl,
    record {
      sorted = h.sorted;
      same_first = h.same_first;
      same_last = h.same_last;
      starts = h.starts;
      ends = ground arith;
      ordered = h.ordered;
      j_in = h.j_in;
      covers = h.covers;
      small = h.small;
    },
  )
  | inr off ↦
      let ne : q.last ≢ q.r.addr q.j = ground arith in
      let (lt, hi) = inside ne in
      let lo : q.r.addr q.j < q.last = omega (arith, h.last_from) in
      (
        record q { r = split_at q.r q.j q.last; j = q.j + 1 },
        rw (off, split_last) (rw (split-ok maxsize q.r q.j q.last lt (h.room ne) lo hi) refl),
        cut_end lt lo hi (h.room ne),
      )
]
  where
    inside : q.last ≢ q.r.addr q.j → (q.j < q.r.n) × (q.last < q.r.addr (q.j + 1))
    inside ne = elim h.last_below [ inl e ↦ absurd (ne e) | inr b ↦ b ]

    cut_end :
        q.j < q.r.n
        → q.r.addr q.j < q.last
        → q.last < q.r.addr (q.j + 1)
        → q.r.n + 1 ≤ maxsize
        → Whole maxsize p (record q { r = split_at q.r q.j q.last; j = q.j + 1 })
    cut_end lt lo hi room = record {
      sorted = split_at-IsSorted h.sorted q.j q.last lt lo hi;
      same_first = h.same_first;
      same_last = h.same_last;
      starts = h.starts ∙ sym (split_addr_low h.sorted q.j q.last lt lo hi q.i h.ordered);
      ends = sym (split_addr_mid h.sorted q.j q.last lt lo hi);
      ordered = omega (arith, h.ordered);
      j_in = omega (arith, n-split_at h.sorted q.j q.last lt lo hi);
      covers = λ a u c. split_at-Covers h.sorted q.j q.last lt lo hi a u (h.covers a u c);
      small = omega (arith, n-split_at h.sorted q.j q.last lt lo hi, room);
    }

-- What a successful `set` makes of the array.
pub record Set (maxsize : ℕ) (r : Ranges) (first last t : ℕ) (q : Ranges) : Type 0 where
  pub sorted : IsSorted q
  pub small : q.n ≤ maxsize
  pub inside : (a u : ℕ) → Covers r a u → first ≤ a → a < last → Covers q a t
  pub outside : (a u : ℕ) → Covers r a u → (a < first) ⊎ (last ≤ a) → Covers q a u

module _ {r : Ranges} {first last t : ℕ} {p : Plan} (lt : first < last) (g : Good r first last t p)
    (maxsize : ℕ) {q : Plan} (w : Whole maxsize p q) where
  whole_ordered : q.i < q.j
  whole_ordered = elim (Bool-cases (q.i == q.j)) [
    | inl e ↦
        let e' : q.i ≡ q.j = ground arith in
        absurd (
          omega (
            arith,
            ap q.r.addr e',
            w.starts,
            w.ends,
            w.same_first,
            w.same_last,
            g.wide_left,
            g.wide_right,
          ))
    | inr ne ↦ let ne' : q.i ≢ q.j = ground arith in omega (arith, w.ordered)
  ]

  gap_end : q.i + 1 + (q.j - (q.i + 1)) ≡ q.j
  gap_end = omega (arith, whole_ordered)

  gap_in : q.i + 1 + (q.j - (q.i + 1)) ≤ q.r.n
  gap_in = omega (arith, gap_end, w.j_in)

  last_addr : q.r.addr (q.i + 1 + (q.j - (q.i + 1))) ≡ p.last
  last_addr = ap q.r.addr gap_end ∙ sym w.ends ∙ w.same_last

  first_addr : q.r.addr q.i ≡ p.first
  first_addr = sym w.starts ∙ w.same_first

  assign-Set : (r' : Ranges) × (assign q t ≡ ok r') × Set maxsize r first last t r'
  assign-Set =
      let (r', e, j) = assign-Joined q t (sym w.starts) (sym w.ends) whole_ordered w.j_in in
      let in_plan = λ (a : ℕ) (lo : p.first ≤ a) (hi : a < p.last).
        Joined-inside w.sorted q.i (q.j - (q.i + 1)) t gap_in j a (omega (arith, first_addr))
          (omega (arith, last_addr)) in
      (
        r',
        e,
        record {
          sorted = Joined-IsSorted w.sorted q.i (q.j - (q.i + 1)) t gap_in j;
          small = omega (arith, j.size, w.small);
          inside =
              λ a u c lo hi. in_plan a (omega (arith, g.wide_left)) (omega (arith, g.wide_right));
          outside = λ a u c out. beside r' j in_plan a u c out;
        },
      )
    where
      beside :
          (r' : Ranges)
          → Joined q.r q.i (q.j - (q.i + 1)) t r'
          → ((a : ℕ) → p.first ≤ a → a < p.last → Covers r' a t)
          → (a u : ℕ) → Covers r a u
          → (a < first) ⊎ (last ≤ a)
          → Covers r' a u
      beside r' j in_plan a u c out = elim (Bool-cases (ltb a p.first)) [
        | inl low ↦
            let lo : a < p.first = ground arith in
            Joined-below w.sorted q.i (q.j - (q.i + 1)) t gap_in j a u
              (w.covers a u (g.keeps a u c (inl lo))) (omega (arith, first_addr))
        | inr not_low ↦ elim (Bool-cases (ltb a p.last)) [
          | inl mid ↦
              let lo : p.first ≤ a = ground arith in
              let hi : a < p.last = ground arith in rw (g.extends a u c lo hi out) (in_plan a lo hi)
          | inr high ↦
              let hi : p.last ≤ a = ground arith in
              Joined-above w.sorted q.i (q.j - (q.i + 1)) t gap_in j a u
                (w.covers a u (g.keeps a u c (inr hi))) (omega (arith, last_addr))
        ]
      ]

ltb-no : (a b : ℕ) → b ≤ a → ltb a b ≡ false
ltb-no a b h = ground arith

ltb-yes : (a b : ℕ) → a < b → ltb a b ≡ true
ltb-yes a b h = ground arith

carry_out-runs :
    (maxsize : ℕ) (p p1 p2 : Plan) (t : ℕ) (q : Ranges)
    → needed p ≤ maxsize
    → split_first maxsize p ≡ ok p1
    → split_last maxsize p1 ≡ ok p2
    → assign p2 t ≡ ok q
    → carry_out maxsize p t ≡ ok (true, q)
unfolding carry_out
carry_out-runs maxsize p p1 p2 t q fits e1 e2 e3 =
    let f : ltb maxsize (needed p) ≡ false = ltb-no maxsize (needed p) fits in
    rw (f, carry_out) (rw e1 (rw e2 (rw e3 refl)))

carry_out_full :
    (maxsize : ℕ) (p : Plan) (t : ℕ) → maxsize < needed p → carry_out maxsize p t ≡ ok (false, p.r)
unfolding carry_out
carry_out_full maxsize p t full =
    let f : ltb maxsize (needed p) ≡ true = ltb-yes maxsize (needed p) full in
    rw (f, carry_out) refl

set-runs :
    (maxsize : ℕ) (r : Ranges) (first last t : ℕ) (p : Plan)
    → first < last
    → last ≤ limit r
    → locate r first last t ≡ ok p
    → set maxsize r first last t ≡ carry_out maxsize p t
unfolding set
set-runs maxsize r first last t p lt le e =
    let a : (leb first last && leb last (limit r)) ≡ true = ground arith in
    let b : (first == last) ≡ false = ground arith in rw (a, set, b, e) refl

-- `set` of a non-empty range below the limit, on a sorted array with room for its ranges, fails
-- no assertion. If it returns true, the array is sorted and has room again, every address of the
-- range has the new type, and every other address has the type that it had. If it returns false,
-- the array is as it was and fewer than two of its places were left.
pub set_lem :
    (maxsize : ℕ) {r : Ranges} (first last t : ℕ)
    → IsSorted r
    → r.n ≤ maxsize
    → first < last
    → last ≤ limit r
    → ((set maxsize r first last t ≡ ok (false, r)) × (maxsize < r.n + 2))
      ⊎ ((q : Ranges) × (set maxsize r first last t ≡ ok (true, q)) × Set maxsize r first last t q)
set_lem maxsize {r} first last t s fits lt le =
    let (p, e, g) = locate-Good s first last t lt le in
    let run = set-runs maxsize r first last t p lt le e in
    elim (Bool-cases (leb (needed p) maxsize)) [
      | inl room ↦
          let room' : needed p ≤ maxsize = ground arith in
          let (p1, e1, h) = split_first-Half lt g maxsize room' in
          let (p2, e2, w) = split_last-Whole maxsize p p1 h in
          let (q, e3, done) = assign-Set lt g maxsize w in
          inr (q, run ∙ carry_out-runs maxsize p p1 p2 t q room' e1 e2 e3, done)
      | inr full ↦
          let full' : maxsize < needed p = ground arith in
          elim g.unchanged [
            | inl same ↦ inl (
              run ∙ carry_out_full maxsize p t full' ∙ ap (λ q. ok (false, q)) same,
              few p g full',
            )
            | inr (a, b) ↦ absurd (none_needed p g a b full')
          ]
    ]
  where
    few : (p : Plan) → Good r first last t p → maxsize < needed p → maxsize < r.n + 2
    few p g h = ground (arith, g.same_n)

    none_needed :
        (p : Plan)
        → Good r first last t p
        → p.first ≡ p.r.addr p.i
        → p.last ≡ p.r.addr p.j
        → maxsize < needed p
        → ⊥
    none_needed p g a b h = ground (arith, g.same_n)

-- After a `set` that succeeds on a sorted array with room for its ranges, `type` of an address
-- that had a type answers the new type inside the range, and outside of it what it answered
-- before.
pub type_of-set :
    (maxsize : ℕ) {r q : Ranges} (first last t a u : ℕ)
    → IsSorted r
    → r.n ≤ maxsize
    → first < last
    → last ≤ limit r
    → set maxsize r first last t ≡ ok (true, q)
    → Covers r a u
    → type_of q a ≡ ok (if leb first a && ltb a last then t else u)
type_of-set maxsize {r} {q} first last t a u s fits lt le e c =
    elim (set_lem maxsize first last t s fits lt le) [
      | inl (e', _) ↦ absurd (cc)
      | inr (q', e', w) ↦
          let same : q' ≡ q = ground arith in
          elim (Bool-cases (leb first a && ltb a last)) [
            | inl inside ↦
                rw (inside, ← same)
                  (type_of-Covers w.sorted a t (w.inside a u c (ground arith) (ground arith)))
            | inr outside ↦
                rw (outside, ← same)
                  (type_of-Covers w.sorted a u (w.outside a u c (side a first last outside)))
          ]
    ]
  where
    side : (a first last : ℕ) → (leb first a && ltb a last) ≡ false → (a < first) ⊎ (last ≤ a)
    side a first last h = ground arith
