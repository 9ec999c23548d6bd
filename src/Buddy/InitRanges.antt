-- ===== src/Buddy/InitRanges.antt =====
-- The loop of `init_kalloc`, and that the pages of the available ranges are the free ones.
use cs_161_s21_problem_sets.Prelude.{
  ℕ, zero, suc, ◌+◌, ◌-◌, ◌*◌, ◌/◌, ◌%◌, ◌^◌, ◌≤◌, ◌<◌, ◌≡◌, refl, sym, ap, ◌∙◌, inl, inr, true,
  false, ◌&&◌, arith, ltb, leb, ◌==◌, Bool-cases, subst, ok,
}
use cs_161_s21_problem_sets.Buddy.State.{Pages}
use cs_161_s21_problem_sets.Buddy.Lists.{cover}
use cs_161_s21_problem_sets.Buddy.Init.{nothing, add_roots, init_from, init_kalloc}
use cs_161_s21_problem_sets.Buddy.Books.{IsValid, taken_and_free}
use cs_161_s21_problem_sets.Buddy.InitValid.{Built}
use cs_161_s21_problem_sets.MemRange.State.{Ranges}
use cs_161_s21_problem_sets.MemRange.Cover.{IsSorted, Covers, addr_mono}
use cs_161_s21_problem_sets.MemRange.Located.{kind_of_In}
use cs_161_s21_problem_sets.Buddy.InitRoots.{Built-later, FreesRange, add_roots_lem}

-- What the kernel relies on: the ranges lie on page boundaries, and those that are available end at or
-- below MEMSIZE_PHYSICAL, where `pgmap` ends.
pub record Aligned (r : Ranges) : Type 0 where
  pub sorted : IsSorted r
  pub on_page : (i : ℕ) → i ≤ r.n → r.addr i % 4096 ≡ 0
  pub inside : (i : ℕ) → i < r.n → r.kind i ≡ 1 → r.addr (i + 1) ≤ 2 ^ 21

-- The pages below `cur` are free if their type is available.
abbrev AgreesBelow : Ranges → ℕ → Pages → Type 0
AgreesBelow r last s = (p t : ℕ) → p * 4096 < last → Covers r (p * 4096) t → s.free p ≡ (t == 1)

pub record Initialized (r : Ranges) (s : Pages) : Type 0 where
  pub valid : IsValid s
  pub home : (p : ℕ) → s.returned p ≡ false
  pub agrees : (p t : ℕ) → Covers r (p * 4096) t → s.free p ≡ (t == 1)

module _ (r : Ranges) (a : Aligned r) (i : ℕ) (lt : i < r.n) where
  first_of : r.addr i / 4096 * 4096 ≡ r.addr i
  first_of = omega (arith, a.on_page i (omega arith))

  pages_in : ℕ
  pages_in = r.addr (i + 1) / 4096 - r.addr i / 4096

  end_of : r.addr i / 4096 + pages_in ≡ r.addr (i + 1) / 4096
  unfolding pages_in
  end_of = omega (arith, a.sorted.grows i lt)

  length_of : pages_in * 4096 ≡ r.addr (i + 1) - r.addr i
  unfolding pages_in
  length_of =
      omega (arith, a.sorted.grows i lt, a.on_page i (omega arith), a.on_page (i + 1) (omega arith))

  -- The pages of a range that is not available stay as they are.
  skipped :
      (s : Pages)
      → (r.kind i == 1) ≡ false
      → Built (r.addr i / 4096) s
      → AgreesBelow r (r.addr i) s
      → AgreesBelow r (r.addr (i + 1)) s
  skipped s other built agrees p t h c = elim (Bool-cases (ltb (p * 4096) (r.addr i))) [
    | inl before ↦ agrees p t (ground arith) c
    | inr after ↦
        let ge : r.addr i ≤ p * 4096 = ground arith in
        let e =
          kind_of_In a.sorted (p * 4096) t i c (record { index = lt; above = ge; below = h }) in
        built.free_below p (omega arith) ∙ sym (ap (λ k. k == 1) e ∙ other)
  ]

  added :
      (s s' : Pages)
      → r.kind i ≡ 1
      → FreesRange (r.addr i / 4096) pages_in s s'
      → AgreesBelow r (r.addr i) s
      → AgreesBelow r (r.addr (i + 1)) s'
  added s s' available frees agrees p t h c = elim (Bool-cases (ltb (p * 4096) (r.addr i))) [
    | inl before ↦
        let out : (leb (r.addr i / 4096) p && ltb p (r.addr i / 4096 + pages_in)) ≡ false =
          ground (arith, first_of) in
        frees p ∙ rw out (agrees p t (ground arith) c)
    | inr after ↦
        let ge : r.addr i ≤ p * 4096 = ground arith in
        let inside : (leb (r.addr i / 4096) p && ltb p (r.addr i / 4096 + pages_in)) ≡ true =
          ground (arith, end_of, a.on_page (i + 1) (omega arith)) in
        let e =
          kind_of_In a.sorted (p * 4096) t i c (record { index = lt; above = ge; below = h }) in
        frees p ∙ rw inside (sym (ap (λ k. k == 1) (e ∙ available)))
  ]

  -- One round of the loop over the ranges.
  range_added :
      (s : Pages)
      → r.kind i ≡ 1
      → Built (r.addr i / 4096) s
      → AgreesBelow r (r.addr i) s
      → (s' : Pages) × (add_roots 64 (r.addr i) (r.addr (i + 1) - r.addr i) s ≡ ok s')
        × Built (r.addr (i + 1) / 4096) s'
        × AgreesBelow r (r.addr (i + 1)) s'
  range_added s available built agrees =
      let low = a.inside i lt available in
      let (s', e, built', frees) =
        add_roots_lem 64 (r.addr i / 4096) (r.addr i / 4096) pages_in s (omega (arith, low, end_of))
          (omega (arith, low, length_of)) (omega arith) built in
      (
        s',
        subst (λ k. add_roots 64 k (r.addr (i + 1) - r.addr i) s ≡ ok s') first_of
            (subst (λ k. add_roots 64 (r.addr i / 4096 * 4096) k s ≡ ok s') length_of e),
        subst (λ k. Built k s') end_of built',
        added s s' available frees agrees,
      )

init_from_lem :
    (k : ℕ) (r : Ranges) (s : Pages)
    → Aligned r
    → k ≤ r.n
    → Built (r.addr (r.n - k) / 4096) s
    → AgreesBelow r (r.addr (r.n - k)) s
    → (s' : Pages) × (init_from k r s ≡ ok s') × Initialized r s'
unfolding init_from
init_from_lem zero r s a le built agrees = (
  s,
  refl,
  record {
    valid = built.valid;
    home = built.home;
    agrees = λ p t c. agrees p t (below_limit p t c) c;
  },
)
  where
    below_limit : (p t : ℕ) → Covers r (p * 4096) t → p * 4096 < r.addr (r.n - 0)
    below_limit p t (i, h, e) =
        let all : r.n - 0 ≡ r.n = omega arith in
        omega (
          arith,
          h.below,
          ap r.addr all,
          addr_mono a.sorted (i + 1) r.n (omega (arith, h.index)) (omega arith),
        )
init_from_lem (suc k) r s a le built agrees =
    let i = r.n - suc k in
    let next : r.n - k ≡ i + 1 = omega arith in
    let go =
      λ (t : Pages) (b : Built (r.addr (i + 1) / 4096) t) (g : AgreesBelow r (r.addr (i + 1)) t).
        init_from_lem k r t a (omega arith) (subst (λ j. Built (r.addr j / 4096) t) (sym next) b)
          (subst (λ j. AgreesBelow r (r.addr j) t) (sym next) g) in
    elim (Bool-cases (r.kind i == 1)) [
      | inl available ↦
          let (t, e, b, g) = range_added r a i (omega arith) s (ground arith) built agrees in
          let (s', e', done) = go t b g in (s', rw (available, e) e', done)
      | inr other ↦
          let (s', e', done) =
            go s
              (Built-later (r.addr (i + 1) / 4096) (omega (arith, a.sorted.grows i (omega arith)))
                built)
              (skipped r a i (omega arith) s other built agrees) in
          (s', rw other e', done)
    ]

nothing-Built : Built 0 nothing
unfolding cover
nothing-Built = record {
  valid = record {
    roots = λ p q lo hi lo' hi'. (refl, refl);
    blocks = λ n b h. elim h [ ];
    covered = λ p. refl;
    taken = λ b r. absurd (taken_and_free r refl);
  };
  home = λ p. refl;
  free_below = λ p h. refl;
  ord_below = λ p h. refl;
  page_below = λ p h. refl;
  ends = λ p h. absurd (omega arith);
}

-- `init_kalloc` on sorted ranges at page boundaries, the available ones ending at or below
-- MEMSIZE_PHYSICAL, 2 MB, ends, no assertion fails, no entry behind the end of `pgmap` is
-- written, and it makes a valid page map in which no page is returned and a page of the ranges is
-- free exactly if its type is available.
pub init_kalloc_lem :
    (r : Ranges) → Aligned r → (s : Pages) × (init_kalloc r ≡ ok s) × Initialized r s
unfolding init_kalloc
init_kalloc_lem r a =
    let start : r.addr (r.n - r.n) ≡ 0 =
      ap r.addr (let z : r.n - r.n ≡ 0 = omega arith in z) ∙ a.sorted.from_zero in
    init_from_lem r.n r nothing a (omega arith)
      (Built-later (r.addr (r.n - r.n) / 4096) (omega arith) nothing-Built)
      (λ p t h c. absurd (omega (arith, start)))
