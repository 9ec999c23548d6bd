-- ===== src/Buddy/InitValid.antt =====
-- `init_kalloc` builds the invariant, one root after the other.
use cs_161_s21_problem_sets.Prelude.{
  ℕ, ◌+◌, ◌-◌, ◌^◌, ◌≤◌, ◌<◌, ◌≡◌, sym, ap, ◌∙◌, inl, inr, true, false, arith, ltb, Bool-cases,
  pow_two_pos,
}
use cs_161_s21_problem_sets.Buddy.State.{Pages, on_pages, push_back}
use cs_161_s21_problem_sets.Buddy.Init.{add_root}
use cs_161_s21_problem_sets.Buddy.Lists.{Mem, InBlock, holds, holds-one, holding_pos, cover_pos}
use cs_161_s21_problem_sets.Buddy.Blocks.{Rooted, Placed, Placed-order}
use cs_161_s21_problem_sets.Buddy.Books.{
  bit, Books, IsValid, holds-cases, on_pages-in, on_pages-out, first_page, taken_and_free,
  Books-put,
}

-- The last page of the root of `p`, if `p` is in it.
abbrev pub EndsBy : (ℕ → ℕ) → (ℕ → ℕ) → ℕ → ℕ → Type 0
EndsBy r_ord r_page last p =
    r_page p ≤ p → p < r_page p + 2 ^ (r_ord p - 12) → r_page p + 2 ^ (r_ord p - 12) ≤ last

-- The pages from `cur` on are untouched.
pub record Built (cur : ℕ) (s : Pages) : Type 0 where
  pub valid : IsValid s
  pub home : (p : ℕ) → s.returned p ≡ false
  pub free_below : (p : ℕ) → cur ≤ p → s.free p ≡ false
  pub ord_below : (p : ℕ) → cur ≤ p → s.r_ord p ≡ 0
  pub page_below : (p : ℕ) → cur ≤ p → s.r_page p ≡ 0
  pub ends : (p : ℕ) → p < cur → EndsBy s.r_ord s.r_page cur p

-- One more root.
module _ {f g f' g' : ℕ → ℕ} (cur n page : ℕ) (new_ord : (p : ℕ) → InBlock n page p → f' p ≡ n + 12)
    (new_page : (p : ℕ) → InBlock n page p → g' p ≡ page)
    (old_ord : (p : ℕ) → holds n page p ≡ 0 → f' p ≡ f p)
    (old_page : (p : ℕ) → holds n page p ≡ 0 → g' p ≡ g p) (ord_below : (p : ℕ) → cur ≤ p → f p ≡ 0)
    (page_below : (p : ℕ) → cur ≤ p → g p ≡ 0) (ends : (p : ℕ) → p < cur → EndsBy f g cur p)
    (le : cur ≤ page) where
  size_in : (p : ℕ) → InBlock n page p → 2 ^ (f' p - 12) ≡ 2 ^ n
  size_in p i = ap (λ k. 2 ^ k) (let e : f' p - 12 ≡ n = omega (arith, new_ord p i) in e)

  size_out : (p : ℕ) → holds n page p ≡ 0 → 2 ^ (f' p - 12) ≡ 2 ^ (f p - 12)
  size_out p off = ap (λ k. 2 ^ (k - 12)) (old_ord p off)

  size_beyond : (p : ℕ) → cur ≤ p → 2 ^ (f p - 12) ≡ 1
  size_beyond p h = ap (λ k. 2 ^ (k - 12)) (ord_below p h)

  before : (q : ℕ) → q < cur → holds n page q ≡ 0
  before q lt = ground arith

  extended-ends : (p : ℕ) → p < page + 2 ^ n → EndsBy f' g' (page + 2 ^ n) p
  extended-ends p lt lo hi = elim (holds-cases n page p) [
    | inl i ↦ omega (arith, new_page p i, size_in p i)
    | inr off ↦ elim (Bool-cases (ltb p cur)) [
      | inl t ↦
          let lt' : p < cur = ground arith in
          let bound =
            ends p lt' (omega (arith, lo, old_page p off))
              (omega (arith, hi, old_page p off, size_out p off)) in
          omega (arith, bound, old_page p off, size_out p off)
      | inr t ↦
          let ge : cur ≤ p = ground arith in
          omega (
            arith,
            old_page p off,
            size_out p off,
            size_beyond p ge,
            page_below p ge,
            pow_two_pos n,
          )
    ]
  ]

  extended-Rooted : Rooted f g → Rooted f' g'
  extended-Rooted rooted p q lo hi lo' hi' = elim (holds-cases n page p) [
    | inl i ↦
        let j : InBlock n page q =
          (omega (arith, lo', new_page p i), omega (arith, hi', new_page p i, size_in p i)) in
        (new_page q j ∙ sym (new_page p i), new_ord q j ∙ sym (new_ord p i))
    | inr off ↦ elim (Bool-cases (ltb p cur)) [
      | inl t ↦
          let lt : p < cur = ground arith in
          let size = size_out p off in
          let at = old_page p off in
          let bound = ends p lt (omega (arith, lo, at)) (omega (arith, hi, at, size)) in
          let off' = before q (omega (arith, hi', at, size, bound)) in
          let (same_page, same_ord) =
            rooted p q (omega (arith, lo, at)) (omega (arith, hi, at, size))
              (omega (arith, lo', at)) (omega (arith, hi', at, size)) in
          (old_page q off' ∙ same_page ∙ sym at, old_ord q off' ∙ same_ord ∙ sym (old_ord p off))
      | inr t ↦
          let ge : cur ≤ p = ground arith in
          let e : q ≡ p = omega (
            arith,
            lo,
            hi,
            lo',
            hi',
            old_page p off,
            size_out p off,
            size_beyond p ge,
            page_below p ge,
          ) in
          (ap g' e, ap f' e)
    ]
  ]

Placed-same :
    {f g f' g' : ℕ → ℕ} {n b : ℕ} → f' b ≡ f b → g' b ≡ g b → Placed f g n b → Placed f' g' n b
Placed-same e e' w = record {
  steps = w.steps;
  depth = w.depth;
  order = w.order ∙ sym e;
  small = omega (arith, w.small, e);
  inside = w.inside;
  at = omega (arith, w.at, e');
}

-- The state before the root goes to its list.
abbrev marked : ℕ → ℕ → Pages → Pages
marked n page s = record s {
  free = on_pages page (2 ^ n) (λ _. true) s.free;
  ord = on_pages page (2 ^ n) (λ _. n + 12) s.ord;
  r_ord = on_pages page (2 ^ n) (λ _. n + 12) s.r_ord;
  r_page = on_pages page (2 ^ n) (λ _. page) s.r_page;
}

module _ {cur : ℕ} {s : Pages} (built : Built cur s) (n page : ℕ) (small : n ≤ 9)
    (le : cur ≤ page) where
  listed_below : (m b p : ℕ) → Mem b (s.free_blocks m) → InBlock m b p → holds n page p ≡ 0
  listed_below m b p h i = elim (holds-cases n page p) [
    | inl (lo, hi) ↦
        let (w, o) = built.valid.blocks m b h in
        absurd (
          omega (
            arith,
            built.valid.covered p,
            ap bit (built.free_below p (omega arith)),
            cover_pos 10 m s.free_blocks p (omega (arith, Placed-order w)),
            holding_pos m b (s.free_blocks m) p h i,
          ))
    | inr off ↦ off
  ]

  marked-Books : Books (marked n page s) (holds n page)
  marked-Books = record {
    roots =
        extended-Rooted cur n page (λ p i. on_pages-in n page p (λ _. n + 12) s.r_ord i)
          (λ p i. on_pages-in n page p (λ _. page) s.r_page i)
          (λ p off. on_pages-out n page p (λ _. n + 12) s.r_ord off)
          (λ p off. on_pages-out n page p (λ _. page) s.r_page off) built.ord_below built.page_below
          built.ends le built.valid.roots;
    blocks = λ m b h.
        let (w, o) = built.valid.blocks m b h in
        let off = listed_below m b b h (first_page m b) in
        (
          Placed-same (on_pages-out n page b (λ _. n + 12) s.r_ord off)
              (on_pages-out n page b (λ _. page) s.r_page off) w,
          λ p i. on_pages-out n page p (λ _. n + 12) s.ord (listed_below m b p h i) ∙ o p i,
        );
    covered = λ p. elim (holds-cases n page p) [
      | inl i ↦ omega (
        arith,
        built.valid.covered p,
        ap bit (built.free_below p (let (lo, hi) = i in omega arith)),
        holds-one n page p i,
        ap bit (on_pages-in n page p (λ _. true) s.free i),
      )
      | inr off ↦
          omega (
            arith,
            built.valid.covered p,
            off,
            ap bit (on_pages-out n page p (λ _. true) s.free off),
          )
    ];
    taken = λ b r. absurd (taken_and_free r (built.home b));
  }

  root-Placed : Placed (marked n page s).r_ord (marked n page s).r_page n page
  root-Placed = record {
    steps = 0;
    depth = 0;
    order = omega (arith, on_pages-in n page page (λ _. n + 12) s.r_ord (first_page n page));
    small = omega (arith, on_pages-in n page page (λ _. n + 12) s.r_ord (first_page n page));
    inside = omega arith;
    at = omega (arith, on_pages-in n page page (λ _. page) s.r_page (first_page n page));
  }

  pub add_root-Built : Built (page + 2 ^ n) (add_root n page s)
  unfolding add_root push_back
  add_root-Built = record {
    valid =
        Books-put marked-Books n page (λ _. 0) root-Placed
          (λ p i. on_pages-in n page p (λ _. n + 12) s.ord i) (λ p. omega arith);
    home = built.home;
    free_below = λ p h.
        on_pages-out n page p (λ _. true) s.free (beyond p h) ∙ built.free_below p (omega arith);
    ord_below = λ p h.
        on_pages-out n page p (λ _. n + 12) s.r_ord (beyond p h) ∙ built.ord_below p (omega arith);
    page_below = λ p h.
        on_pages-out n page p (λ _. page) s.r_page (beyond p h) ∙ built.page_below p (omega arith);
    ends =
        extended-ends cur n page (λ p i. on_pages-in n page p (λ _. n + 12) s.r_ord i)
          (λ p i. on_pages-in n page p (λ _. page) s.r_page i)
          (λ p off. on_pages-out n page p (λ _. n + 12) s.r_ord off)
          (λ p off. on_pages-out n page p (λ _. page) s.r_page off) built.ord_below built.page_below
          built.ends le;
  }
    where
      beyond : (p : ℕ) → page + 2 ^ n ≤ p → holds n page p ≡ 0
      beyond p h = ground arith
