-- ===== src/Buddy/Alloc.antt =====
-- `kalloc` behind the slabs.
use cs_161_s21_problem_sets.Prelude.{
  ℕ, ◌+◌, ◌^◌, ◌≤◌, ◌≡◌, refl, sym, ap, ◌∙◌, ◌⊎◌, inl, inr, true, false, arith, ◌==◌, Bool-cases,
  subst, fun_ext, none, some,
}
use cs_161_s21_problem_sets.Buddy.State.{Pages, on_pages, on_page, hand_out, alloc_block}
use cs_161_s21_problem_sets.Buddy.Lists.{InBlock, holds, holds-one}
use cs_161_s21_problem_sets.Buddy.Blocks.{Placed}
use cs_161_s21_problem_sets.Buddy.Books.{
  bit, Taken, Books, IsValid, holds-cases, on_pages-in, on_pages-out, taken_and_free, extra-free,
  extra-unlisted, listed-unheld,
}
use cs_161_s21_problem_sets.Buddy.Split.{Kept, Placed-Kept}
use cs_161_s21_problem_sets.Buddy.Search.{FoundBlock, NoneLeft, find_block-cases}

-- A block in hand is handed out.
pub record Allocated (n : ℕ) (s : Pages) (blk : ℕ) (s' : Pages) : Type 0 where
  pub valid : IsValid s'
  pub place : Placed s.r_ord s.r_page n blk
  pub all_free : on_pages blk (2 ^ n) (λ _. true) s.free ≡ s.free
  pub now_taken : s'.free ≡ on_pages blk (2 ^ n) (λ _. false) s.free
  pub now_returned : s'.returned ≡ on_page blk true s.returned
  pub told : on_pages blk (2 ^ n) (λ _. n + 12) s'.ord ≡ s'.ord

-- What was handed out before stays so, and is another block.
module _ (n blk : ℕ) {s : Pages} (books : Books s (holds n blk)) where
  apart : (b p : ℕ) (t : Taken s b) → InBlock t.size b p → holds n blk p ≡ 0
  apart b p t i = elim (holds-cases n blk p) [
    | inl h ↦
        absurd
          (taken_and_free (extra-free books p (omega (arith, holds-one n blk p h))) (t.used p i))
    | inr off ↦ off
  ]

  still_taken : (b : ℕ) → Taken s b → Taken (hand_out n blk s) b
  unfolding hand_out
  still_taken b t = record {
    size = t.size;
    place = t.place;
    orders = λ p i. on_pages-out n blk p (λ _. n + 12) s.ord (apart b p t i) ∙ t.orders p i;
    used = λ p i. on_pages-out n blk p (λ _. false) s.free (apart b p t i) ∙ t.used p i;
  }

  now_taken_block : Placed s.r_ord s.r_page n blk → Taken (hand_out n blk s) blk
  unfolding hand_out
  now_taken_block w = record {
    size = n;
    place = w;
    orders = λ p i. on_pages-in n blk p (λ _. n + 12) s.ord i;
    used = λ p i. on_pages-in n blk p (λ _. false) s.free i;
  }

  hand_out-IsValid : Placed s.r_ord s.r_page n blk → IsValid (hand_out n blk s)
  unfolding hand_out
  hand_out-IsValid w = record {
    roots = books.roots;
    blocks = λ m b h.
        let (v, o) = books.blocks m b h in
        (
          v,
          λ p i. elim (holds-cases n blk p) [
            | inl j ↦ absurd (omega (arith, listed-unheld books m b p h i, holds-one n blk p j))
            | inr off ↦ on_pages-out n blk p (λ _. n + 12) s.ord off ∙ o p i
          ],
        );
    covered = λ p. elim (holds-cases n blk p) [
      | inl i ↦ omega (
        arith,
        extra-unlisted books p (omega (arith, holds-one n blk p i)),
        ap bit (on_pages-in n blk p (λ _. false) s.free i),
      )
      | inr off ↦
          omega (arith, books.covered p, ap bit (on_pages-out n blk p (λ _. false) s.free off), off)
    ];
    taken = λ b r. elim (Bool-cases (b == blk)) [
      | inl same ↦
          let e : b ≡ blk = ground arith in
          subst (λ c. Taken (hand_out n blk s) c) (sym e) (now_taken_block w)
      | inr other ↦ still_taken b (books.taken b (rw other at r))
    ];
  }

Placed-Kept-after :
    {s s' : Pages} {n b : ℕ}
    → Kept s s'
    → Placed s.r_ord s.r_page n b
    → Placed s'.r_ord s'.r_page n b
Placed-Kept-after {s} {s'} k w =
    Placed-Kept {s = s'} {s' = s}
      (record {
        same_free = sym k.same_free;
        same_returned = sym k.same_returned;
        same_r_ord = sym k.same_r_ord;
        same_r_page = sym k.same_r_page;
      })
      w

FoundBlock-Allocated :
    (n blk : ℕ) (s s' : Pages) → FoundBlock n s blk s' → Allocated n s blk (hand_out n blk s')
unfolding hand_out
FoundBlock-Allocated n blk s s' f = record {
  valid = hand_out-IsValid n blk f.in_hand (Placed-Kept-after f.kept f.place);
  place = f.place;
  all_free = fun_ext (λ p. elim (holds-cases n blk p) [
    | inl i ↦
        on_pages-in n blk p (λ _. true) s.free i
        ∙ sym (extra-free f.in_hand p (omega (arith, holds-one n blk p i)))
        ∙ ap (λ g. g p) f.kept.same_free
    | inr off ↦ on_pages-out n blk p (λ _. true) s.free off
  ]);
  now_taken = ap (λ g. on_pages blk (2 ^ n) (λ _. false) g) f.kept.same_free;
  now_returned = ap (λ g. on_page blk true g) f.kept.same_returned;
  told = fun_ext (λ p. elim (holds-cases n blk p) [
    | inl i ↦
        on_pages-in n blk p (λ _. n + 12) (hand_out n blk s').ord i
        ∙ sym (on_pages-in n blk p (λ _. n + 12) s'.ord i)
    | inr off ↦ on_pages-out n blk p (λ _. n + 12) (hand_out n blk s').ord off
  ]);
}

-- A request to a valid page map for a block of an order up to MAX_ORDER: no block of that order
-- or above is on a list, and there is no answer; or it gets a block at a multiple of its size in
-- its root, whose pages were all free and now are not and have the order; the first of them is
-- marked as returned, no other page's marks change, and the page map is valid again.
pub alloc_block-cases :
    (n : ℕ) (s : Pages)
    → n ≤ 9
    → IsValid s
    → ((alloc_block n s ≡ none) × NoneLeft n s)
      ⊎ ((blk : ℕ) × (s' : Pages) × (alloc_block n s ≡ some (blk, s')) × Allocated n s blk s')
unfolding alloc_block
alloc_block-cases n s small books = elim (find_block-cases n s small books) [
  | inl (e, left) ↦ inl (rw (alloc_block, e) refl, left)
  | inr (blk, s', e, f) ↦
      inr (blk, hand_out n blk s', rw (alloc_block, e) refl, FoundBlock-Allocated n blk s s' f)
]
