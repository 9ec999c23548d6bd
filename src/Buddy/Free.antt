-- ===== src/Buddy/Free.antt =====
-- `kfree` of a block: the loop that joins buddies, and what it leaves.
use cs_161_s21_problem_sets.Prelude.{
  ℕ, zero, suc, ◌+◌, ◌-◌, ◌^◌, ◌≤◌, ◌≡◌, ◌≢◌, refl, sym, ap, ◌∙◌, ◌⊎◌, inl, inr, true, false, ◌&&◌,
  arith, ◌==◌, Bool-cases, subst, fun_ext, some, ok,
}
use cs_161_s21_problem_sets.Buddy.State.{
  Pages, on_pages, on_page, push_back, erase, buddy_of, adjoin, done, again, join_round, join_loop,
  free_block,
}
use cs_161_s21_problem_sets.Buddy.Lists.{InBlock, holds, holds-one}
use cs_161_s21_problem_sets.Buddy.Blocks.{Placed, Placed-order, Placed-unique}
use cs_161_s21_problem_sets.Buddy.Books.{
  bit, HasOrder, Taken, Books, IsValid, holds-cases, on_pages-in, on_pages-out, first_page,
  Books-put,
}
use cs_161_s21_problem_sets.Buddy.Split.{Kept, Kept-trans}
use cs_161_s21_problem_sets.Buddy.Join.{
  buddies, lower, mate_apart, listed, adjoin-Books, adjoin-HasOrder, pages_of,
}

-- A block of order `n` in hand.
record InHand (s : Pages) (n blk : ℕ) : Type 0 where
  books : Books s (holds n blk)
  place : Placed s.r_ord s.r_page n blk
  orders : HasOrder s n blk

push_back-Kept : (n blk : ℕ) (s : Pages) → Kept s (push_back n blk s)
unfolding push_back
push_back-Kept n blk s = record {
  same_free = refl;
  same_returned = refl;
  same_r_ord = refl;
  same_r_page = refl;
}

adjoin-Kept : (n blk c : ℕ) (s : Pages) → Kept s (adjoin blk c (erase n c s))
unfolding adjoin erase
adjoin-Kept n blk c s = record {
  same_free = refl;
  same_returned = refl;
  same_r_ord = refl;
  same_r_page = refl;
}

push_back-IsValid : (n blk : ℕ) (s : Pages) → InHand s n blk → IsValid (push_back n blk s)
push_back-IsValid n blk s h = Books-put h.books n blk (λ _. 0) h.place h.orders (λ p. omega arith)

Placed-adjoin :
    (n blk c m b : ℕ) (s : Pages)
    → Placed s.r_ord s.r_page m b
    → Placed (adjoin blk c (erase n c s)).r_ord (adjoin blk c (erase n c s)).r_page m b
unfolding adjoin erase
Placed-adjoin n blk c m b s w = w

-- One round ends, or goes on with a block of the next order in hand.
abbrev Ends : ℕ → ℕ → Pages → Type 0
Ends n blk s = join_round blk s ≡ done (push_back n blk s)

abbrev GoesOn : ℕ → ℕ → Pages → Type 0
GoesOn n blk s =
    (low : ℕ) × (s' : Pages) × (join_round blk s ≡ again low s') × InHand s' (suc n) low × Kept s s'

join_round-cases : (n blk : ℕ) (s : Pages) → InHand s n blk → Ends n blk s ⊎ GoesOn n blk s
unfolding join_round
join_round-cases n blk s h = elim (Bool-cases (s.ord blk == s.r_ord blk)) [
  | inl root ↦ inl (rw (root, index) refl)
  | inr below ↦ elim (Bool-cases (s.free (buddy_of s blk) && s.ord (buddy_of s blk) == s.ord blk)) [
    | inl meets ↦
        let c = buddy_of s blk in
        let pair = buddies s h.place h.books.roots o (under below) in
        let m =
          listed s n blk c h.books pair.mate (mate_apart pair) (is_free meets) (same_order meets) in
        inr (
          pair.low,
          adjoin blk c (erase n c s),
          rw (below, meets, index, lower pair) refl,
          record {
            books = adjoin-Books h.books h.orders pair m;
            place = Placed-adjoin n blk c (suc n) pair.low s pair.whole;
            orders = adjoin-HasOrder h.books h.orders pair m;
          },
          adjoin-Kept n blk c s,
        )
    | inr alone ↦ inl (rw (below, alone, index) refl)
  ]
]
  where
    o : s.ord blk ≡ n + 12
    o = h.orders blk (first_page n blk)

    index : s.ord blk - 12 ≡ n
    index = omega (arith, o)

    under : (s.ord blk == s.r_ord blk) ≡ false → n + 12 ≢ s.r_ord blk
    under f = ground (arith, o)

    is_free :
        (s.free (buddy_of s blk) && s.ord (buddy_of s blk) == s.ord blk) ≡ true
        → s.free (buddy_of s blk) ≡ true
    is_free t = ground arith

    same_order :
        (s.free (buddy_of s blk) && s.ord (buddy_of s blk) == s.ord blk) ≡ true
        → s.ord (buddy_of s blk) ≡ n + 12
    same_order t = ground (arith, o)

-- The loop ends with the block on a list: the order grows in every round, and no root has one above `top`.
join_loop-ends :
    (fuel n blk : ℕ) (s : Pages)
    → 10 ≤ n + fuel
    → InHand s n blk
    → (s' : Pages) × (join_loop fuel blk s ≡ some s') × IsValid s' × Kept s s'
unfolding join_loop
join_loop-ends zero n blk s enough h = absurd (omega (arith, Placed-order h.place))
join_loop-ends (suc fuel) n blk s enough h = elim (join_round-cases n blk s h) [
  | inl e ↦ (
    push_back n blk s,
    rw (join_loop, e) refl,
    push_back-IsValid n blk s h,
    push_back-Kept n blk s,
  )
  | inr (low, s', e, h', kept) ↦
      let (s'', e', valid, kept') = join_loop-ends fuel (suc n) low s' (omega arith) h' in
      (s'', rw (join_loop, e) e', valid, Kept-trans kept kept')
]

-- The block comes back into the hand.
abbrev freed : ℕ → ℕ → Pages → Pages
freed n blk s = record s {
  returned = on_page blk false s.returned;
  free = on_pages blk (2 ^ n) (λ _. true) s.free;
}

module _ {s : Pages} (valid : IsValid s) {blk : ℕ} (r : s.returned blk ≡ true) where
  taken_block : Taken s blk
  taken_block = valid.taken blk r

  -- Two blocks that were handed out have no page in common.
  same_block :
      (b p : ℕ) (t : Taken s b) → InBlock t.size b p → InBlock taken_block.size blk p → b ≡ blk
  same_block b p t i j =
      let e : t.size ≡ taken_block.size = omega (arith, t.orders p i, taken_block.orders p j) in
      Placed-unique p valid.roots (subst (λ n. Placed s.r_ord s.r_page n b) e t.place)
        taken_block.place (subst (λ n. InBlock n b p) e i) j

  still_used :
      (b p : ℕ) (t : Taken s b)
      → (b == blk) ≡ false
      → InBlock t.size b p
      → holds taken_block.size blk p ≡ 0
  still_used b p t other i = elim (holds-cases taken_block.size blk p) [
    | inl j ↦ absurd (let e = same_block b p t i j in ground arith)
    | inr off ↦ off
  ]

  freed-InHand : InHand (freed taken_block.size blk s) taken_block.size blk
  freed-InHand = record {
    books = record {
      roots = valid.roots;
      blocks = valid.blocks;
      covered = λ p. elim (holds-cases taken_block.size blk p) [
        | inl i ↦ omega (
          arith,
          valid.covered p,
          ap bit (taken_block.used p i),
          ap bit (on_pages-in taken_block.size blk p (λ _. true) s.free i),
          holds-one taken_block.size blk p i,
        )
        | inr off ↦ omega (
          arith,
          valid.covered p,
          off,
          ap bit (on_pages-out taken_block.size blk p (λ _. true) s.free off),
        )
      ];
      taken = λ b r'. elim (Bool-cases (b == blk)) [
        | inl same ↦ absurd (let off : false ≡ true = (rw same at r') in ground arith)
        | inr other ↦
            let t = valid.taken b (rw other at r') in
            record {
              size = t.size;
              place = t.place;
              orders = t.orders;
              used = λ p i.
                  on_pages-out taken_block.size blk p (λ _. true) s.free (still_used b p t other i)
                  ∙ t.used p i;
            }
      ];
    };
    place = taken_block.place;
    orders = taken_block.orders;
  }

pub record Freed (n : ℕ) (s : Pages) (blk : ℕ) (s' : Pages) : Type 0 where
  pub valid : IsValid s'
  pub place : Placed s.r_ord s.r_page n blk
  pub order : s.ord blk ≡ n + 12
  pub were_taken : on_pages blk (2 ^ n) (λ _. false) s.free ≡ s.free
  pub now_free : s'.free ≡ on_pages blk (2 ^ n) (λ _. true) s.free
  pub now_returned : s'.returned ≡ on_page blk false s.returned

-- Freeing a block that was returned, in a valid page map: the loop ends, no assertion fails, the
-- pages of the block, which were not free, are free, its first page is no more marked as
-- returned, no other page's marks change, and the page map is valid again: every free page is in
-- exactly one block of one list.
pub free_block_lem :
    (blk : ℕ) (s : Pages)
    → IsValid s
    → s.returned blk ≡ true
    → (n : ℕ) × (s' : Pages) × (free_block blk s ≡ some (ok s')) × Freed n s blk s'
unfolding free_block
free_block_lem blk s valid r =
    let t = taken_block valid r in
    let n = t.size in
    let o = t.orders blk (first_page n blk) in
    let (s', e, ends, kept) =
      join_loop-ends 10 n blk (freed n blk s) (omega arith) (freed-InHand valid r) in
    (
      n,
      s',
      rw (t.used blk (first_page n blk), r, pages_of n (s.ord blk) o, e) refl,
      record {
        valid = ends;
        place = t.place;
        order = o;
        were_taken = fun_ext (λ p. elim (holds-cases n blk p) [
          | inl i ↦ on_pages-in n blk p (λ _. false) s.free i ∙ sym (t.used p i)
          | inr off ↦ on_pages-out n blk p (λ _. false) s.free off
        ]);
        now_free = kept.same_free;
        now_returned = kept.same_returned;
      },
    )
