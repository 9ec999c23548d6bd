-- ===== src/Buddy/Join.antt =====
-- `kfree` of a block.
use cs_161_s21_problem_sets.Prelude.{
  ℕ, suc, ◌+◌, ◌-◌, ◌*◌, ◌/◌, ◌%◌, ◌^◌, ◌<◌, ◌≡◌, ◌≢◌, refl, sym, ap, ◌∙◌, ◌⊎◌, inl, inr, true,
  false, not, arith, ltb, ◌==◌, if◌then◌else◌, Bool-cases, pow_two_pos, pow_two_add, subst,
}
use cs_161_s21_problem_sets.Buddy.State.{
  Pages, on_pages, erase_first, erase, buddy_to_the_left, buddy_of, adjoin,
}
use cs_161_s21_problem_sets.Buddy.Lists.{
  Mem, Mem-erase_first, InBlock, holds, holding-erase_first, holds-one, list_of_cover,
}
use cs_161_s21_problem_sets.Buddy.Blocks.{
  Rooted, Placed, Placed-unique, Placed-left, Placed-right, join_left, join_right, left_room,
  distance-steps,
}
use cs_161_s21_problem_sets.Buddy.Books.{
  bit, HasOrder, Books, holds-cases, on_pages-in, on_pages-out, first_page, Books-orders,
  Books-take, Books-recount,
}
use cs_161_s21_problem_sets.Buddy.Split.{halves}

-- Bytes of an order, in pages.
pub pages_of : (n o : ℕ) → o ≡ n + 12 → 2 ^ o / 4096 ≡ 2 ^ n
pages_of n o e =
    let size : 2 ^ o ≡ 4096 * 2 ^ n = ap (λ k. 2 ^ k) e ∙ pow_two_add n 12 in omega (arith, size)

-- Where the buddy of a block lies.
module _ (s : Pages) {n blk : ℕ} (w : Placed s.r_ord s.r_page n blk) (o : s.ord blk ≡ n + 12) where
  in_bytes : 2 ^ s.ord blk ≡ 4096 * 2 ^ n
  in_bytes = ap (λ k. 2 ^ k) o ∙ pow_two_add n 12

  left_bit : buddy_to_the_left s blk ≡ not (w.steps % 2 == 0)
  left_bit = ap (λ d. not (d % 2 == 0)) (distance-steps w (s.ord blk) o)

  buddy-right : w.steps % 2 ≡ 0 → buddy_of s blk ≡ blk + 2 ^ n
  buddy-right even =
      let t : buddy_to_the_left s blk ≡ false =
        left_bit ∙ (let e : not (w.steps % 2 == 0) ≡ false = ground arith in e) in
      rw t (omega (arith, in_bytes))

  buddy-left : w.steps % 2 ≡ 1 → buddy_of s blk ≡ blk - 2 ^ n
  buddy-left odd =
      let t : buddy_to_the_left s blk ≡ true =
        left_bit ∙ (let e : not (w.steps % 2 == 0) ≡ true = ground arith in e) in
      rw t (omega (arith, in_bytes))

-- A free page that has the order of the block in hand, and is none of its pages, begins a block of
-- that order's list if a block can begin there.
pub listed :
    (s : Pages) (n blk c : ℕ)
    → Books s (holds n blk)
    → Placed s.r_ord s.r_page n c
    → holds n blk c ≡ 0
    → s.free c ≡ true
    → s.ord c ≡ n + 12
    → Mem c (s.free_blocks n)
listed s n blk c books w off f o =
    let (m, b, lt, h, i) =
      list_of_cover 10 s.free_blocks c (omega (arith, books.covered c, off, ap bit f)) in
    let (v, orders) = books.blocks m b h in
    let same : m ≡ n = omega (arith, orders c i, o) in
    let h' = subst (λ k. Mem b (s.free_blocks k)) same h in
    let e : b ≡ c =
      Placed-unique c books.roots (subst (λ k. Placed s.r_ord s.r_page k b) same v) w
        (subst (λ k. InBlock k b c) same i) (first_page n c) in
    subst (λ x. Mem x (s.free_blocks n)) e h'

-- The two buddies, and the block that they make.
pub record Pair (s : Pages) (n blk c : ℕ) : Type 0 where
  pub low : ℕ
  pub whole : Placed s.r_ord s.r_page (suc n) low
  pub mate : Placed s.r_ord s.r_page n c
  pub sides : ((blk ≡ low) × (c ≡ low + 2 ^ n)) ⊎ ((blk ≡ low + 2 ^ n) × (c ≡ low))

pub buddies :
    (s : Pages) {n blk : ℕ} (w : Placed s.r_ord s.r_page n blk)
    → Rooted s.r_ord s.r_page
    → s.ord blk ≡ n + 12
    → n + 12 ≢ s.r_ord blk
    → Pair s n blk (buddy_of s blk)
buddies s {n} {blk} w roots o below = elim (Bool-cases (w.steps % 2 == 0)) [
  | inl t ↦
      let even : w.steps % 2 ≡ 0 = ground arith in
      let at = buddy-right s w o even in
      let whole = join_left w below even in
      record {
        low = blk;
        whole = whole;
        mate = subst (λ c. Placed s.r_ord s.r_page n c) (sym at) (Placed-right roots whole);
        sides = inl (refl, at);
      }
  | inr f ↦
      let odd : w.steps % 2 ≡ 1 = ground arith in
      let at = buddy-left s w o odd in
      let whole = join_right w below roots odd in
      record {
        low = blk - 2 ^ n;
        whole = whole;
        mate = subst (λ c. Placed s.r_ord s.r_page n c) (sym at) (Placed-left whole);
        sides = inr (omega (arith, left_room w below odd), at);
      }
]

module _ {s : Pages} {n blk c : ℕ} (pair : Pair s n blk c) where
  joined : (p : ℕ) → holds (suc n) pair.low p ≡ holds n blk p + holds n c p
  joined p = elim pair.sides [
    | inl (eb, ec) ↦ rw (eb, ec) (halves n pair.low p)
    | inr (eb, ec) ↦ rw (eb, ec) (omega (arith, halves n pair.low p))
  ]

  pub lower : (if ltb c blk then c else blk) ≡ pair.low
  lower = elim pair.sides [
    | inl (eb, ec) ↦ ground (arith, pow_two_pos n)
    | inr (eb, ec) ↦ ground (arith, pow_two_pos n)
  ]

  pub mate_apart : holds n blk c ≡ 0
  mate_apart = elim pair.sides [
    | inl (eb, ec) ↦ ground (arith, pow_two_pos n)
    | inr (eb, ec) ↦ ground (arith, pow_two_pos n)
  ]

-- The loop that tells the pages of both: a page of neither keeps its order.
abbrev raised : Pages → ℕ → ℕ
raised s p = s.ord p + 1

abbrev mate_raised : ℕ → ℕ → Pages → ℕ → ℕ
mate_raised n c s = on_pages c (2 ^ n) (raised s) s.ord

abbrev both_raised : ℕ → ℕ → ℕ → Pages → ℕ → ℕ
both_raised n blk c s = on_pages blk (2 ^ n) (raised s) (mate_raised n c s)

both_raised-in :
    (n blk c : ℕ) (s : Pages) (p : ℕ)
    → InBlock n blk p ⊎ InBlock n c p
    → both_raised n blk c s p ≡ s.ord p + 1
both_raised-in n blk c s p (inl i) = on_pages-in n blk p (raised s) (mate_raised n c s) i
both_raised-in n blk c s p (inr i) = elim (holds-cases n blk p) [
  | inl j ↦ on_pages-in n blk p (raised s) (mate_raised n c s) j
  | inr off ↦
      on_pages-out n blk p (raised s) (mate_raised n c s) off ∙ on_pages-in n c p (raised s) s.ord i
]

both_raised-out :
    (n blk c : ℕ) (s : Pages) (p : ℕ)
    → holds n blk p ≡ 0
    → holds n c p ≡ 0
    → both_raised n blk c s p ≡ s.ord p
both_raised-out n blk c s p off off' =
    on_pages-out n blk p (raised s) (mate_raised n c s) off
    ∙ on_pages-out n c p (raised s) s.ord off'

-- The block in hand with its buddy, which leaves its list, is a block of the next order in hand.
module _ {s : Pages} {n blk c : ℕ} (books : Books s (holds n blk)) (orders : HasOrder s n blk)
    (pair : Pair s n blk c) (m : Mem c (s.free_blocks n)) where
  in_pair : (p : ℕ) → (InBlock n blk p ⊎ InBlock n c p) ⊎ ((holds n blk p ≡ 0) × (holds n c p ≡ 0))
  in_pair p = elim (holds-cases n blk p) [
    | inl i ↦ inl (inl i)
    | inr off ↦ elim (holds-cases n c p) [ inl i ↦ inl (inr i) | inr off' ↦ inr (off, off') ]
  ]

  in_pair-pos : (p : ℕ) → InBlock n blk p ⊎ InBlock n c p → 0 < holds (suc n) pair.low p
  in_pair-pos p (inl i) = omega (arith, joined pair p, holds-one n blk p i)
  in_pair-pos p (inr i) = omega (arith, joined pair p, holds-one n c p i)

  in_pair-ord : (p : ℕ) → InBlock n blk p ⊎ InBlock n c p → s.ord p ≡ n + 12
  in_pair-ord p (inl i) = orders p i
  in_pair-ord p (inr i) = let (w, o) = books.blocks n c m in o p i

  count : 2 ^ s.ord blk / 4096 ≡ 2 ^ n
  count = pages_of n (s.ord blk) (orders blk (first_page n blk))

  pub adjoin-Books : Books (adjoin blk c (erase n c s)) (holds (suc n) pair.low)
  unfolding adjoin erase
  adjoin-Books =
      let off_list =
        Books-recount
          (Books-take books n c (erase_first c (s.free_blocks n)) pair.mate
            (λ d h. Mem-erase_first d c (s.free_blocks n) h)
            (λ p. holding-erase_first n c (s.free_blocks n) p m))
          (λ p. joined pair p) in
      rw count (
        Books-orders off_list (both_raised n blk c s) (λ p. elim (in_pair p) [
          | inl i ↦ inr (omega (arith, joined pair p, in_pair-pos p i))
          | inr (off, off') ↦ inl (both_raised-out n blk c s p off off')
        ]))

  pub adjoin-HasOrder : HasOrder (adjoin blk c (erase n c s)) (suc n) pair.low
  unfolding adjoin erase
  adjoin-HasOrder p i = rw count (elim (in_pair p) [
    | inl j ↦ both_raised-in n blk c s p j ∙ omega (arith, in_pair-ord p j)
    | inr (off, off') ↦
        absurd (omega (arith, joined pair p, off, off', holds-one (suc n) pair.low p i))
  ])
