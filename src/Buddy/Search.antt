-- ===== src/Buddy/Search.antt =====
-- The search of `kalloc` for a block.
use cs_161_s21_problem_sets.Prelude.{
  ℕ, zero, suc, ◌+◌, ◌-◌, ◌^◌, ◌≤◌, ◌<◌, ◌≡◌, refl, sym, ap, ◌∙◌, ◌⊎◌, inl, inr, List, [], ◌∷◌,
  arith, ◌==◌, Bool-cases, subst, none, some,
}
use cs_161_s21_problem_sets.Buddy.State.{
  Pages, on_pages, with_list, next_best, break_down, find_block,
}
use cs_161_s21_problem_sets.Buddy.Lists.{Mem, holds, holding, holding-cons, holds-one}
use cs_161_s21_problem_sets.Buddy.Blocks.{Placed}
use cs_161_s21_problem_sets.Buddy.Books.{
  Books, IsValid, holds-cases, on_pages-out, Books-orders, Books-take, Books-recount,
}
use cs_161_s21_problem_sets.Buddy.Split.{Kept, break_down-Books}

-- The search finds the first list above `n` that is not empty.
abbrev NoneAbove : (ℕ → List ℕ) → ℕ → ℕ → Type 0
NoneAbove lists m n = (next_best lists m n ≡ none) × ((k : ℕ) → n < k → k ≤ n + m → lists k ≡ [])

abbrev OneAbove : (ℕ → List ℕ) → ℕ → ℕ → Type 0
OneAbove lists m n =
    (k b : ℕ) × (bs : List ℕ) × (next_best lists m n ≡ some (k, b, bs))
    × (n < k)
    × (k ≤ n + m)
    × (lists k ≡ b ∷ bs)

next_best-step :
    (lists : ℕ → List ℕ) (m n : ℕ) (l : List ℕ)
    → lists (n + 1) ≡ l
    → NoneAbove lists m (n + 1) ⊎ OneAbove lists m (n + 1)
    → NoneAbove lists (suc m) n ⊎ OneAbove lists (suc m) n
unfolding next_best
next_best-step lists m n [] e (inl (stop, empty)) = inl (
  rw (next_best, e) stop,
  λ k h i. elim (Bool-cases (k == n + 1)) [
    | inl here ↦ let same : k ≡ n + 1 = ground arith in ap lists same ∙ e
    | inr above ↦ empty k (ground arith) (omega arith)
  ],
)
next_best-step lists m n [] e (inr (k, b, bs, found, low, high, at)) =
    inr (k, b, bs, rw (next_best, e) found, omega arith, omega arith, at)
next_best-step lists m n (b ∷ bs) e rest =
    inr (n + 1, b, bs, rw (next_best, e) refl, omega arith, omega arith, e)

next_best-cases : (lists : ℕ → List ℕ) (m n : ℕ) → NoneAbove lists m n ⊎ OneAbove lists m n
unfolding next_best
next_best-cases lists zero n = inl (refl, λ k h i. absurd (omega arith))
next_best-cases lists (suc m) n =
    next_best-step lists m n (lists (n + 1)) refl (next_best-cases lists m (n + 1))

-- The search for a block, and what it leaves.
pub record FoundBlock (n : ℕ) (s : Pages) (blk : ℕ) (s' : Pages) : Type 0 where
  pub in_hand : Books s' (holds n blk)
  pub kept : Kept s s'
  pub place : Placed s.r_ord s.r_page n blk

-- No block of order `n` or above is on a list.
abbrev pub NoneLeft : ℕ → Pages → Type 0
NoneLeft n s = (m : ℕ) → n ≤ m → m ≤ 9 → s.free_blocks m ≡ []

-- The first block of a list leaves it.
front-taken :
    (n b : ℕ) (bs : List ℕ) (s : Pages)
    → IsValid s
    → s.free_blocks n ≡ b ∷ bs
    → Books (record s { free_blocks = with_list n bs s.free_blocks }) (holds n b)
      × Placed s.r_ord s.r_page n b
front-taken n b bs s books e =
    let (w, o) = books.blocks n b (subst (λ l. Mem b l) (sym e) (inl refl)) in
    (
      Books-recount
          (Books-take books n b bs w (λ c m. subst (λ l. Mem c l) (sym e) (inr m))
            (λ p. omega (arith, ap (λ l. holding n l p) e, holding-cons n b bs p)))
          (λ p. omega arith),
      w,
    )

-- A larger block, broken down to its first part of order `n`, whose pages are told.
broken :
    (n k b : ℕ) (bs : List ℕ) (s : Pages)
    → n ≤ k
    → IsValid s
    → s.free_blocks k ≡ b ∷ bs
    → let s' = break_down (k - n) n b (record s { free_blocks = with_list k bs s.free_blocks }) in
      FoundBlock n s b (record s' { ord = on_pages b (2 ^ n) (λ _. n + 12) s'.ord })
broken n k b bs s le books e =
    let (held, w) = front-taken k b bs s books e in
    let popped = record s { free_blocks = with_list k bs s.free_blocks } in
    let s' = break_down (k - n) n b popped in
    let (in_hand, kept, place) = break_down-Books (k - n) n k b popped (omega arith) held w in
    record {
      in_hand = Books-orders in_hand (on_pages b (2 ^ n) (λ _. n + 12) s'.ord) (λ p.
          elim (holds-cases n b p) [
            | inl i ↦ inr (omega (arith, holds-one n b p i))
            | inr off ↦ inl (on_pages-out n b p (λ _. n + 12) s'.ord off)
          ]);
      kept = record {
        same_free = kept.same_free;
        same_returned = kept.same_returned;
        same_r_ord = kept.same_r_ord;
        same_r_page = kept.same_r_page;
      };
      place = place;
    }

abbrev pub FindCases : ℕ → Pages → Type 0
FindCases n s =
    ((find_block n s ≡ none) × NoneLeft n s)
    ⊎ ((blk : ℕ) × (s' : Pages) × (find_block n s ≡ some (blk, s')) × FoundBlock n s blk s')

search_above :
    (n : ℕ) (s : Pages)
    → n ≤ 9
    → IsValid s
    → s.free_blocks n ≡ []
    → NoneAbove s.free_blocks (9 - n) n ⊎ OneAbove s.free_blocks (9 - n) n
    → FindCases n s
unfolding find_block
search_above n s small books e (inl (stop, empty)) = inl (
  rw (find_block, e, stop) refl,
  λ m low high. elim (Bool-cases (m == n)) [
    | inl here ↦ let same : m ≡ n = ground arith in ap s.free_blocks same ∙ e
    | inr above ↦ empty m (ground arith) (omega arith)
  ],
)
search_above n s small books e (inr (k, b, bs, found, low, high, at)) =
    inr (b, _, rw (find_block, e, found) refl, broken n k b bs s (omega arith) books at)

pub find_block-cases : (n : ℕ) (s : Pages) → n ≤ 9 → IsValid s → FindCases n s
unfolding find_block
find_block-cases n s small books = on_list (s.free_blocks n) refl
  where
    on_list : (l : List ℕ) → s.free_blocks n ≡ l → FindCases n s
    on_list (b ∷ bs) e =
        let (in_hand, place) = front-taken n b bs s books e in
        inr (
          b,
          _,
          rw (find_block, e) refl,
          record {
            in_hand = in_hand;
            kept = record {
              same_free = refl;
              same_returned = refl;
              same_r_ord = refl;
              same_r_page = refl;
            };
            place = place;
          },
        )
    on_list [] e = search_above n s small books e (next_best-cases s.free_blocks (9 - n) n)
