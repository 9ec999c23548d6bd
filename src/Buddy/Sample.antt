-- ===== src/Buddy/Sample.antt =====
-- A pool of five pages, and the same with two of them handed out.
use cs_161_s21_problem_sets.Prelude.{
  ℕ, ◌≡◌, refl, sym, ap, subst, ◌∙◌, inl, inr, true, ◌==◌, if◌then◌else◌, Option, none, some, [],
  ◌∷◌, Outcome, ok, panic, arith,
}
use cs_161_s21_problem_sets.Buddy.State.{
  Pages, alloc_block, find_block, next_best, break_down, hand_out, push_back,
}
use cs_161_s21_problem_sets.Buddy.Order.{largest_fitting_ord}
use cs_161_s21_problem_sets.Buddy.Init.{nothing, init_kalloc, init_from, add_roots, add_root}
use cs_161_s21_problem_sets.Buddy.InitRanges.{Aligned, Initialized, init_kalloc_lem}
use cs_161_s21_problem_sets.Buddy.Books.{IsValid}
use cs_161_s21_problem_sets.Buddy.Alloc.{alloc_block-cases}
use cs_161_s21_problem_sets.MemRange.State.{Ranges}

-- Two pages that are not available, then five that are: a root of four pages, and one of one.
abbrev pub five_pages : Ranges
five_pages = record {
  n = 2;
  addr = λ i. if i == 0 then 0 else if i == 1 then 8192 else 28672;
  kind = λ i. i;
}

pub five_pages-Aligned : Aligned five_pages
five_pages-Aligned = record {
  sorted = record { nonempty = omega arith; from_zero = refl; grows = λ k h. ground arith };
  on_page = λ i h. ground arith;
  inside = λ i h e. ground arith;
}

abbrev pub pages_or_nothing : Outcome Pages → Pages
pages_or_nothing (ok s) = s
pages_or_nothing panic = nothing

abbrev pub pool : Pages
pool = pages_or_nothing (init_kalloc five_pages)

pub pool-Initialized : Initialized five_pages pool
pool-Initialized =
    let (s, e, i) = init_kalloc_lem five_pages five_pages-Aligned in
    subst (λ t. Initialized five_pages t) (sym (ap pages_or_nothing e)) i

abbrev pub pair_or_nothing : Option (ℕ × Pages) → Pages
pair_or_nothing none = nothing
pair_or_nothing (some (blk, s)) = s

-- Two pages are handed out.
abbrev pub lent : Pages
lent = pair_or_nothing (alloc_block 1 pool)

-- A page is split off the larger root, and comes back to it.
abbrev block_of : Option (ℕ × Pages) → Option ℕ
block_of none = none
block_of (some (blk, s)) = some blk

pub first_splits : block_of (alloc_block 1 pool) ≡ some 2
unfolding alloc_block init_kalloc init_from add_roots add_root largest_fitting_ord find_block
    next_best break_down hand_out push_back
first_splits = refl

rest_listed :
    (lent.free_blocks 0 ≡ 6 ∷ []) × (lent.free_blocks 1 ≡ 4 ∷ []) × (lent.free_blocks 2 ≡ [])
unfolding alloc_block init_kalloc init_from add_roots add_root largest_fitting_ord find_block
    next_best break_down hand_out push_back
rest_listed = (refl, refl, refl)

pub lent_returned : lent.returned 2 ≡ true
unfolding alloc_block init_kalloc init_from add_roots add_root largest_fitting_ord find_block
    next_best break_down hand_out push_back
lent_returned = refl

pub lent-IsValid : IsValid lent
lent-IsValid = elim (alloc_block-cases 1 pool (omega arith) pool-Initialized.valid) [
  | inl (e, left) ↦
      absurd (let h : none ≡ some 2 = sym (ap block_of e) ∙ first_splits in ground arith)
  | inr (blk, s, e, a) ↦ subst (λ t. IsValid t) (sym (ap pair_or_nothing e)) a.valid
]
