-- ===== src/Buddy/Tests.antt =====
-- The theorems at work on a small pool.
use cs_161_s21_problem_sets.Prelude.{ℕ, ◌≡◌, ◌⊎◌, false, refl, none, some, ok, panic, arith}
use cs_161_s21_problem_sets.Buddy.State.{
  Pages, alloc_block, free_block, find_block, next_best, break_down, hand_out, push_back,
}
use cs_161_s21_problem_sets.Buddy.CeilLog.{order_lem, CeilLog}
use cs_161_s21_problem_sets.Buddy.Order.{order, largest_fitting_ord}
use cs_161_s21_problem_sets.Buddy.Lists.{InBlock}
use cs_161_s21_problem_sets.Buddy.Init.{init_kalloc, init_from, add_roots, add_root}
use cs_161_s21_problem_sets.Buddy.InitRanges.{Initialized, init_kalloc_lem}
use cs_161_s21_problem_sets.Buddy.Books.{IsValid}
use cs_161_s21_problem_sets.Buddy.Alloc.{Allocated, alloc_block-cases}
use cs_161_s21_problem_sets.Buddy.Search.{NoneLeft}
use cs_161_s21_problem_sets.Buddy.Free.{Freed, free_block_lem}
use cs_161_s21_problem_sets.Buddy.RoundTrip.{
  free_block-alloc_block, free_block-free_block, allocs_apart,
}
use cs_161_s21_problem_sets.Buddy.Sample.{
  five_pages, five_pages-Aligned, pool, pool-Initialized, lent, lent_returned, lent-IsValid,
  pair_or_nothing,
}

alloc_block-cases_example :
    ((alloc_block 1 pool ≡ none) × NoneLeft 1 pool)
    ⊎ ((blk : ℕ) × (s' : Pages) × (alloc_block 1 pool ≡ some (blk, s')) × Allocated 1 pool blk s')
alloc_block-cases_example = alloc_block-cases 1 pool (omega arith) pool-Initialized.valid

free_block_lem_example :
    (n : ℕ) × (s' : Pages) × (free_block 2 lent ≡ some (ok s')) × Freed n lent 2 s'
free_block_lem_example = free_block_lem 2 lent lent-IsValid lent_returned

free_block-free_block_small :
    (s' : Pages) × (free_block 2 lent ≡ some (ok s')) × (free_block 2 s' ≡ some panic)
free_block-free_block_small = free_block-free_block 2 lent lent-IsValid lent_returned

free_block-alloc_block_example :
    (alloc_block 2 pool ≡ none)
    ⊎ ((blk : ℕ) × (s' s'' : Pages) × (alloc_block 2 pool ≡ some (blk, s'))
        × (free_block blk s' ≡ some (ok s''))
        × IsValid s''
        × (s''.free ≡ pool.free)
        × (s''.returned ≡ pool.returned))
free_block-alloc_block_example = free_block-alloc_block 2 pool (omega arith) pool-Initialized.valid

first_lent : alloc_block 1 pool ≡ some (2, lent)
unfolding alloc_block init_kalloc init_from add_roots add_root largest_fitting_ord find_block
    next_best break_down hand_out push_back
first_lent = refl

then_lent : alloc_block 1 lent ≡ some (4, pair_or_nothing (alloc_block 1 lent))
unfolding alloc_block init_kalloc init_from add_roots add_root largest_fitting_ord find_block
    next_best break_down hand_out push_back
then_lent = refl

-- The page 3 is in the first block of two pages, at 2, and so not in the second, at 4.
allocs_apart_example : ¬ InBlock 1 4 3
allocs_apart_example =
    allocs_apart 1 1 2 4 3 pool lent (pair_or_nothing (alloc_block 1 lent)) (omega arith)
      (omega arith) pool-Initialized.valid first_lent then_lent (omega arith, omega arith)

order_lem_example : CeilLog 5000 (order 5000 false)
order_lem_example = order_lem 5000 (omega arith) (omega arith)

init_kalloc_lem_example : (s : Pages) × (init_kalloc five_pages ≡ ok s) × Initialized five_pages s
init_kalloc_lem_example = init_kalloc_lem five_pages five_pages-Aligned
