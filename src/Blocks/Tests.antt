-- ===== src/Blocks/Tests.antt =====
-- Runs of the bitmap search, and the theorems at a bitmap whose blocks from 70 to 99 are free.
use cs_161_s21_problem_sets.Prelude.{
  ℕ, ◌+◌, ◌-◌, ◌≤◌, ◌<◌, ◌≡◌, refl, ◌⊎◌, true, false, ◌&&◌, Option, none, some, Outcome, ok, panic,
  arith, ltb, leb, ◌==◌, min,
}
use cs_161_s21_problem_sets.Errno.{fbig, nospc}
use cs_161_s21_problem_sets.Blocks.Bits.{Words, bit, find_bit}
use cs_161_s21_problem_sets.Blocks.Search.{Finds, find_bit-Finds}
use cs_161_s21_problem_sets.Blocks.State.{
  bits_per_block, find_free_range, Extent, first_block, error, allocate_extent, free_extent,
}
use cs_161_s21_problem_sets.Blocks.Extent.{Free, NoneFrom, FirstFit, find_free_range-FirstFit}
use cs_161_s21_problem_sets.Blocks.Allocate.{
  Marked, allocate_extent_lem, free_extent-allocate_extent, extents_disjoint,
}

abbrev disk : Words
disk w b = w == 1 && (leb 6 b && ltb b 36)

finds_70 : find_bit disk 32768 true 3 32765 ≡ 70
unfolding find_bit
finds_70 = refl

find_bit-Finds_small : Finds disk true 3 (min (32768 - 3) 100 + 3) (find_bit disk 32768 true 3 100)
find_bit-Finds_small = find_bit-Finds disk 32768 true 3 100 (omega arith) (omega arith)

find_free_range-FirstFit_example :
    (o : Option ℕ) × (find_free_range disk 8 0 ≡ some (ok o)) × FirstFit disk 8 0 o
find_free_range-FirstFit_example = find_free_range-FirstFit disk 8 0 (omega arith) (omega arith)

allocate_extent_lem_example :
    ((bits_per_block < 8) × (allocate_extent true disk 8 ≡ some (ok (error fbig, disk))))
    ⊎ (NoneFrom disk 8 0 bits_per_block
        × (allocate_extent true disk 8 ≡ some (ok (error nospc, disk))))
    ⊎ ((b : ℕ) × (v' : Words) × (allocate_extent true disk 8 ≡ some (ok (first_block b, v')))
        × (b + 8 ≤ bits_per_block)
        × Free disk b 8
        × NoneFrom disk 8 0 b
        × Marked disk b 8 false v')
allocate_extent_lem_example = allocate_extent_lem disk 8 (omega arith)

-- The bitmap behind a successful allocation.
abbrev after : Option (Outcome (Extent × Words)) → Words
after none = disk
after (some panic) = disk
after (some (ok (e, v))) = v

abbrev disk1 : Words
disk1 = after (allocate_extent true disk 2)

allocates_first : allocate_extent true disk 2 ≡ some (ok (first_block 70, disk1))
unfolding allocate_extent find_bit
allocates_first = refl

abbrev disk2 : Words
disk2 = after (allocate_extent true disk1 3)

allocates_second : allocate_extent true disk1 3 ≡ some (ok (first_block 72, disk2))
unfolding allocate_extent find_bit
allocates_second = refl

free_extent-allocate_extent_example :
    (v'' : Words) × (free_extent disk1 70 2 ≡ ok v'') × ((j : ℕ) → bit v'' j ≡ bit disk j)
free_extent-allocate_extent_example =
    free_extent-allocate_extent disk disk1 2 70 (omega arith) allocates_first

extents_disjoint_example : (70 + 2 ≤ 72) ⊎ (72 + 3 ≤ 70)
extents_disjoint_example =
    extents_disjoint disk disk1 disk2 2 3 70 72 (omega arith) (omega arith) allocates_first
      allocates_second
