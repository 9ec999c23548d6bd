-- ===== src/Memory/Tests.antt =====
-- The theorems of the memory functions at a small memory.
use cs_161_s21_problem_sets.Prelude.{
  ℕ, ◌+◌, ◌*◌, ◌<◌, ◌≡◌, ◌⊎◌, inr, none, some, arith, ltb, leb, if◌then◌else◌, ◌&&◌, refl, ◌%◌,
}
use cs_161_s21_problem_sets.Memory.Copy.{
  Mem, memcpy, memmove, memset, copied, copy_up, copy_down, memcpy_lem, memmove_lem, memset_lem,
}
use cs_161_s21_problem_sets.Memory.Compare.{
  memcmp, memchr, Ordered, memcmp-Ordered, Absent, memchr_lem,
}

abbrev squares : Mem
squares a = (a * a) % 256

-- Byte 13 is the old byte 11, though `memmove` had overwritten neither.
overlap : memmove squares 12 10 4 13 ≡ 121
unfolding memmove copy_down copy_up
overlap = refl

memcpy_lem_small : memcpy squares 20 10 4 21 ≡ copied squares 20 10 4 21
memcpy_lem_small = memcpy_lem squares 20 10 4 21 (inr (omega arith))

memmove_lem_example : memmove squares 12 10 4 13 ≡ copied squares 12 10 4 13
memmove_lem_example = memmove_lem squares 12 10 4 13

memset_lem_small :
    memset 3 squares 5 300 6 ≡ (if leb 5 6 && ltb 6 (5 + 3) then 300 % 256 else squares 6)
memset_lem_small = memset_lem 3 squares 5 300 6

memcmp-Ordered_small : Ordered squares 3 0 16 (memcmp 3 squares 0 16)
memcmp-Ordered_small = memcmp-Ordered 3 squares 0 16

memchr_lem_small :
    ((memchr 5 squares 1 265 ≡ none) × Absent squares 1 (265 % 256) 5)
    ⊎ ((i : ℕ) × (i < 5)
        × (memchr 5 squares 1 265 ≡ some (1 + i))
        × (squares (1 + i) ≡ 265 % 256)
        × Absent squares 1 (265 % 256) i)
memchr_lem_small = memchr_lem 5 squares 1 265
