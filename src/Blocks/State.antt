-- ===== src/Blocks/State.antt =====
-- `find_free_range`, `allocate_extent` and `free_extent` on the bitmap, in which a free block's bit is set.
use cs_161_s21_problem_sets.Prelude.{
  ℕ, zero, suc, ◌+◌, ◌-◌, ◌^◌, Bool, true, false, ◌&&◌, ◌||◌, not, Option, none, some, Outcome, ok,
  panic, assert, ◌>>=◌, ◌>>◌, ltb, ◌==◌, if◌then◌else◌,
}
use cs_161_s21_problem_sets.Errno.{Errno, fbig, nospc}
use cs_161_s21_problem_sets.Blocks.Bits.{Words, bit, put_bit, find_bit}

abbrev pub bits_per_block : ℕ
bits_per_block = 32768

-- `block_is_free`: the subscript asserts that the bit is in the view.
abbrev pub block_is_free : Words → ℕ → Outcome Bool
block_is_free v bn = do assert (ltb bn bits_per_block); ok (bit v bn)

-- The search of one round: the next free block, and the next one behind it that is not.
abbrev pub next_available : Words → ℕ → ℕ
next_available v last_searched = find_bit v bits_per_block true last_searched (2 ^ 64 - 1)

abbrev pub next_taken : Words → ℕ → ℕ → ℕ
next_taken v count available = find_bit v bits_per_block false available count

-- `find_free_range`: the first block of the range; none stands for -1. Each round begins at a later
-- bit than the one before, so that there are no more rounds than bits.
unfoldable pub search_free : ℕ → Words → ℕ → ℕ → Option (Outcome (Option ℕ))
search_free zero v count last_searched = none
search_free (suc fuel) v count last_searched =
    let available = next_available v last_searched in
    let taken = next_taken v count available in
    let rest = search_free fuel v count taken in
    if available == 2 ^ 64 - 1 || available == 2 ^ 15
    then some (ok none)
    else (elim (block_is_free v available) [
      | panic ↦ some panic
      | ok free ↦
          if not (free && ltb available taken)
          then some panic
          else if taken - available == count
          then some (ok (some available))
          else rest
    ])

unfoldable pub find_free_range : Words → ℕ → ℕ → Option (Outcome (Option ℕ))
unfolding search_free
find_free_range v count start = search_free (suc bits_per_block) v count start

-- The loop that marks the blocks of an extent as free, or as taken, and asserts that each one is.
unfoldable pub mark_blocks : ℕ → Words → ℕ → Bool → Outcome Words
mark_blocks zero v bn free = ok v
mark_blocks (suc i) v bn free = do
  assert (ltb bn bits_per_block)
  assert (if free then bit (put_bit v bn free) bn else not (bit (put_bit v bn free) bn))
  mark_blocks i (put_bit v bn free) (bn + 1) free

-- What `allocate_extent` returns: a block number or an error.
pub data Extent : Type 0 where
  first_block : ℕ → Extent
  error : Errno → Extent

-- The rest of `allocate_extent` behind the search.
unfoldable pub take_range : Words → ℕ → Option ℕ → Outcome (Extent × Words)
unfolding mark_blocks
take_range v count none = ok (error nospc, v)
take_range v count (some first) = do
  v' ← mark_blocks count v first false
  ok (first_block first, v')

-- `allocate_extent`; `loaded` says whether the buffer cache gave the entry of the bitmap.
unfoldable pub allocate_extent : Bool → Words → ℕ → Option (Outcome (Extent × Words))
unfolding find_free_range take_range
allocate_extent loaded v count =
    if ltb (2 ^ 15) count
    then some (ok (error fbig, v))
    else if not loaded
    then some (ok (error nospc, v))
    else (elim (find_free_range v count 0) [
      | none ↦ none
      | some panic ↦ some panic
      | some (ok range) ↦ some (take_range v count range)
    ])

-- `free_extent`, of a bitmap that the buffer cache has.
unfoldable pub free_extent : Words → ℕ → ℕ → Outcome Words
unfolding mark_blocks
free_extent v first count = mark_blocks count v first true
