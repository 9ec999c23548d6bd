-- ===== src/Kalloc/State.antt =====
-- What `kalloc` and `kfree` share, and the two functions, with their lock held.
use cs_161_s21_problem_sets.Prelude.{
  ℕ, zero, suc, ◌+◌, ◌-◌, ◌*◌, ◌%◌, ◌^◌, Bool, false, ◌&&◌, ◌||◌, Option, none, some, List, Outcome,
  ok, panic, ◌>>=◌, ltb, leb, ◌==◌, if◌then◌else◌, get_elem?, set,
}
use cs_161_s21_problem_sets.Slab.State.{
  Slab, Chunk, Geometry, small_geometry, big_geometry, slab_canary, is_full, give, receive,
}
use cs_161_s21_problem_sets.Buddy.State.{Pages, alloc_block, free_block}
use cs_161_s21_problem_sets.Buddy.Order.{order}

pub record Heap : Type 0 where
  pub disabled : Bool
  pub smallslabs : List Slab
  pub bigslabs : List Slab
  pub pages : Pages

-- What a pointer points to: the data of a chunk, by the index of its slab and its own, or a page.
pub data Pointer : Type 0 where
  small_chunk big_chunk : ℕ → ℕ → Pointer
  page : ℕ → Pointer

-- The walk over `k` slabs from the `i`-th on: the first that is not full gives a chunk.
unfoldable pub give_from : Geometry → ℕ → ℕ → List Slab → Outcome (Option (ℕ × ℕ × List Slab))
give_from g zero i slabs = ok none
give_from g (suc k) i slabs = elim (get_elem? slabs i) [
  | none ↦ panic
  | some s ↦
      if is_full s.state
      then give_from g k (i + 1) slabs
      else (give g s >>= λ given. ok (some (i, given.0, set slabs i given.1)))
]

-- STATIC_SMALL_SLABS and STATIC_BIG_SLABS
abbrev pub static_small_slabs : ℕ
static_small_slabs = 2

abbrev pub static_big_slabs : ℕ
static_big_slabs = 1

-- An allocation by `order`, at least a page.
unfoldable pub alloc_pages : ℕ → Heap → Option Pointer × Heap
alloc_pages sz h =
    let ord = order sz false in
    elim (alloc_block ((if leb 12 ord then ord else 12) - 12) h.pages) [
      | none ↦ (none, h)
      | some (blk, s) ↦ (some (page blk), record h { pages = s })
    ]

-- The walk over the big slabs, and the pages if they are full.
unfoldable pub alloc_big : ℕ → Heap → Outcome (Option Pointer × Heap)
alloc_big sz h = give_from big_geometry static_big_slabs 0 h.bigslabs >>= λ r. elim r [
  | none ↦ ok (alloc_pages sz h)
  | some (i, c, slabs) ↦ ok (some (big_chunk i c), record h { bigslabs = slabs })
]

unfoldable pub alloc_small : ℕ → Heap → Outcome (Option Pointer × Heap)
alloc_small sz h = give_from small_geometry static_small_slabs 0 h.smallslabs >>= λ r. elim r [
  | none ↦ alloc_big sz h
  | some (i, c, slabs) ↦ ok (some (small_chunk i c), record h { smallslabs = slabs })
]

-- `kalloc` behind the test that tests use.
unfoldable pub request : ℕ → Heap → Outcome (Option Pointer × Heap)
request sz h =
    if sz == 0 || ltb (2 ^ 21) sz
    then ok (none, h)
    else if leb sz (512 - 8)
    then (if leb sz (128 - 8) then alloc_small sz h else alloc_big sz h)
    else ok (alloc_pages sz h)

-- `kalloc`; no pointer is a null pointer.
unfoldable pub kalloc : ℕ → Heap → Outcome (Option Pointer × Heap)
kalloc sz h = if h.disabled then ok (none, h) else request sz h

-- The int six bytes before the data: the index of the slab, an unsigned short, and the lower half of
-- the canary.
abbrev pub chunk_ind : Chunk → ℕ
chunk_ind c = c.ind + (c.canary % 2 ^ 16) * 2 ^ 16

-- The loop over `k` slabs from the `i`-th on. A chunk's address is inside its own slab alone, and a
-- page's inside none: `slab` and `chunk` are the pointer's, if it has them.
unfoldable pub receive_from :
    Geometry → ℕ → ℕ → Option (ℕ × ℕ) → ℕ → List Slab → Outcome (List Slab)
receive_from g zero i at ind slabs = ok slabs
receive_from g (suc k) i at ind slabs = elim at [
  | none ↦ receive_from g k (i + 1) none ind slabs
  | some (slab, chunk) ↦ (elim (get_elem? slabs i) [
    | none ↦ panic
    | some s ↦
        if slab == i && ind == s.ind
        then (receive g s chunk >>= λ s'.
            receive_from g k (i + 1) (some (slab, chunk)) ind (set slabs i s'))
        else receive_from g k (i + 1) (some (slab, chunk)) ind slabs
  ])
]

-- The slab part of `kfree`, the canary being right.
unfoldable pub free_chunk : Chunk → Option (ℕ × ℕ) → Option (ℕ × ℕ) → Heap → Outcome Heap
free_chunk c small big h =
    if c.sz == 128
    then (receive_from small_geometry static_small_slabs 0 small (chunk_ind c) h.smallslabs
        >>= λ slabs. ok (record h { smallslabs = slabs }))
    else if c.sz == 512
    then (receive_from big_geometry static_big_slabs 0 big (chunk_ind c) h.bigslabs >>= λ slabs.
        ok (record h { bigslabs = slabs }))
    else panic

-- The metadata of a chunk.
abbrev pub chunk_at : List Slab → ℕ → ℕ → Option Chunk
chunk_at slabs i c = elim (get_elem? slabs i) [ none ↦ none | some s ↦ get_elem? s.chunks c ]

-- `kfree`. `before` is what is in memory in the eight bytes before a page, read as a chunk's metadata. A chunk
-- with another canary is taken for a page, of the kernel's own data: no such page was returned by
-- `kalloc`, and an assertion fails. The outer none is that `free_block` ran out of fuel.
unfoldable pub kfree : (ℕ → Chunk) → Option Pointer → Heap → Option (Outcome Heap)
kfree before none h = some (ok h)
kfree before (some (small_chunk i c)) h = elim (chunk_at h.smallslabs i c) [
  | none ↦ some panic
  | some m ↦ some (if m.canary == slab_canary then free_chunk m (some (i, c)) none h else panic)
]
kfree before (some (big_chunk i c)) h = elim (chunk_at h.bigslabs i c) [
  | none ↦ some panic
  | some m ↦ some (if m.canary == slab_canary then free_chunk m none (some (i, c)) h else panic)
]
kfree before (some (page p)) h =
    if (before p).canary == slab_canary
    then some (free_chunk (before p) none none h)
    else (elim (free_block p h.pages) [
      | none ↦ none
      | some panic ↦ some panic
      | some (ok s) ↦ some (ok (record h { pages = s }))
    ])
