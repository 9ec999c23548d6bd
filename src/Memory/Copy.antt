-- ===== src/Memory/Copy.antt =====
-- `memcpy`, `memmove` and `memset`: what each of them writes.
use cs_161_s21_problem_sets.Prelude.{
  ℕ, zero, suc, ◌+◌, ◌-◌, ◌%◌, ◌≤◌, ◌<◌, ◌≡◌, ◌∙◌, ◌&&◌, ◌⊎◌, inl, inr, arith, ltb, leb, ◌==◌,
  if◌then◌else◌, Bool-cases,
}

abbrev pub Mem : Type 0
Mem = ℕ → ℕ

abbrev pub store : Mem → ℕ → ℕ → Mem
store m a v j = if a == j then v else m j

-- `*d = *s` upwards: the loop of `memcpy`, and the second one of `memmove`.
unfoldable pub copy_up : ℕ → Mem → ℕ → ℕ → Mem
copy_up zero m dst src = m
copy_up (suc n) m dst src = copy_up n (store m dst (m src)) (dst + 1) (src + 1)

-- `*--d = *--s` from the ends of the ranges: the first loop of `memmove`.
unfoldable pub copy_down : ℕ → Mem → ℕ → ℕ → Mem
copy_down zero m dst src = m
copy_down (suc n) m dst src = copy_down n (store m (dst + n) (m (src + n))) dst src

unfoldable pub memcpy : Mem → ℕ → ℕ → ℕ → Mem
memcpy m dst src n = copy_up n m dst src

unfoldable pub memmove : Mem → ℕ → ℕ → ℕ → Mem
memmove m dst src n =
    if ltb src dst && ltb dst (src + n) then copy_down n m dst src else copy_up n m dst src

-- `*p = c`; the int is cut to a char.
unfoldable pub memset : ℕ → Mem → ℕ → ℕ → Mem
memset zero m p c = m
memset (suc n) m p c = memset n (store m p (c % 256)) (p + 1) c

-- The memory `m` with the `n` bytes from `src` also at `dst`.
abbrev pub copied : Mem → ℕ → ℕ → ℕ → Mem
copied m dst src n a = if leb dst a && ltb a (dst + n) then m (src + (a - dst)) else m a

copy_down-copied :
    (n : ℕ) (m : Mem) (dst src a : ℕ) → src < dst → copy_down n m dst src a ≡ copied m dst src n a
unfolding copy_down
copy_down-copied zero m dst src a h = ground arith
copy_down-copied (suc n) m dst src a h =
    copy_down-copied n (store m (dst + n) (m (src + n))) dst src a h ∙ ground arith

copy_up-copied :
    (n : ℕ) (m : Mem) (dst src a : ℕ)
    → (dst ≤ src) ⊎ (src + n ≤ dst)
    → copy_up n m dst src a ≡ copied m dst src n a
unfolding copy_up
copy_up-copied zero m dst src a h = ground arith
copy_up-copied (suc n) m dst src a h =
    copy_up-copied n (store m dst (m src)) (dst + 1) (src + 1) a (omega arith) ∙ ground arith

-- After `memcpy` between ranges that do not overlap, or downwards, the destination holds what the
-- source held before, and every other byte is what it was.
pub memcpy_lem :
    (m : Mem) (dst src n a : ℕ)
    → (dst ≤ src) ⊎ (src + n ≤ dst)
    → memcpy m dst src n a ≡ copied m dst src n a
unfolding memcpy
memcpy_lem m dst src n a h = copy_up-copied n m dst src a h

-- After `memmove` the destination holds what the source held before, however the two ranges
-- overlap, and every other byte is what it was.
pub memmove_lem : (m : Mem) (dst src n a : ℕ) → memmove m dst src n a ≡ copied m dst src n a
unfolding memmove
memmove_lem m dst src n a = elim (Bool-cases (ltb src dst && ltb dst (src + n))) [
  | inl over ↦ rw over (copy_down-copied n m dst src a (ground arith))
  | inr not_over ↦ rw not_over (copy_up-copied n m dst src a (ground arith))
]

-- `memset` writes its byte to the range and nowhere else.
pub memset_lem :
    (n : ℕ) (m : Mem) (p c a : ℕ)
    → memset n m p c a ≡ (if leb p a && ltb a (p + n) then c % 256 else m a)
unfolding memset
memset_lem zero m p c a = ground arith
memset_lem (suc n) m p c a = ground (arith, memset_lem n (store m p (c % 256)) (p + 1) c a)
