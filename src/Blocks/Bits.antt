-- ===== src/Blocks/Bits.antt =====
-- `bitset_view`: an array of 64-bit words, each of them read as a function from the place of a bit.
use cs_161_s21_problem_sets.Prelude.{
  ℕ, zero, suc, ◌+◌, ◌-◌, ◌/◌, ◌%◌, ◌^◌, min, Bool, ◌&&◌, not, Option, none, some, ltb, ◌==◌,
  if◌then◌else◌,
}

abbrev pub Words : Type 0
Words = ℕ → ℕ → Bool

-- `operator[]`, and its assignment.
abbrev pub bit : Words → ℕ → Bool
bit v i = v (i / 64) (i % 64)

abbrev pub put_bit : Words → ℕ → Bool → Words
put_bit v i x w b = if w == i / 64 && b == i % 64 then x else v w b

-- `lsb` of a word (of its complement, if `want` is false) under the mask of the bits from `k` on: the
-- place of the first bit, of the `n` from `k` on, that has the value wanted.
unfoldable pub first_bit : ℕ → (ℕ → Bool) → Bool → ℕ → Option ℕ
first_bit zero word want k = none
first_bit (suc n) word want k =
    let rest = first_bit n word want (k + 1) in
    if (if want then word k else not (word k)) then some k else rest

-- The loop of `find_lsb` and `find_lsz`: `i` is the first bit of a word, `off` the mask's.
unfoldable pub find_word : ℕ → Words → Bool → ℕ → ℕ → ℕ → ℕ
unfolding first_bit
find_word zero v want i n off = n
find_word (suc fuel) v want i n off =
    let rest = find_word fuel v want (i + 64) n 0 in
    if ltb i n
    then (elim (first_bit (64 - off) (v (i / 64)) want off) [
      | none ↦ rest
      | some k ↦ min n (i + k)
    ])
    else n

-- `find_lsb`, and `find_lsz` if `want` is false, in a view of `size` bits: `n` is brought down to the
-- bits that are left. As many rounds as there are bits are more than enough.
unfoldable pub find_bit : Words → ℕ → Bool → ℕ → ℕ → ℕ
unfolding find_word
find_bit v size want i n =
    let last = min ((size + 2 ^ 64 - i) % 2 ^ 64) n + i in
    find_word (suc last) v want (i - i % 64) last (i % 64)
