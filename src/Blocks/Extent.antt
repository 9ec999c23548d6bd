-- ===== src/Blocks/Extent.antt =====
-- Extents: the search finds the first range that fits, and allocation and freeing mark just that range.
use cs_161_s21_problem_sets.Prelude.{
  ℕ, zero, suc, ◌+◌, ◌-◌, ◌^◌, ◌≤◌, ◌<◌, ◌≡◌, ◌≢◌, refl, ◌∙◌, inl, inr, Bool, true, false, ◌||◌,
  Option, none, some, ok, arith, ltb, lt→ltb, ◌==◌, min, Bool-cases,
}
use cs_161_s21_problem_sets.Blocks.Bits.{Words, bit}
use cs_161_s21_problem_sets.Blocks.Search.{Finds, find_bit-Finds}
use cs_161_s21_problem_sets.Blocks.State.{
  bits_per_block, next_available, next_taken, search_free, find_free_range,
}

-- The `count` blocks from `b` on are free.
abbrev pub Free : Words → ℕ → ℕ → Type 0
Free v b count = (j : ℕ) → b ≤ j → j < b + count → bit v j ≡ true

-- No range of `count` free blocks begins at or behind `lo` and before `hi`.
abbrev pub NoneFrom : Words → ℕ → ℕ → ℕ → Type 0
NoneFrom v count lo hi = (b : ℕ) → lo ≤ b → b < hi → b + count ≤ bits_per_block → Free v b count → ⊥

-- What the search answers: none if there is no such range, else the first.
abbrev pub FirstFit : Words → ℕ → ℕ → Option ℕ → Type 0
FirstFit v count start none = NoneFrom v count start bits_per_block
FirstFit v count start (some b) =
    (start ≤ b) × (b + count ≤ bits_per_block) × Free v b count × NoneFrom v count start b

module _ (v : Words) (count start : ℕ) (some_wanted : 0 < count)
    (in_view : start ≤ bits_per_block) where
  available : ℕ
  available = next_available v start

  taken : ℕ
  unfolding available
  taken = next_taken v count available

  available-Finds : Finds v true start bits_per_block available
  unfolding available
  available-Finds =
      let last : min (bits_per_block - start) (2 ^ 64 - 1) + start ≡ bits_per_block = omega arith in
      rw last at (find_bit-Finds v bits_per_block true start (2 ^ 64 - 1) in_view (omega arith))

  taken-Finds : Finds v false available (min (bits_per_block - available) count + available) taken
  unfolding taken
  taken-Finds =
      find_bit-Finds v bits_per_block false available count available-Finds.below (omega arith)

  none-before : NoneFrom v count start available
  none-before b lo hi le free = available-Finds.before b lo hi (free b (omega arith) (omega arith))

  taken-later : available < bits_per_block → available < taken
  taken-later lt = elim (Bool-cases (ltb available taken)) [
    | inl yes_later ↦ ground arith
    | inr no_later ↦
        let e : taken ≡ available = ground (arith, taken-Finds.above) in
        let f : bit v available ≡ false = rw e at (taken-Finds.here (omega (arith, e))) in
        absurd (clash f (available-Finds.here lt))
  ]
    where
      clash : {b : Bool} → b ≡ false → b ≡ true → ⊥
      clash e f = cc

  range-Free : taken ≡ available + count → Free v available count
  range-Free e j lo hi = elim (Bool-cases (bit v j)) [
    | inl t ↦ t
    | inr f ↦ absurd (taken-Finds.before j lo (omega (arith, e)) f)
  ]

  -- Where the free blocks are too few, no range begins before their end.
  none-skipped :
      available < bits_per_block → taken ≢ available + count → NoneFrom v count start taken
  none-skipped lt ne b lo hi le free = elim (Bool-cases (ltb b available)) [
    | inl low ↦ none-before b lo (ground arith) le free
    | inr high ↦
        let from : available ≤ b = ground arith in
        let cut : taken < min (bits_per_block - available) count + available =
          omega (arith, taken-Finds.below, le, from, hi, ne) in
        absurd (clash (taken-Finds.here cut) (free taken (omega arith) (omega (arith, cut))))
  ]
    where
      clash : {b : Bool} → b ≡ false → b ≡ true → ⊥
      clash e f = cc

search_free-end :
    (fuel : ℕ) (v : Words) (count start : ℕ)
    → next_available v start ≡ bits_per_block
    → search_free (suc fuel) v count start ≡ some (ok none)
unfolding search_free
search_free-end fuel v count start e = rw (e, search_free) refl

-- The tests of a round that finds a free block.
module _ (v : Words) (count start : ℕ) (lt : next_available v start < bits_per_block)
    (free : bit v (next_available v start) ≡ true)
    (later : next_available v start < next_taken v count (next_available v start)) where
  not_last : (next_available v start == 2 ^ 64 - 1 || next_available v start == 2 ^ 15) ≡ false
  not_last = tests (next_available v start) lt
    where
      tests : (x : ℕ) → x < bits_per_block → (x == 2 ^ 64 - 1 || x == 2 ^ 15) ≡ false
      tests x h = ground arith

  in_range : ltb (next_available v start) bits_per_block ≡ true
  in_range = lt→ltb (next_available v start) bits_per_block lt

  is_later : ltb (next_available v start) (next_taken v count (next_available v start)) ≡ true
  is_later = lt→ltb (next_available v start) _ later

  search_free-found :
      (fuel : ℕ)
      → next_taken v count (next_available v start) ≡ next_available v start + count
      → search_free (suc fuel) v count start ≡ some (ok (some (next_available v start)))
  unfolding search_free
  search_free-found fuel e =
      let fits : (next_taken v count (next_available v start) - next_available v start == count)
          ≡ true =
        fits_lem (next_taken v count (next_available v start)) (next_available v start) e in
      rw (not_last, search_free, in_range, free, is_later, fits) refl
    where
      fits_lem : (x y : ℕ) → x ≡ y + count → (x - y == count) ≡ true
      fits_lem x y e = ground arith

  search_free-next :
      (fuel : ℕ)
      → next_taken v count (next_available v start) ≢ next_available v start + count
      → search_free (suc fuel) v count start
        ≡ search_free fuel v count (next_taken v count (next_available v start))
  unfolding search_free
  search_free-next fuel ne =
      let short : (next_taken v count (next_available v start) - next_available v start == count)
          ≡ false =
        short_lem (next_taken v count (next_available v start)) (next_available v start) later ne in
      rw (not_last, search_free, in_range, free, is_later, short) refl
    where
      short_lem : (x y : ℕ) → y < x → x ≢ y + count → (x - y == count) ≡ false
      short_lem x y lt ne = ground arith

FirstFit-later :
    (v : Words) (count lo mid : ℕ) (o : Option ℕ)
    → lo ≤ mid
    → NoneFrom v count lo mid
    → FirstFit v count mid o
    → FirstFit v count lo o
FirstFit-later v count lo mid none le h rest = λ b from upto. elim (Bool-cases (ltb b mid)) [
  | inl low ↦ h b from (ground arith)
  | inr high ↦ rest b (ground arith) upto
]
FirstFit-later v count lo mid (some x) le h (from, fits, free, rest) = (
  omega arith,
  fits,
  free,
  λ b lo' hi'. elim (Bool-cases (ltb b mid)) [
    | inl low ↦ h b lo' (ground arith)
    | inr high ↦ rest b (ground arith) hi'
  ],
)

search_free-FirstFit :
    (fuel : ℕ) (v : Words) (count start : ℕ)
    → 0 < count
    → start ≤ bits_per_block
    → bits_per_block - start < fuel
    → (o : Option ℕ) × (search_free fuel v count start ≡ some (ok o)) × FirstFit v count start o
unfolding available taken
search_free-FirstFit zero v count start pos in_view enough = absurd (omega arith)
search_free-FirstFit (suc fuel) v count start pos in_view enough =
    let av = next_available v start in
    let tk = next_taken v count av in
    let f = available-Finds v count start pos in_view in
    let g = taken-Finds v count start pos in_view in
    elim (Bool-cases (av == bits_per_block)) [
      | inl end ↦
          let e : av ≡ bits_per_block = ground arith in
          (
            none,
            search_free-end fuel v count start e,
            rw e at (none-before v count start pos in_view),
          )
      | inr more ↦
          let lt : av < bits_per_block = ground (arith, f.below) in
          let free = f.here lt in
          let later = taken-later v count start pos in_view lt in
          elim (Bool-cases (tk == av + count)) [
            | inl fit ↦
                let e : tk ≡ av + count = ground arith in
                (
                  some av,
                  search_free-found v count start lt free later fuel e,
                  (
                    f.above,
                    omega (arith, e, g.below, lt),
                    range-Free v count start pos in_view e,
                    none-before v count start pos in_view,
                  ),
                )
            | inr short ↦
                let ne : tk ≢ av + count = ground arith in
                let (o, e, w) =
                  search_free-FirstFit fuel v count tk pos (omega (arith, g.below, lt))
                    (omega (arith, later, f.above)) in
                (
                  o,
                  search_free-next v count start lt free later fuel ne ∙ e,
                  FirstFit-later v count start tk o (omega (arith, later, f.above))
                      (none-skipped v count start pos in_view lt ne) w,
                )
          ]
    ]

-- `find_free_range` of one block or more, from any bit of the bitmap on, ends, no assertion
-- fails, and it answers the first range of free blocks that is long enough, or -1 if there is
-- none.
pub find_free_range-FirstFit :
    (v : Words) (count start : ℕ)
    → 0 < count
    → start ≤ bits_per_block
    → (o : Option ℕ) × (find_free_range v count start ≡ some (ok o)) × FirstFit v count start o
unfolding find_free_range
find_free_range-FirstFit v count start pos in_view =
    search_free-FirstFit (suc bits_per_block) v count start pos in_view (omega arith)
