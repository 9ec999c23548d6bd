-- ===== src/Blocks/Allocate.antt =====
-- `allocate_extent` and `free_extent`: which blocks they mark.
use cs_161_s21_problem_sets.Prelude.{
  ℕ, zero, suc, ◌+◌, ◌^◌, ◌≤◌, ◌<◌, ◌≡◌, refl, sym, ◌∙◌, ◌⊎◌, inl, inr, Bool, true, false, ◌&&◌,
  Option, none, some, ok, arith, ltb, leb, lt→ltb, ◌==◌, if◌then◌else◌, Bool-cases,
}
use cs_161_s21_problem_sets.Errno.{fbig, nospc}
use cs_161_s21_problem_sets.Blocks.Bits.{Words, bit, put_bit}
use cs_161_s21_problem_sets.Blocks.State.{
  bits_per_block, find_free_range, mark_blocks, first_block, error, take_range, allocate_extent,
  free_extent,
}
use cs_161_s21_problem_sets.Blocks.Extent.{Free, NoneFrom, FirstFit, find_free_range-FirstFit}

bit-put_bit :
    (v : Words) (i j : ℕ) (x : Bool) → bit (put_bit v i x) j ≡ (if j == i then x else bit v j)
bit-put_bit v i j x = ground arith

-- The bits `v'` are those of `v` with the `count` from `first` on set to `x`.
abbrev pub Marked : Words → ℕ → ℕ → Bool → Words → Type 0
Marked v first count x v' =
    (j : ℕ) → bit v' j ≡ (if leb first j && ltb j (first + count) then x else bit v j)

mark_blocks-suc :
    (count : ℕ) (v : Words) (first : ℕ) (x : Bool)
    → first < bits_per_block
    → mark_blocks (suc count) v first x ≡ mark_blocks count (put_bit v first x) (first + 1) x
unfolding mark_blocks
mark_blocks-suc count v first true h =
    let a : ltb first bits_per_block ≡ true = lt→ltb first bits_per_block h in
    let b : bit (put_bit v first true) first ≡ true = ground arith in rw (a, b) refl
mark_blocks-suc count v first false h =
    let a : ltb first bits_per_block ≡ true = lt→ltb first bits_per_block h in
    let b : bit (put_bit v first false) first ≡ false = ground arith in rw (a, b) refl

mark_blocks-Marked :
    (count : ℕ) (v : Words) (first : ℕ) (x : Bool)
    → first + count ≤ bits_per_block
    → (v' : Words) × (mark_blocks count v first x ≡ ok v') × Marked v first count x v'
unfolding mark_blocks
mark_blocks-Marked zero v first x h = (v, refl, λ j. ground arith)
mark_blocks-Marked (suc count) v first x h =
    let (v', e, m) = mark_blocks-Marked count (put_bit v first x) (first + 1) x (omega arith) in
    (
      v',
      mark_blocks-suc count v first x (omega arith) ∙ e,
      λ j. m j ∙ widen j (bit (put_bit v first x) j) (bit v j) (bit-put_bit v first j x),
    )
  where
    widen :
        (j : ℕ) (b c : Bool)
        → b ≡ (if j == first then x else c)
        → (if leb (first + 1) j && ltb j (first + 1 + count) then x else b)
          ≡ (if leb first j && ltb j (first + suc count) then x else c)
    widen j b c e = ground arith

not_big : (count : ℕ) → count ≤ 2 ^ 15 → ltb (2 ^ 15) count ≡ false
not_big count h = ground arith

allocate_extent-big :
    (v : Words) (count : ℕ)
    → bits_per_block < count
    → allocate_extent true v count ≡ some (ok (error fbig, v))
unfolding allocate_extent
allocate_extent-big v count h =
    let big : ltb (2 ^ 15) count ≡ true = lt→ltb (2 ^ 15) count h in rw big refl

allocate_extent-runs :
    (v v' : Words) (count first : ℕ)
    → count ≤ 2 ^ 15
    → find_free_range v count 0 ≡ some (ok (some first))
    → mark_blocks count v first false ≡ ok v'
    → allocate_extent true v count ≡ some (ok (first_block first, v'))
unfolding allocate_extent take_range
allocate_extent-runs v v' count first h e f =
    let small : ltb (2 ^ 15) count ≡ false = not_big count h in rw (small, e) (rw f refl)

allocate_extent-none :
    (v : Words) (count : ℕ)
    → count ≤ 2 ^ 15
    → find_free_range v count 0 ≡ some (ok none)
    → allocate_extent true v count ≡ some (ok (error nospc, v))
unfolding allocate_extent take_range
allocate_extent-none v count h e =
    let small : ltb (2 ^ 15) count ≡ false = not_big count h in rw (small, e) refl

-- `allocate_extent` of one block or more, with the bitmap loaded, ends and no assertion fails. It
-- refuses more blocks than the bitmap has; or it answers that there is no space, no range that
-- long being free, and leaves the bitmap; or it answers the first range of blocks that were all
-- free, and marks these as taken and changes no other.
pub allocate_extent_lem :
    (v : Words) (count : ℕ)
    → 0 < count
    → ((bits_per_block < count) × (allocate_extent true v count ≡ some (ok (error fbig, v))))
      ⊎ (NoneFrom v count 0 bits_per_block
          × (allocate_extent true v count ≡ some (ok (error nospc, v))))
      ⊎ ((b : ℕ) × (v' : Words) × (allocate_extent true v count ≡ some (ok (first_block b, v')))
          × (b + count ≤ bits_per_block)
          × Free v b count
          × NoneFrom v count 0 b
          × Marked v b count false v')
allocate_extent_lem v count pos = elim (Bool-cases (ltb bits_per_block count)) [
  | inl big ↦
      let h : bits_per_block < count = ground arith in inl (h, allocate_extent-big v count h)
  | inr small ↦
      let (o, e, w) = find_free_range-FirstFit v count 0 pos (omega arith) in
      inr (taken o e w (ground arith))
]
  where
    taken :
        (o : Option ℕ)
        → find_free_range v count 0 ≡ some (ok o)
        → FirstFit v count 0 o
        → count ≤ 2 ^ 15
        → (NoneFrom v count 0 bits_per_block
            × (allocate_extent true v count ≡ some (ok (error nospc, v))))
          ⊎ ((b : ℕ) × (v' : Words) × (allocate_extent true v count ≡ some (ok (first_block b, v')))
              × (b + count ≤ bits_per_block)
              × Free v b count
              × NoneFrom v count 0 b
              × Marked v b count false v')
    taken none e w h = inl (w, allocate_extent-none v count h e)
    taken (some b) e (_, fits, free, first) h =
        let (v', f, m) = mark_blocks-Marked count v b false fits in
        inr (b, v', allocate_extent-runs v v' count b h e f, fits, free, first, m)

-- A successful allocation, read backwards.
allocated :
    (v v' : Words) (count b : ℕ)
    → 0 < count
    → allocate_extent true v count ≡ some (ok (first_block b, v'))
    → (b + count ≤ bits_per_block) × Free v b count × Marked v b count false v'
allocated v v' count b pos e = elim (allocate_extent_lem v count pos) [
  | inl (_, f) ↦ absurd cc
  | inr (inl (_, f)) ↦ absurd cc
  | inr (inr (b0, v0, f, fits, free, _, m)) ↦
      let same_b : b0 ≡ b = ground arith in
      let same_v : v0 ≡ v' = ground arith in rw (← same_b, ← same_v) (fits, free, m)
]

-- Freeing the extent of one block or more that an allocation has returned puts every bit of the
-- bitmap back, and no assertion fails.
pub free_extent-allocate_extent :
    (v v' : Words) (count b : ℕ)
    → 0 < count
    → allocate_extent true v count ≡ some (ok (first_block b, v'))
    → (v'' : Words) × (free_extent v' b count ≡ ok v'') × ((j : ℕ) → bit v'' j ≡ bit v j)
unfolding free_extent
free_extent-allocate_extent v v' count b pos e =
    let (fits, free, m) = allocated v v' count b pos e in
    let (v'', f, m') = mark_blocks-Marked count v' b true fits in
    (v'', f, λ j. m' j ∙ back free j (bit v' j) (m j))
  where
    back :
        Free v b count
        → (j : ℕ) (x : Bool) → x ≡ (if leb b j && ltb j (b + count) then false else bit v j)
        → (if leb b j && ltb j (b + count) then true else x) ≡ bit v j
    back free j x e = elim (Bool-cases (leb b j && ltb j (b + count))) [
      | inl inside ↦ rw inside (sym (free j (ground arith) (ground arith)))
      | inr outside ↦ rw outside (rw outside at e)
    ]

-- Two extents of one block or more allocated one after the other have no block in common.
pub extents_disjoint :
    (v v1 v2 : Words) (count1 count2 b1 b2 : ℕ)
    → 0 < count1
    → 0 < count2
    → allocate_extent true v count1 ≡ some (ok (first_block b1, v1))
    → allocate_extent true v1 count2 ≡ some (ok (first_block b2, v2))
    → (b1 + count1 ≤ b2) ⊎ (b2 + count2 ≤ b1)
extents_disjoint v v1 v2 count1 count2 b1 b2 pos1 pos2 e1 e2 =
    let (_, _, m1) = allocated v v1 count1 b1 pos1 e1 in
    let (_, free2, _) = allocated v1 v2 count2 b2 pos2 e2 in
    elim (Bool-cases (leb (b1 + count1) b2)) [
      | inl left ↦ inl (ground arith)
      | inr not_left ↦ elim (Bool-cases (leb (b2 + count2) b1)) [
        | inl right ↦ inr (ground arith)
        | inr not_right ↦
            let j = if leb b1 b2 then b2 else b1 in
            let inside : (leb b1 j && ltb j (b1 + count1)) ≡ true = ground arith in
            let was : bit v1 j ≡ false = rw inside at (m1 j) in
            absurd (clash was (free2 j (ground arith) (ground arith)))
      ]
    ]
  where
    clash : {b : Bool} → b ≡ false → b ≡ true → ⊥
    clash e f = cc
