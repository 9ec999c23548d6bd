-- ===== src/Kalloc/Allocate.antt =====
-- `kalloc` of a valid heap.
use cs_161_s21_problem_sets.Prelude.{
  ℕ, ◌+◌, ◌-◌, ◌^◌, ◌≤◌, ◌<◌, ◌≡◌, refl, ap, ◌∙◌, ◌⊎◌, inl, inr, true, false, ◌||◌, Option, none,
  some, Outcome, ok, ltb, leb, ◌==◌, if◌then◌else◌, Bool-cases, arith, pow_two_le,
}
use cs_161_s21_problem_sets.Slab.State.{small_geometry, big_geometry}
use cs_161_s21_problem_sets.Buddy.Search.{NoneLeft}
use cs_161_s21_problem_sets.Buddy.Alloc.{Allocated, alloc_block-cases}
use cs_161_s21_problem_sets.Buddy.Order.{order}
use cs_161_s21_problem_sets.Buddy.CeilLog.{order_lem}
use cs_161_s21_problem_sets.Buddy.InitRoots.{exponent_under}
use cs_161_s21_problem_sets.Kalloc.State.{
  Heap, Pointer, small_chunk, big_chunk, page, alloc_pages, alloc_big, alloc_small, request, kalloc,
}
use cs_161_s21_problem_sets.Kalloc.Walk.{HeapValid, Gave, give_from-cases}

-- The order of a request, less MIN_ORDER.
abbrev pub order_of : ℕ → ℕ
order_of sz = (if leb 12 (order sz false) then order sz false else 12) - 12

order_of-bounds :
    (sz : ℕ) → 1 ≤ sz → sz ≤ 2 ^ 21 → (order_of sz ≤ 9) × (sz ≤ 2 ^ (order_of sz + 12))
order_of-bounds sz pos small =
    let (enough, tight) = order_lem sz pos (omega arith) in
    let most : order sz false ≤ 21 = exponent_under 21 (order sz false) (omega arith) in
    elim (Bool-cases (leb 12 (order sz false))) [
      | inl t ↦
          let e : order sz false - 12 + 12 ≡ order sz false = ground arith in
          rw t (omega (arith, most), omega (arith, ap (λ k. 2 ^ k) e, enough))
      | inr f ↦
          let less : order sz false ≤ 12 = ground arith in
          rw f (omega arith, omega (arith, enough, pow_two_le (order sz false) 12 less))
    ]

-- What a request is answered with.
abbrev pub Served : ℕ → Heap → Option Pointer → Heap → Type 0
Served sz h none h' =
    (h' ≡ h) × ((h.disabled ≡ true) ⊎ (sz ≡ 0) ⊎ (2 ^ 21 < sz) ⊎ NoneLeft (order_of sz) h.pages)
Served sz h (some (small_chunk i c)) h' =
    (sz ≤ 128 - 8)
    × Gave small_geometry h.smallslabs i c h'.smallslabs
    × (h'.bigslabs ≡ h.bigslabs)
    × (h'.pages ≡ h.pages)
Served sz h (some (big_chunk i c)) h' =
    (sz ≤ 512 - 8)
    × Gave big_geometry h.bigslabs i c h'.bigslabs
    × (h'.smallslabs ≡ h.smallslabs)
    × (h'.pages ≡ h.pages)
Served sz h (some (page p)) h' =
    (sz ≤ 2 ^ (order_of sz + 12))
    × Allocated (order_of sz) h.pages p h'.pages
    × (h'.smallslabs ≡ h.smallslabs)
    × (h'.bigslabs ≡ h.bigslabs)

alloc_pages-Served :
    (sz : ℕ) (h : Heap)
    → 1 ≤ sz
    → sz ≤ 2 ^ 21
    → HeapValid h
    → (r : Option Pointer) × (h' : Heap) × (alloc_pages sz h ≡ (r, h'))
      × HeapValid h'
      × Served sz h r h'
unfolding alloc_pages
alloc_pages-Served sz h pos small v =
    let (few, enough) = order_of-bounds sz pos small in
    elim (alloc_block-cases (order_of sz) h.pages few v.books) [
      | inl (e, left) ↦ (none, h, rw (alloc_pages, e) refl, v, (refl, inr (inr (inr left))))
      | inr (blk, s, e, a) ↦ (
        some (page blk),
        record h { pages = s },
        rw (alloc_pages, e) refl,
        record { smalls = v.smalls; bigs = v.bigs; books = a.valid },
        (enough, a, refl, refl),
      )
    ]

abbrev Answers : (ℕ → Heap → Outcome (Option Pointer × Heap)) → ℕ → Heap → Type 0
Answers f sz h =
    (r : Option Pointer) × (h' : Heap) × (f sz h ≡ ok (r, h')) × HeapValid h' × Served sz h r h'

alloc_big-Answers : (sz : ℕ) (h : Heap) → 1 ≤ sz → sz ≤ 504 → HeapValid h → Answers alloc_big sz h
unfolding alloc_big
alloc_big-Answers sz h pos small v =
    elim (give_from-cases big_geometry 1 0 h.bigslabs v.bigs (omega arith)) [
      | inl (e, full) ↦
          let (r, h', e', v', served) = alloc_pages-Served sz h pos (omega arith) v in
          (r, h', rw (alloc_big, e, e') refl, v', served)
      | inr (i, c, slabs, e, gave) ↦ (
        some (big_chunk i c),
        record h { bigslabs = slabs },
        rw (alloc_big, e) refl,
        record { smalls = v.smalls; bigs = gave.valid; books = v.books },
        (omega arith, gave, refl, refl),
      )
    ]

alloc_small-Answers :
    (sz : ℕ) (h : Heap) → 1 ≤ sz → sz ≤ 120 → HeapValid h → Answers alloc_small sz h
unfolding alloc_small
alloc_small-Answers sz h pos small v =
    elim (give_from-cases small_geometry 2 0 h.smallslabs v.smalls (omega arith)) [
      | inl (e, full) ↦
          let (r, h', e', v', served) = alloc_big-Answers sz h pos (omega arith) v in
          (r, h', rw (alloc_small, e) e', v', served)
      | inr (i, c, slabs, e, gave) ↦ (
        some (small_chunk i c),
        record h { smallslabs = slabs },
        rw (alloc_small, e) refl,
        record { smalls = gave.valid; bigs = v.bigs; books = v.books },
        (omega arith, gave, refl, refl),
      )
    ]

request-Answers : (sz : ℕ) (h : Heap) → HeapValid h → Answers request sz h
unfolding request
request-Answers sz h v = elim (Bool-cases (sz == 0 || ltb (2 ^ 21) sz)) [
  | inl bad ↦ (none, h, rw bad refl, v, (refl, inr (refused bad)))
  | inr good ↦ elim (Bool-cases (leb sz 504)) [
    | inl chunk ↦ elim (Bool-cases (leb sz 120)) [
      | inl small ↦
          let (r, h', e, v', served) = alloc_small-Answers sz h (ground arith) (ground arith) v in
          (r, h', rw (good, chunk, small) e, v', served)
      | inr big ↦
          let (r, h', e, v', served) = alloc_big-Answers sz h (ground arith) (ground arith) v in
          (r, h', rw (good, chunk, big) e, v', served)
    ]
    | inr pages ↦
        let (r, h', e, v', served) = alloc_pages-Served sz h (ground arith) (ground arith) v in
        (r, h', rw (good, pages, e) refl, v', served)
  ]
]
  where
    refused :
        (sz == 0 || ltb (2 ^ 21) sz) ≡ true
        → (sz ≡ 0) ⊎ (2 ^ 21 < sz) ⊎ NoneLeft (order_of sz) h.pages
    refused t = elim (Bool-cases (sz == 0)) [
      | inl zero_size ↦ inl (ground arith)
      | inr other ↦ inr (inl (ground arith))
    ]

-- `kalloc` of a valid heap, of any size, fails no assertion and leaves a valid heap. It answers
-- null, and changes nothing, only if it is disabled, the size is 0 or above 2 ^ 21, or no block
-- of the order or above is left; or a chunk that was free, of a small slab for at most 120 bytes
-- and of a big one for at most 504; or a block of free pages that has room for the size.
pub kalloc_lem :
    (sz : ℕ) (h : Heap)
    → HeapValid h
    → (r : Option Pointer) × (h' : Heap) × (kalloc sz h ≡ ok (r, h'))
      × HeapValid h'
      × Served sz h r h'
unfolding kalloc
kalloc_lem sz h v = elim (Bool-cases h.disabled) [
  | inl off ↦ (none, h, ap (λ b. if b then ok (none, h) else request sz h) off, v, (refl, inl off))
  | inr on ↦
      let (r, h', e, v', served) = request-Answers sz h v in
      (r, h', ap (λ b. if b then ok (none, h) else request sz h) on ∙ e, v', served)
]
