-- ===== src/Kalloc/Release.antt =====
-- `kfree` of a page and of a chunk.
use cs_161_s21_problem_sets.Prelude.{
  ℕ, zero, suc, ◌+◌, ◌≤◌, ◌≡◌, ◌≢◌, refl, sym, ap, ◌∙◌, ◌⊎◌, inl, inr, true, false, ◌&&◌, Option,
  none, some, List, ok, ◌==◌, get_elem?, arith, lt-length_of_get_elem?,
}
use cs_161_s21_problem_sets.Slab.State.{
  Slab, Chunk, Geometry, small_geometry, big_geometry, slab_canary,
}
use cs_161_s21_problem_sets.Slab.Laws
use cs_161_s21_problem_sets.Buddy.Free.{Freed, free_block_lem}
use cs_161_s21_problem_sets.Kalloc.State.{
  Heap, Pointer, small_chunk, big_chunk, page, chunk_ind, receive_from, free_chunk, chunk_at, kfree,
}
use cs_161_s21_problem_sets.Kalloc.Walk.{SlabsValid, HeapValid, some-injective, exists_elem}

-- `kfree` of a page that `kalloc` has returned, in a valid heap, with no slab canary in memory in
-- front of the page: no assertion fails, the block is freed, the slabs are as before, and the
-- heap is valid.
pub kfree-page :
    (before : ℕ → Chunk) (p : ℕ) (h : Heap)
    → HeapValid h
    → h.pages.returned p ≡ true
    → (before p).canary ≢ slab_canary
    → (n : ℕ) × (h' : Heap) × (kfree before (some (page p)) h ≡ some (ok h'))
      × HeapValid h'
      × Freed n h.pages p h'.pages
      × (h'.smallslabs ≡ h.smallslabs)
      × (h'.bigslabs ≡ h.bigslabs)
unfolding kfree
kfree-page before p h v r differs =
    let (n, s, e, f) = free_block_lem p h.pages v.books r in
    let other : ((before p).canary == slab_canary) ≡ false = ground arith in
    (
      n,
      record h { pages = s },
      rw (other, e) refl,
      record { smalls = v.smalls; bigs = v.bigs; books = f.valid },
      f,
      refl,
      refl,
    )

-- The walk of `kfree` goes past every slab.
receive_from-none :
    (g : Geometry) (k i : ℕ) (at : Option (ℕ × ℕ)) (ind : ℕ) (slabs : List Slab)
    → SlabsValid g slabs
    → i + k ≤ 2
    → 2 ≤ ind
    → receive_from g k i at ind slabs ≡ ok slabs
unfolding receive_from
receive_from-none g zero i at ind slabs v h big = refl
receive_from-none g (suc k) i none ind slabs v h big =
    receive_from-none g k (i + 1) none ind slabs v (omega arith) big
receive_from-none g (suc k) i (some (slab, chunk)) ind slabs v h big =
    let (s, e) = exists_elem slabs i (omega (arith, v.two)) in
    let off : (slab == i && ind == s.ind) ≡ false = ground (arith, v.index i s e) in
    rw (receive_from, e, off)
      (receive_from-none g k (i + 1) (some (slab, chunk)) ind slabs v (omega arith) big)

-- The metadata of a chunk of a valid slab.
record Marked (g : Geometry) (m : Chunk) : Type 0 where
  canary_right : m.canary ≡ slab_canary
  size_right : m.sz ≡ g.chunk_size

chunk-Marked :
    {g : Geometry} {slabs : List Slab}
    → SlabsValid g slabs
    → (i c : ℕ) (m : Chunk) → chunk_at slabs i c ≡ some m
    → Marked g m
chunk-Marked {g} {slabs} v i c m e = of_slab (get_elem? slabs i) refl e
  where
    of_slab :
        (o : Option Slab)
        → get_elem? slabs i ≡ o
        → (elim o [ none ↦ none | some s ↦ get_elem? s.chunks c ]) ≡ some m
        → Marked g m
    of_slab none at e = absurd (let f : none ≡ some m = e in ground arith)
    of_slab (some s) at e =
        let valid = v.each i s at in
        let (d, here, _, size, canary) =
          Laws.AllMarked-get_elem? g s.ind s.chunks c valid.marked
            (lt-length_of_get_elem? s.chunks c e) in
        let same = some-injective (sym here ∙ e) in
        record {
          canary_right = sym (ap (λ d. d.canary) same) ∙ canary;
          size_right = sym (ap (λ d. d.sz) same) ∙ size;
        }

chunk_ind-large : (m : Chunk) → m.canary ≡ slab_canary → 2 ≤ chunk_ind m
chunk_ind-large m e = omega (arith, e)

-- The pointer is to a chunk, which has the metadata `m`.
abbrev pub ChunkOf : Heap → Pointer → Chunk → Type 0
ChunkOf h (small_chunk i c) m = chunk_at h.smallslabs i c ≡ some m
ChunkOf h (big_chunk i c) m = chunk_at h.bigslabs i c ≡ some m
ChunkOf h (page p) m = ⊥

free_chunk-none :
    (m : Chunk) (small big : Option (ℕ × ℕ)) (h : Heap)
    → HeapValid h
    → m.canary ≡ slab_canary
    → (m.sz ≡ 128) ⊎ (m.sz ≡ 512)
    → free_chunk m small big h ≡ ok h
unfolding free_chunk
free_chunk-none m small big h v canary (inl size) =
    let t : (m.sz == 128) ≡ true = ground arith in
    rw
      (
        t,
        receive_from-none small_geometry 2 0 small (chunk_ind m) h.smallslabs v.smalls (omega arith)
            (chunk_ind-large m canary),
      )
      refl
free_chunk-none m small big h v canary (inr size) =
    let f : (m.sz == 128) ≡ false = ground arith in
    let t : (m.sz == 512) ≡ true = ground arith in
    rw
      (
        f,
        t,
        receive_from-none big_geometry 1 0 big (chunk_ind m) h.bigslabs v.bigs (omega arith)
            (chunk_ind-large m canary),
      )
      refl

-- `kfree` of a pointer to a chunk of a valid heap changes nothing: the chunk is never received by
-- its slab.
pub kfree-chunk :
    (before : ℕ → Chunk) (ptr : Pointer) (m : Chunk) (h : Heap)
    → HeapValid h
    → ChunkOf h ptr m
    → kfree before (some ptr) h ≡ some (ok h)
unfolding kfree
kfree-chunk before (small_chunk i c) m h v e =
    let k = chunk-Marked v.smalls i c m e in
    let t : (m.canary == slab_canary) ≡ true = ground (arith, k.canary_right) in
    rw (kfree, e, t)
      (ap (λ o. some o)
        (free_chunk-none m (some (i, c)) none h v k.canary_right (inl k.size_right)))
kfree-chunk before (big_chunk i c) m h v e =
    let k = chunk-Marked v.bigs i c m e in
    let t : (m.canary == slab_canary) ≡ true = ground (arith, k.canary_right) in
    rw (kfree, e, t)
      (ap (λ o. some o)
        (free_chunk-none m none (some (i, c)) h v k.canary_right (inr k.size_right)))
kfree-chunk before (page p) m h v e = elim e [ ]

-- `kfree` of a page that has the metadata of a chunk in memory in front of it changes nothing in
-- a valid heap.
pub kfree-page_lookalike :
    (before : ℕ → Chunk) (p : ℕ) (h : Heap)
    → HeapValid h
    → (before p).canary ≡ slab_canary
    → ((before p).sz ≡ 128) ⊎ ((before p).sz ≡ 512)
    → kfree before (some (page p)) h ≡ some (ok h)
unfolding kfree
kfree-page_lookalike before p h v same size =
    let t : ((before p).canary == slab_canary) ≡ true = ground arith in
    rw t (ap (λ o. some o) (free_chunk-none (before p) none none h v same size))
