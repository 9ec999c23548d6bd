-- ===== src/Kalloc/Tests.antt =====
-- Runs of `kalloc` and `kfree`.
use cs_161_s21_problem_sets.Prelude.{
  ℕ, zero, suc, ◌^◌, ◌<◌, ◌≡◌, refl, sym, ap, inl, false, Option, none, some, List, [], ◌∷◌, ok,
  get_elem?, arith, subst,
}
use cs_161_s21_problem_sets.Slab.State.{
  Slab, Chunk, Geometry, small_geometry, big_geometry, slab_canary, init, fresh_chunks,
}
use cs_161_s21_problem_sets.Slab.Laws
use cs_161_s21_problem_sets.Buddy.Free.{Freed}
use cs_161_s21_problem_sets.Buddy.Sample.{pool, pool-Initialized, lent, lent_returned, lent-IsValid}
use cs_161_s21_problem_sets.Kalloc.State.{Heap, Pointer, small_chunk, page, kalloc, kfree}
use cs_161_s21_problem_sets.Kalloc.Walk.{SlabsValid, HeapValid, some-injective}
use cs_161_s21_problem_sets.Kalloc.Allocate.{Served, kalloc_lem}
use cs_161_s21_problem_sets.Kalloc.Release.{kfree-page, kfree-chunk, kfree-page_lookalike}

abbrev both : Geometry → List Slab
both g = init g 0 ∷ init g 1 ∷ []

both-SlabsValid : (g : Geometry) → 1 < g.num → g.num < 2 ^ 63 → SlabsValid g (both g)
unfolding init
both-SlabsValid g more few = record {
  two = refl;
  each = λ i s e. each_valid i s e;
  index = λ i s e. each_index i s e;
}
  where
    each_valid : (i : ℕ) (s : Slab) → get_elem? (both g) i ≡ some s → Laws.IsValid g s
    each_valid zero s e =
        subst (λ t. Laws.IsValid g t) (some-injective e)
          (Laws.init-IsValid g 0 more few (omega arith)).0
    each_valid (suc zero) s e =
        subst (λ t. Laws.IsValid g t) (some-injective e)
          (Laws.init-IsValid g 1 more few (omega arith)).0
    each_valid (suc (suc i)) s e = absurd (let f : none ≡ some s = e in ground arith)

    each_index : (i : ℕ) (s : Slab) → get_elem? (both g) i ≡ some s → s.ind ≡ i
    each_index zero s e = sym (ap (λ t. t.ind) (some-injective e))
    each_index (suc zero) s e = sym (ap (λ t. t.ind) (some-injective e))
    each_index (suc (suc i)) s e = absurd (let f : none ≡ some s = e in ground arith)

abbrev fresh : Heap
fresh = record {
  disabled = false;
  smallslabs = both small_geometry;
  bigslabs = both big_geometry;
  pages = pool;
}

abbrev in_use : Heap
in_use = record {
  disabled = false;
  smallslabs = both small_geometry;
  bigslabs = both big_geometry;
  pages = lent;
}

fresh-HeapValid : HeapValid fresh
fresh-HeapValid = record {
  smalls = both-SlabsValid small_geometry (omega arith) (omega arith);
  bigs = both-SlabsValid big_geometry (omega arith) (omega arith);
  books = pool-Initialized.valid;
}

in_use-HeapValid : HeapValid in_use
in_use-HeapValid = record {
  smalls = both-SlabsValid small_geometry (omega arith) (omega arith);
  bigs = both-SlabsValid big_geometry (omega arith) (omega arith);
  books = lent-IsValid;
}

abbrev zeros : ℕ → Chunk
zeros p = record { sz = 0; ind = 0; canary = 0 }

abbrev lookalike : ℕ → Chunk
lookalike p = record { sz = 128; ind = 0; canary = slab_canary }

kalloc_lem_example :
    (r : Option Pointer) × (h : Heap) × (kalloc 5000 fresh ≡ ok (r, h))
    × HeapValid h
    × Served 5000 fresh r h
kalloc_lem_example = kalloc_lem 5000 fresh fresh-HeapValid

kfree-page_example :
    (n : ℕ) × (h : Heap) × (kfree zeros (some (page 2)) in_use ≡ some (ok h))
    × HeapValid h
    × Freed n lent 2 h.pages
    × (h.smallslabs ≡ in_use.smallslabs)
    × (h.bigslabs ≡ in_use.bigslabs)
kfree-page_example = kfree-page zeros 2 in_use in_use-HeapValid lent_returned (λ e. ground arith)

kfree-chunk_example : kfree zeros (some (small_chunk 1 3)) in_use ≡ some (ok in_use)
unfolding init fresh_chunks
kfree-chunk_example =
    kfree-chunk zeros (small_chunk 1 3) (record { sz = 128; ind = 1; canary = slab_canary }) in_use
      in_use-HeapValid refl

kfree-page_lookalike_small : kfree lookalike (some (page 2)) in_use ≡ some (ok in_use)
kfree-page_lookalike_small =
    kfree-page_lookalike lookalike 2 in_use in_use-HeapValid refl (inl refl)
