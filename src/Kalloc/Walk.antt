-- ===== src/Kalloc/Walk.antt =====
-- The walk over the slabs, and what a valid heap is.
use cs_161_s21_problem_sets.Prelude.{
  ℕ, zero, suc, ◌+◌, ◌≤◌, ◌<◌, ◌≡◌, ◌≢◌, refl, sym, ap, ◌∙◌, ◌⊎◌, inl, inr, Bool, true, false,
  Option, none, some, List, [], ◌∷◌, ok, ◌==◌, get_elem?, set, length, Bool-cases, arith, subst,
  get_elem?-set_self, get_elem?-set_ne, lt-length_of_get_elem?, length-set,
}
use cs_161_s21_problem_sets.Slab.State.{
  Slab, Geometry, small_geometry, big_geometry, is_full, slab_full, taken, give,
}
use cs_161_s21_problem_sets.Slab.Laws
use cs_161_s21_problem_sets.Buddy.Books
use cs_161_s21_problem_sets.Kalloc.State.{Heap, give_from}

-- The slabs of an array: each is valid, and knows its index.
pub record SlabsValid (g : Geometry) (slabs : List Slab) : Type 0 where
  pub two : length slabs ≡ 2
  pub each : (i : ℕ) (s : Slab) → get_elem? slabs i ≡ some s → Laws.IsValid g s
  pub index : (i : ℕ) (s : Slab) → get_elem? slabs i ≡ some s → s.ind ≡ i

pub record HeapValid (h : Heap) : Type 0 where
  pub smalls : SlabsValid small_geometry h.smallslabs
  pub bigs : SlabsValid big_geometry h.bigslabs
  pub books : Books.IsValid h.pages

abbrev or_else {ℓ} : {A : Type ℓ} → A → Option A → A
or_else a none = a
or_else a (some b) = b

pub some-injective {ℓ} : {A : Type ℓ} {a b : A} → some a ≡ some b → a ≡ b
some-injective {a = a} e = ap (or_else a) e

abbrev pub ChunkIs : Bool → List Slab → ℕ → ℕ → Type 0
ChunkIs flag slabs i c =
    (s : Slab) × (get_elem? slabs i ≡ some s) × (get_elem? s.free_chunks c ≡ some flag)

not_full : (s : Slab) → is_full s.state ≡ false → s.state ≢ slab_full
not_full s f e = Books.taken_and_free (ap is_full e) f

-- A slab put back after it gave a chunk.
module _ {g : Geometry} {slabs : List Slab} (v : SlabsValid g slabs) where
  put-SlabsValid :
      (i : ℕ) (s s' : Slab)
      → get_elem? slabs i ≡ some s
      → Laws.IsValid g s'
      → s'.ind ≡ s.ind
      → SlabsValid g (set slabs i s')
  put-SlabsValid i s s' e valid same = record {
    two = length-set slabs i s' ∙ v.two;
    each = λ j t at. elim (Bool-cases (i == j)) [
      | inl here ↦
          let ij : i ≡ j = ground arith in
          let t_is = sym (own i s s' e) ∙ ap (λ k. get_elem? (set slabs i s') k) ij ∙ at in
          subst (λ u. Laws.IsValid g u) (some-injective t_is) valid
      | inr other ↦
          v.each j t (sym (get_elem?-set_ne slabs s' (let ne : i ≢ j = ground arith in ne)) ∙ at)
    ];
    index = λ j t at. elim (Bool-cases (i == j)) [
      | inl here ↦
          let ij : i ≡ j = ground arith in
          let t_is = sym (own i s s' e) ∙ ap (λ k. get_elem? (set slabs i s') k) ij ∙ at in
          sym (ap (λ u. u.ind) (some-injective t_is)) ∙ same ∙ v.index i s e ∙ ij
      | inr other ↦
          v.index j t (sym (get_elem?-set_ne slabs s' (let ne : i ≢ j = ground arith in ne)) ∙ at)
    ];
  }
    where
      own :
          (i : ℕ) (s s' : Slab)
          → get_elem? slabs i ≡ some s
          → get_elem? (set slabs i s') i ≡ some s'
      own i s s' e = get_elem?-set_self slabs i s' (lt-length_of_get_elem? slabs i e)

-- A chunk that was free and now is not, in slabs that are valid again.
pub record Gave (g : Geometry) (slabs : List Slab) (i c : ℕ) (slabs' : List Slab) : Type 0 where
  pub valid : SlabsValid g slabs'
  pub was_free : ChunkIs true slabs i c
  pub is_used : ChunkIs false slabs' i c

-- The walk finds the slabs full, or takes a chunk.
abbrev pub GivesNone : Geometry → ℕ → ℕ → List Slab → Type 0
GivesNone g k i slabs =
    (give_from g k i slabs ≡ ok none)
    × ((j : ℕ) (s : Slab) → i ≤ j → j < i + k → get_elem? slabs j ≡ some s → is_full s.state ≡ true)

abbrev pub GivesOne : Geometry → ℕ → ℕ → List Slab → Type 0
GivesOne g k i slabs =
    (j c : ℕ) × (slabs' : List Slab) × (give_from g k i slabs ≡ ok (some (j, c, slabs')))
    × Gave g slabs j c slabs'

pub exists_elem :
    {A : Type 0} (xs : List A) (i : ℕ) → i < length xs → (a : A) × (get_elem? xs i ≡ some a)
exists_elem [] i h = absurd (omega arith)
exists_elem (x ∷ xs) zero h = (x, refl)
exists_elem (x ∷ xs) (suc i) h = exists_elem xs i (omega arith)

give-Gave :
    (g : Geometry) (slabs : List Slab) (i : ℕ) (s : Slab)
    → SlabsValid g slabs
    → get_elem? slabs i ≡ some s
    → is_full s.state ≡ false
    → (c : ℕ) × (s' : Slab) × (give g s ≡ ok (c, s')) × Gave g slabs i c (set slabs i s')
unfolding taken
give-Gave g slabs i s v at f =
    let (c, e, free) = Laws.give-taken (v.each i s at) (not_full s f) in
    (
      c,
      taken g s c,
      e,
      record {
        valid =
            put-SlabsValid v i s (taken g s c) at (Laws.taken-IsValid (v.each i s at) c free) refl;
        was_free = (s, at, free);
        is_used = (
          taken g s c,
          get_elem?-set_self slabs i (taken g s c) (lt-length_of_get_elem? slabs i at),
          get_elem?-set_self s.free_chunks c false (lt-length_of_get_elem? s.free_chunks c free),
        );
      },
    )

pub give_from-cases :
    (g : Geometry) (k i : ℕ) (slabs : List Slab)
    → SlabsValid g slabs
    → i + k ≤ 2
    → GivesNone g k i slabs ⊎ GivesOne g k i slabs
unfolding give_from
give_from-cases g zero i slabs v h = inl (refl, λ j s lo hi e. absurd (omega arith))
give_from-cases g (suc k) i slabs v h =
    let (s, at) = exists_elem slabs i (omega (arith, v.two)) in
    elim (Bool-cases (is_full s.state)) [
      | inl full ↦ elim (give_from-cases g k (i + 1) slabs v (omega arith)) [
        | inl (e, all) ↦ inl (
          rw (give_from, at, full) e,
          λ j t lo hi here. elim (Bool-cases (i == j)) [
            | inl same ↦
                let ij : i ≡ j = ground arith in
                ap (λ u. is_full u.state)
                  (sym (some-injective (sym at ∙ ap (λ m. get_elem? slabs m) ij ∙ here)))
                ∙ full
            | inr other ↦ all j t (ground arith) (omega arith) here
          ],
        )
        | inr (j, c, slabs', e, gave) ↦ inr (j, c, slabs', rw (give_from, at, full) e, gave)
      ]
      | inr room ↦
          let (c, s', e, gave) = give-Gave g slabs i s v at room in
          inr (i, c, set slabs i s', rw (give_from, at, room, e) refl, gave)
    ]
