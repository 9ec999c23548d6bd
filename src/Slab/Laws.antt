-- ===== src/Slab/Laws.antt =====
-- The invariant of a slab, and what its operations do.
use cs_161_s21_problem_sets.Prelude.{
  ℕ, zero, suc, ◌+◌, ◌-◌, ◌%◌, ◌^◌, ◌≤◌, ◌<◌, ◌≡◌, refl, ◌≢◌, ◌↔◌, Bool, true, false, Option, none,
  some, List, [], ◌∷◌, ok, panic, ◌==◌, if◌then◌else◌, get_elem?, set, sym, ap, ◌∙◌, subst,
  get_elem?-set_self, replicate, length, length-replicate, length-set, lt-length_of_get_elem?,
  arith,
}
use cs_161_s21_problem_sets.Slab.State.{
  SlabState, slab_free, slab_partial, slab_full, Chunk, Slab, Geometry, slab_canary, init,
  first_free, checked_chunk, taken, give, check_received, returned, receive,
}

-- How many chunks are handed out.
abbrev pub used : List Bool → ℕ
used [] = 0
used (f ∷ fs) = (if f then 0 else 1) + used fs

-- The state that goes with a number of allocations.
abbrev pub state_of : Geometry → ℕ → SlabState
state_of g n = if n == 0 then slab_free else if n == g.num then slab_full else slab_partial

abbrev pub AllMarked : Geometry → ℕ → List Chunk → Type 0
AllMarked g ind [] = Unit
AllMarked g ind (c ∷ cs) =
    (c.ind ≡ ind) × (c.sz ≡ g.chunk_size) × (c.canary ≡ slab_canary) × AllMarked g ind cs

pub record IsValid (g : Geometry) (s : Slab) : Type 0 where
  pub some_chunks : 1 < g.num
  pub few_chunks : g.num < 2 ^ 63
  pub chunks_length : length s.chunks ≡ g.num
  pub flags_length : length s.free_chunks ≡ g.num
  pub marked : AllMarked g s.ind s.chunks
  pub counted : s.nallocs ≡ used s.free_chunks
  pub state_right : s.state ≡ state_of g s.nallocs

used-le-length : (fs : List Bool) → used fs ≤ length fs
used-le-length [] = omega arith
used-le-length (true ∷ fs) = omega (arith, used-le-length fs)
used-le-length (false ∷ fs) = omega (arith, used-le-length fs)

used-replicate : (n : ℕ) → used (replicate n true) ≡ 0
used-replicate zero = refl
used-replicate (suc n) = omega (arith, used-replicate n)

used-set :
    (fs : List Bool) (i : ℕ) (f : Bool) (g : Bool)
    → get_elem? fs i ≡ some f
    → used (set fs i g) + (if f then 0 else 1) ≡ used fs + (if g then 0 else 1)
used-set [] i f g e = cc
used-set (x ∷ fs) zero f g e = ground arith
used-set (x ∷ fs) (suc i) f g e = omega (arith, used-set fs i f g e)

-- What the search finds: nothing exactly when all chunks are used, else a free one.
abbrev Found : List Bool → ℕ → Option ℕ → Type 0
Found fs k none = used fs ≡ length fs
Found fs k (some j) = (k ≤ j) × (j < k + length fs) × (get_elem? fs (j - k) ≡ some true)

Found-cons : (fs : List Bool) (k : ℕ) (o : Option ℕ) → Found fs (k + 1) o → Found (false ∷ fs) k o
Found-cons fs k none h = omega arith
Found-cons fs k (some j) h =
    (omega arith, omega arith, rw (let e : j - k ≡ suc (j - (k + 1)) = omega arith in e) h.2)

first_free-Found : (fs : List Bool) (k : ℕ) → Found fs k (first_free fs k)
unfolding first_free
first_free-Found [] k = refl
first_free-Found (true ∷ fs) k =
    (omega arith, omega arith, rw (let e : k - k ≡ 0 = omega arith in e) refl)
first_free-Found (false ∷ fs) k =
    Found-cons fs k (first_free fs (k + 1)) (first_free-Found fs (k + 1))

pub AllMarked-get_elem? :
    (g : Geometry) (ind : ℕ) (cs : List Chunk) (i : ℕ)
    → AllMarked g ind cs
    → i < length cs
    → (c : Chunk) × (get_elem? cs i ≡ some c)
      × (c.ind ≡ ind)
      × (c.sz ≡ g.chunk_size)
      × (c.canary ≡ slab_canary)
AllMarked-get_elem? g ind [] i m h = absurd (omega arith)
AllMarked-get_elem? g ind (c ∷ cs) zero m h = (c, refl, m.0, m.1, m.2)
AllMarked-get_elem? g ind (c ∷ cs) (suc i) m h = AllMarked-get_elem? g ind cs i m.3 (omega arith)

module _ {g : Geometry} {s : Slab} (v : IsValid g s) where
  checked_chunk-ok : (i : ℕ) → i < g.num → checked_chunk s i ≡ ok tt
  unfolding checked_chunk
  checked_chunk-ok i h =
      let (c, e, _, _, k) =
        AllMarked-get_elem? g s.ind s.chunks i v.marked (omega (arith, v.chunks_length)) in
      rw (e, checked_chunk) (ground arith)

  check_received-ok : (i : ℕ) → i < g.num → check_received g s i ≡ ok tt
  unfolding check_received
  check_received-ok i h =
      let (c, e, a, b, k) =
        AllMarked-get_elem? g s.ind s.chunks i v.marked (omega (arith, v.chunks_length)) in
      rw (e, check_received) (ground arith)

  used-le-num : used s.free_chunks ≤ g.num
  used-le-num = omega (arith, used-le-length s.free_chunks, v.flags_length)

  full_iff : (s.state ≡ slab_full) ↔ (used s.free_chunks ≡ g.num)
  full_iff = (λ e. ground (arith, used-le-num), λ e. ground (arith, used-le-num))

  pub taken-IsValid : (i : ℕ) → get_elem? s.free_chunks i ≡ some true → IsValid g (taken g s i)
  unfolding taken
  taken-IsValid i e = ground (
    arith,
    used-set s.free_chunks i true false e,
    used-le-length (set s.free_chunks i false),
    length-set s.free_chunks i false,
  )

  returned-IsValid : (i : ℕ) → get_elem? s.free_chunks i ≡ some false → IsValid g (returned s i)
  unfolding returned
  returned-IsValid i e = ground (
    arith,
    used-set s.free_chunks i false true e,
    used-le-length s.free_chunks,
    length-set s.free_chunks i true,
  )

  pub give-taken :
      s.state ≢ slab_full
      → (i : ℕ) × (give g s ≡ ok (i, taken g s i)) × (get_elem? s.free_chunks i ≡ some true)
  unfolding give
  give-taken ne = found (first_free s.free_chunks 0) refl (first_free-Found s.free_chunks 0)
    where
      found :
          (o : Option ℕ)
          → first_free s.free_chunks 0 ≡ o
          → Found s.free_chunks 0 o
          → (i : ℕ) × (give g s ≡ ok (i, taken g s i)) × (get_elem? s.free_chunks i ≡ some true)
      found none e h = absurd (ne (full_iff.1 (omega (arith, v.flags_length))))
      found (some i) e h =
          let lt : i < g.num = omega (arith, v.flags_length, h.1) in
          let z : i - 0 ≡ i = omega arith in
          (i, rw (e, give) (ground (arith, checked_chunk-ok i lt)), rw z at h.2)

  -- `give` of a valid slab that is not full hands out a free chunk: its flag is cleared and no
  -- other, the count goes up by one, and the slab is valid again.
  pub give_lem :
      s.state ≢ slab_full
      → (i : ℕ) × (s' : Slab) × (give g s ≡ ok (i, s'))
        × (i < g.num)
        × (get_elem? s.free_chunks i ≡ some true)
        × (s'.free_chunks ≡ set s.free_chunks i false)
        × (s'.nallocs ≡ s.nallocs + 1)
        × (s'.chunks ≡ s.chunks)
        × IsValid g s'
  unfolding taken
  give_lem ne =
      let (i, e, at) = give-taken ne in
      (
        i,
        taken g s i,
        e,
        omega (arith, lt-length_of_get_elem? s.free_chunks i at, v.flags_length),
        at,
        refl,
        omega (arith, used-le-num, v.counted, v.few_chunks),
        refl,
        taken-IsValid i at,
      )

  -- `give` of a full slab fails its assertion.
  give_full : s.state ≡ slab_full → give g s ≡ panic
  unfolding give
  give_full e = rw e

  receive-ok : (i : ℕ) → get_elem? s.free_chunks i ≡ some false → receive g s i ≡ ok (returned s i)
  unfolding receive
  receive-ok i e =
      let lt : i < g.num =
        omega (arith, lt-length_of_get_elem? s.free_chunks i e, v.flags_length) in
      rw (e, receive) (ground (arith, check_received-ok i lt))

  taken-returned-nallocs :
      (i : ℕ)
      → get_elem? s.free_chunks i ≡ some true
      → (returned (taken g s i) i).nallocs ≡ s.nallocs
  unfolding taken returned
  taken-returned-nallocs i e = omega (arith, used-le-num, v.counted, v.few_chunks)

  -- `receive` of a chunk that a valid slab handed out sets its flag and no other, and gives a
  -- valid slab with one allocation less.
  pub receive_lem :
      (i : ℕ)
      → get_elem? s.free_chunks i ≡ some false
      → (s' : Slab) × (receive g s i ≡ ok s')
        × (s'.free_chunks ≡ set s.free_chunks i true)
        × (s'.nallocs + 1 ≡ s.nallocs)
        × (s'.chunks ≡ s.chunks)
        × IsValid g s'
  unfolding receive returned
  receive_lem i e = (
    returned s i,
    receive-ok i e,
    refl,
    omega (arith, used-set s.free_chunks i false true e, v.counted, used-le-num, v.few_chunks),
    refl,
    returned-IsValid i e,
  )

  -- On a valid slab a chunk that is free cannot be received again: the assertion against a double
  -- free fails.
  pub receive_free : (i : ℕ) → get_elem? s.free_chunks i ≡ some true → receive g s i ≡ panic
  unfolding receive
  receive_free i e = ground (arith, e, check_received-ok i)

AllMarked-fresh :
    (g : Geometry) (ind n : ℕ)
    → AllMarked g ind (replicate n (record { sz = g.chunk_size; ind = ind; canary = slab_canary }))
AllMarked-fresh g ind zero = tt
AllMarked-fresh g ind (suc n) = (refl, refl, refl, AllMarked-fresh g ind n)

-- The constructor makes a valid slab with every chunk free, if the index fits an unsigned short.
pub init-IsValid :
    (g : Geometry) (index : ℕ)
    → 1 < g.num
    → g.num < 2 ^ 63
    → index < 2 ^ 16
    → IsValid g (init g index) × (used (init g index).free_chunks ≡ 0)
unfolding init
init-IsValid g index some_chunks few_chunks small = (
  record {
    some_chunks = some_chunks;
    few_chunks = few_chunks;
    chunks_length = length-replicate g.num _;
    flags_length = length-replicate g.num true;
    marked = let e : index % 2 ^ 16 ≡ index = omega arith in rw e (AllMarked-fresh g index g.num);
    counted = sym (used-replicate g.num);
    state_right = refl;
  },
  used-replicate g.num,
)

set-set_back :
    (fs : List Bool) (i : ℕ) (f g : Bool) → get_elem? fs i ≡ some f → set (set fs i g) i f ≡ fs
set-set_back [] i f g e = refl
set-set_back (x ∷ fs) zero f g e = ground arith
set-set_back (x ∷ fs) (suc i) f g e = ap (λ l. x ∷ l) (set-set_back fs i f g e)

Slab_eq :
    (s t : Slab)
    → s.nallocs ≡ t.nallocs
    → s.state ≡ t.state
    → s.ind ≡ t.ind
    → s.chunks ≡ t.chunks
    → s.free_chunks ≡ t.free_chunks
    → s ≡ t
Slab_eq s t a b c d e = ground arith

give_inv :
    (g : Geometry) (s : Slab) {s' : Slab} {i : ℕ}
    → give g s ≡ ok (i, s')
    → (first_free s.free_chunks 0 ≡ some i) × (s' ≡ taken g s i)
unfolding give checked_chunk
give_inv g s e = (ground arith, ground arith)

first_free-get_elem? :
    (fs : List Bool) {i : ℕ} → first_free fs 0 ≡ some i → get_elem? fs i ≡ some true
first_free-get_elem? fs {i} e =
    let h : Found fs 0 (some i) = subst (Found fs 0) e (first_free-Found fs 0) in
    let z : i - 0 ≡ i = omega arith in rw z at (h.2)

-- A chunk given by a valid slab and received again leaves the slab as it was.
pub receive-give :
    {g : Geometry} {s s' : Slab} {i : ℕ}
    → IsValid g s
    → give g s ≡ ok (i, s')
    → receive g s' i ≡ ok s
unfolding taken returned
receive-give {g} {s} {s'} {i} v e =
    let (f, e') = give_inv g s e in
    let at = first_free-get_elem? s.free_chunks f in
    let w = taken-IsValid v i at in
    let off = get_elem?-set_self s.free_chunks i false (lt-length_of_get_elem? _ i at) in
    let count : (returned (taken g s i) i).nallocs ≡ s.nallocs = taken-returned-nallocs v i at in
    let w' = returned-IsValid w i off in
    rw (e', receive-ok w i off)
      (ap ok (
        Slab_eq (returned (taken g s i) i) s count
          (w'.state_right ∙ ap (state_of g) count ∙ sym v.state_right) refl refl
          (set-set_back s.free_chunks i true false at)))
