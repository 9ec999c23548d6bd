-- ===== src/Slab/State.antt =====
-- The state of a slab and its operations.
use cs_161_s21_problem_sets.Prelude.{
  ℕ, ◌+◌, ◌-◌, ◌%◌, ◌^◌, Bool, true, false, ◌&&◌, not, Option, none, some, List, [], ◌∷◌, Outcome,
  ok, panic, assert, ◌>>◌, ltb, ◌==◌, if◌then◌else◌, get_elem?, set, replicate,
}

-- SLAB_FREE, SLAB_PARTIAL, SLAB_FULL
pub data SlabState : Type 0 where
  slab_free slab_partial slab_full : SlabState

abbrev pub slab_canary : ℕ
slab_canary = 984257

-- The metadata at the front of `small_chunk` and `big_chunk`; `ind` is an unsigned short.
pub record Chunk : Type 0 where
  pub sz : ℕ
  pub ind : ℕ
  pub canary : ℕ

-- The macros: SMALL_CHUNKSIZE and NUM_SMALL_SLABS, BIG_CHUNKSIZE and NUM_BIG_SLABS.
pub record Geometry : Type 0 where
  pub chunk_size : ℕ
  pub num : ℕ

abbrev pub small_geometry : Geometry
small_geometry = record { chunk_size = 128; num = 31 }

abbrev pub big_geometry : Geometry
big_geometry = record { chunk_size = 512; num = 15 }

-- `free_chunks[i]` holds 1 (here `true`) or 0.
pub record Slab : Type 0 where
  pub nallocs : ℕ
  pub state : SlabState
  pub ind : ℕ
  pub chunks : List Chunk
  pub free_chunks : List Bool

-- `--nallocs_` and the test `nallocs_ > 0` on the bit pattern of an int64_t.
abbrev pub dec64 : ℕ → ℕ
dec64 n = (n + 2 ^ 64 - 1) % 2 ^ 64

abbrev pub signed_pos : ℕ → Bool
signed_pos n = ltb 0 n && ltb n (2 ^ 63)

unfoldable pub fresh_chunks : Geometry → ℕ → List Chunk
fresh_chunks g index =
    replicate g.num (record { sz = g.chunk_size; ind = index % 2 ^ 16; canary = slab_canary })

-- The constructor `smallslab(index)`, `bigslab(index)`.
unfoldable pub init : Geometry → ℕ → Slab
unfolding fresh_chunks
init g index = record {
  nallocs = 0;
  state = slab_free;
  ind = index;
  chunks = fresh_chunks g index;
  free_chunks = replicate g.num true;
}

-- The search of `give`: the first free chunk from `free_ind` on, the list being what is left of
-- `free_chunks`.
unfoldable pub first_free : List Bool → ℕ → Option ℕ
first_free [] free_ind = none
first_free (f ∷ fs) free_ind = elim f [
  | true ↦ some free_ind
  | false ↦ first_free fs (free_ind + 1)
]

unfoldable pub state_after_give : Geometry → ℕ → SlabState → SlabState
state_after_give g n old =
    if n == g.num then slab_full else if signed_pos n then slab_partial else old

unfoldable pub state_after_receive : ℕ → SlabState
state_after_receive n = if signed_pos n then slab_partial else slab_free

abbrev pub is_full : SlabState → Bool
is_full slab_full = true
is_full slab_free = false
is_full slab_partial = false

-- The chunk at `i`, with its canary checked.
unfoldable pub checked_chunk : Slab → ℕ → Outcome (Unit {0})
checked_chunk s i = elim (get_elem? s.chunks i) [
  | none ↦ panic
  | some c ↦ assert (c.canary == slab_canary)
]

unfoldable pub taken : Geometry → Slab → ℕ → Slab
unfolding state_after_give
taken g s i = record s {
  nallocs = (s.nallocs + 1) % 2 ^ 64;
  state = state_after_give g ((s.nallocs + 1) % 2 ^ 64) s.state;
  free_chunks = set s.free_chunks i false;
}

-- `give`: the index of the chunk handed out, and the slab after it.
unfoldable pub give : Geometry → Slab → Outcome (ℕ × Slab)
unfolding checked_chunk taken
give g s = do
  assert (not (is_full s.state))
  elim (first_free s.free_chunks 0) [
    | none ↦ panic
    | some i ↦ do checked_chunk s i; ok (i, taken g s i)
  ]

-- The assertions of `receive` on the chunk itself.
unfoldable pub check_received : Geometry → Slab → ℕ → Outcome (Unit {0})
check_received g s i = elim (get_elem? s.chunks i) [
  | none ↦ panic
  | some c ↦ do
    assert (c.ind == s.ind)
    assert (c.sz == g.chunk_size)
    assert (c.canary == slab_canary)
]

unfoldable pub returned : Slab → ℕ → Slab
unfolding state_after_receive
returned s i = record s {
  nallocs = dec64 s.nallocs;
  state = state_after_receive (dec64 s.nallocs);
  free_chunks = set s.free_chunks i true;
}

-- `receive` of the chunk at `i`. A pointer outside `chunks` is undefined in C, and a panic here.
unfoldable pub receive : Geometry → Slab → ℕ → Outcome Slab
unfolding check_received returned
receive g s i = do
  check_received g s i
  elim (get_elem? s.free_chunks i) [ none ↦ panic | some f ↦ do assert (not f); ok (returned s i) ]
