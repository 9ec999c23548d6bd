-- ===== src/Slab.antt =====
-- `smallslab` and `bigslab` of k-memrange.hh. The two structures have the same members and the same
-- code, with another chunk size and another number of chunks: here a `Geometry`.
-- A pointer to a chunk is its index in `chunks`; `nallocs_` is the bit pattern of an int64_t.
pub mod State
pub mod Laws
mod Tests
pub use State.{
  SlabState, slab_free, slab_partial, slab_full, Chunk, Slab, Geometry, small_geometry,
  big_geometry, slab_canary, dec64, signed_pos, fresh_chunks, init, first_free, give, receive,
  state_after_give, state_after_receive,
}
