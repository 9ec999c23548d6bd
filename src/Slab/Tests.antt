-- ===== src/Slab/Tests.antt =====
-- Runs of the slab, and its theorems at concrete slabs.
use cs_161_s21_problem_sets.Prelude.{
  ℕ, ◌+◌, ◌<◌, ◌≡◌, refl, true, false, some, ok, panic, arith, get_elem?, set, replicate,
}
use cs_161_s21_problem_sets.Slab.State.{
  Slab, slab_free, slab_partial, small_geometry, init, give, receive, first_free,
}
use cs_161_s21_problem_sets.Slab.Laws.{
  IsValid, used, init-IsValid, give_lem, receive_lem, receive_free, receive-give,
}

abbrev fresh : Slab
fresh = record {
  nallocs = 0;
  state = slab_free;
  ind = 1;
  chunks = replicate 31 (record { sz = 128; ind = 1; canary = 984257 });
  free_chunks = replicate 31 true;
}

abbrev one_out : Slab
one_out = record fresh {
  nallocs = 1;
  state = slab_partial;
  free_chunks = set fresh.free_chunks 0 false;
}

gives_first : give small_geometry fresh ≡ ok (0, one_out)
unfolding give first_free
gives_first = refl

init-IsValid_small :
    IsValid small_geometry (init small_geometry 1) × (used (init small_geometry 1).free_chunks ≡ 0)
init-IsValid_small = init-IsValid small_geometry 1 (omega arith) (omega arith) (omega arith)

fresh-IsValid : IsValid small_geometry fresh
unfolding init
fresh-IsValid = init-IsValid_small.0

give_lem_example :
    (i : ℕ) × (s' : Slab) × (give small_geometry fresh ≡ ok (i, s'))
    × (i < 31)
    × (get_elem? fresh.free_chunks i ≡ some true)
    × (s'.free_chunks ≡ set fresh.free_chunks i false)
    × (s'.nallocs ≡ 0 + 1)
    × (s'.chunks ≡ fresh.chunks)
    × IsValid small_geometry s'
give_lem_example = give_lem fresh-IsValid (λ e. cc)

receive-give_small : receive small_geometry one_out 0 ≡ ok fresh
receive-give_small = receive-give fresh-IsValid gives_first

one_out-IsValid : IsValid small_geometry one_out
one_out-IsValid = record {
  some_chunks = omega arith;
  few_chunks = omega arith;
  chunks_length = refl;
  flags_length = refl;
  marked = fresh-IsValid.marked;
  counted = refl;
  state_right = refl;
}

receive_lem_example :
    (s' : Slab) × (receive small_geometry one_out 0 ≡ ok s')
    × (s'.free_chunks ≡ set one_out.free_chunks 0 true)
    × (s'.nallocs + 1 ≡ one_out.nallocs)
    × (s'.chunks ≡ one_out.chunks)
    × IsValid small_geometry s'
receive_lem_example = receive_lem one_out-IsValid 0 refl

receive_free_small : receive small_geometry one_out 3 ≡ panic
receive_free_small = receive_free one_out-IsValid 3 refl
