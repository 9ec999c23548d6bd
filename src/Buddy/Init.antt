-- ===== src/Buddy/Init.antt =====
-- `init_kalloc` of k-alloc.cc: the available ranges of physical memory become roots.
use cs_161_s21_problem_sets.Prelude.{
  ℕ, zero, suc, ◌+◌, ◌-◌, ◌/◌, ◌^◌, true, false, ◌&&◌, leb, ◌==◌, if◌then◌else◌, [], Outcome, ok,
  assert, ◌>>=◌, ◌>>◌,
}
use cs_161_s21_problem_sets.Buddy.State.{Pages, on_pages, push_back}
use cs_161_s21_problem_sets.Buddy.Order.{largest_fitting_ord}
use cs_161_s21_problem_sets.MemRange.State.{Ranges}

-- The entries of `pgmap`: MEMSIZE_PHYSICAL / PAGESIZE.
abbrev pub pgmap_size : ℕ
pgmap_size = 512

-- `pgmap` and `free_blocks` as they are before: static, and so zero. What stands at an index from
-- `pgmap_size` on is no entry.
abbrev pub nothing : Pages
nothing = record {
  free = λ _. false;
  returned = λ _. false;
  ord = λ _. 0;
  r_ord = λ _. 0;
  r_page = λ _. 0;
  free_blocks = λ _. [];
}

-- A root of order `n`, less MIN_ORDER, at page `page`.
unfoldable pub add_root : ℕ → ℕ → Pages → Pages
unfolding push_back
add_root n page s = push_back n page (record s {
  free = on_pages page (2 ^ n) (λ _. true) s.free;
  ord = on_pages page (2 ^ n) (λ _. n + 12) s.ord;
  r_ord = on_pages page (2 ^ n) (λ _. n + 12) s.r_ord;
  r_page = on_pages page (2 ^ n) (λ _. page) s.r_page;
})

-- The inner loop, in bytes; what is left is less than half after every round, so that 64 rounds are
-- enough for a uint64_t. A root whose pages are not all in `pgmap` would be written behind its end, for
-- which the code has no test; that is a panic here.
unfoldable pub add_roots : ℕ → ℕ → ℕ → Pages → Outcome Pages
add_roots zero curr_addr remaining_size s = ok s
add_roots (suc fuel) curr_addr remaining_size s =
    if remaining_size == 0
    then ok s
    else (let ord = largest_fitting_ord 64 remaining_size 1 in
        do
          assert (leb 12 ord && leb ord 21)
          assert (leb (curr_addr / 4096 + 2 ^ (ord - 12)) pgmap_size)
          add_roots fuel (curr_addr + 2 ^ ord) (remaining_size - 2 ^ ord)
              (add_root (ord - 12) (curr_addr / 4096) s))

-- The loop over the ranges, `k` of them being left.
unfoldable pub init_from : ℕ → Ranges → Pages → Outcome Pages
init_from zero r s = ok s
init_from (suc k) r s =
    let range = r.n - suc k in
    if r.kind range == 1
    then (do
      s' ← add_roots 64 (r.addr range) (r.addr (range + 1) - r.addr range) s
      init_from k r s')
    else init_from k r s

unfoldable pub init_kalloc : Ranges → Outcome Pages
init_kalloc r = init_from r.n r nothing
