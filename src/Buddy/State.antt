-- ===== src/Buddy/State.antt =====
-- The page map `pgmap`, the lists `free_blocks`, and the buddy parts of `kalloc` and `kfree`. A page is its
-- index in `pgmap`, which is its physical address over PAGESIZE; a list is that of the pages at which
-- its blocks begin. `n` stands for an order less MIN_ORDER.
use cs_161_s21_problem_sets.Prelude.{
  ℕ, zero, suc, ◌+◌, ◌-◌, ◌*◌, ◌/◌, ◌%◌, ◌^◌, Bool, true, false, ◌&&◌, ◌||◌, not, Option, none,
  some, List, [], ◌∷◌, ◌++◌, Outcome, ok, panic, ltb, leb, ◌==◌, if◌then◌else◌,
}

abbrev pub min_order : ℕ
min_order = 12

-- MAX_ORDER - MIN_ORDER
abbrev pub top : ℕ
top = 9

-- `bapg`, for every page, and the lists. The root's address is given in pages.
pub record Pages : Type 0 where
  pub free : ℕ → Bool
  pub returned : ℕ → Bool
  pub ord : ℕ → ℕ
  pub r_ord : ℕ → ℕ
  pub r_page : ℕ → ℕ
  pub free_blocks : ℕ → List ℕ

-- A loop over the `count` pages from `start` that gives each of them a new value.
abbrev pub on_pages {ℓ} : {A : Type ℓ} → ℕ → ℕ → (ℕ → A) → (ℕ → A) → ℕ → A
on_pages start count new old p = if leb start p && ltb p (start + count) then new p else old p

-- One page.
abbrev pub on_page {ℓ} : {A : Type ℓ} → ℕ → A → (ℕ → A) → ℕ → A
on_page page new old p = if p == page then new else old p

abbrev pub with_list : ℕ → List ℕ → (ℕ → List ℕ) → ℕ → List ℕ
with_list n l lists m = if m == n then l else lists m

unfoldable pub push_back : ℕ → ℕ → Pages → Pages
push_back n page s = record s {
  free_blocks = with_list n (s.free_blocks n ++ (page ∷ [])) s.free_blocks;
}

-- The loop of `kfree` that takes a block off its list.
unfoldable pub erase_first : ℕ → List ℕ → List ℕ
erase_first page [] = []
erase_first page (x ∷ xs) = let rest = erase_first page xs in if x == page then xs else x ∷ rest

unfoldable pub erase : ℕ → ℕ → Pages → Pages
erase n page s = record s {
  free_blocks = with_list n (erase_first page (s.free_blocks n)) s.free_blocks;
}

-- The search of `kalloc` for the next best order above `n`, `m` orders being left: the order, and the
-- block at the front of its list.
unfoldable pub next_best : (ℕ → List ℕ) → ℕ → ℕ → Option (ℕ × ℕ × List ℕ)
next_best lists zero n = none
next_best lists (suc m) n = elim (lists (n + 1)) [
  | [] ↦ next_best lists m (n + 1)
  | b ∷ bs ↦ some (n + 1, b, bs)
]

-- One round of breaking a block of order `n` + 1 down: the right half goes to its list.
unfoldable pub break_once : ℕ → ℕ → Pages → Pages
unfolding push_back
break_once n blk s =
    let split_page = blk + 2 ^ n in
    push_back n split_page
      (record s { ord = on_pages split_page (2 ^ n) (λ _. n + min_order) s.ord })

-- The loop, over the `d` orders above `n`.
unfoldable pub break_down : ℕ → ℕ → ℕ → Pages → Pages
unfolding break_once
break_down zero n blk s = s
break_down (suc d) n blk s = break_down d n blk (break_once (n + d) blk s)

-- A block of order `n`: the first of its list, or one made from a larger block.
unfoldable pub find_block : ℕ → Pages → Option (ℕ × Pages)
unfolding next_best break_down
find_block n s = elim (s.free_blocks n) [
  | b ∷ bs ↦ some (b, record s { free_blocks = with_list n bs s.free_blocks })
  | [] ↦ (elim (next_best s.free_blocks (top - n) n) [
    | none ↦ none
    | some (m, b, bs) ↦
        let s' = break_down (m - n) n b (record s { free_blocks = with_list m bs s.free_blocks }) in
        some (b, record s' { ord = on_pages b (2 ^ n) (λ _. n + min_order) s'.ord })
  ])
]

-- The end of `kalloc`: the block's pages are taken, and the first of them was returned to the user.
unfoldable pub hand_out : ℕ → ℕ → Pages → Pages
hand_out n blk s = record s {
  returned = on_page blk true s.returned;
  free = on_pages blk (2 ^ n) (λ _. false) s.free;
  ord = on_pages blk (2 ^ n) (λ _. n + min_order) s.ord;
}

-- `kalloc` behind the slabs; none is a null pointer.
unfoldable pub alloc_block : ℕ → Pages → Option (ℕ × Pages)
unfolding find_block hand_out
alloc_block n s = elim (find_block n s) [
  | none ↦ none
  | some (blk, s') ↦ some (blk, hand_out n blk s')
]

-- `buddy_to_the_left`: the bit of the block's order in the distance from its root.
abbrev pub buddy_to_the_left : Pages → ℕ → Bool
buddy_to_the_left s blk = not ((blk * 4096 - s.r_page blk * 4096) / 2 ^ s.ord blk % 2 == 0)

abbrev pub buddy_of : Pages → ℕ → ℕ
buddy_of s blk =
    if buddy_to_the_left s blk
    then (blk * 4096 - 2 ^ s.ord blk) / 4096
    else (blk * 4096 + 2 ^ s.ord blk) / 4096

-- Two buddies become a block of the next order: the pages of both are told.
unfoldable pub adjoin : ℕ → ℕ → Pages → Pages
adjoin blk buddy s =
    let count = 2 ^ s.ord blk / 4096 in
    record s {
      ord = on_pages blk count (λ p. s.ord p + 1) (on_pages buddy count (λ p. s.ord p + 1) s.ord);
    }

-- One round of the loop of `kfree`: it ends, or goes on with the block adjoined.
pub data Round : Type 0 where
  done : Pages → Round
  again : ℕ → Pages → Round

unfoldable pub join_round : ℕ → Pages → Round
unfolding push_back erase adjoin
join_round blk s =
    let n = s.ord blk - min_order in
    let buddy = buddy_of s blk in
    if s.ord blk == s.r_ord blk
    then done (push_back n blk s)
    else if s.free buddy && s.ord buddy == s.ord blk
    then again (if ltb buddy blk then buddy else blk) (adjoin blk buddy (erase n buddy s))
    else done (push_back n blk s)

unfoldable pub join_loop : ℕ → ℕ → Pages → Option Pages
unfolding join_round
join_loop zero blk s = none
join_loop (suc fuel) blk s = elim (join_round blk s) [
  | done s' ↦ some s'
  | again blk' s' ↦ join_loop fuel blk' s'
]

-- `kfree` of a page that is no chunk of a slab, with its assertions; the block's order grows in every
-- round but the last. The outer none is that the fuel ran out.
unfoldable pub free_block : ℕ → Pages → Option (Outcome Pages)
free_block blk s =
    if s.free blk || not (s.returned blk)
    then some panic
    else (elim (join_loop (suc top) blk (record s {
      returned = on_page blk false s.returned;
      free = on_pages blk (2 ^ s.ord blk / 4096) (λ _. true) s.free;
    })) [ none ↦ none | some s' ↦ some (ok s') ])
