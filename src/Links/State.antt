-- ===== src/Links/State.antt =====
-- `list_links` and `list`. An address is a number, 0 being the null pointer, and an element is the
-- address of its links; the memory is two functions, `next_` and `prev_`.
use cs_161_s21_problem_sets.Prelude.{
  ℕ, Bool, ◌&&◌, not, Option, none, some, Outcome, ok, assert, ◌>>=◌, ◌>>◌, ◌==◌, if◌then◌else◌,
}

pub record Memory : Type 0 where
  pub next : ℕ → ℕ
  pub prev : ℕ → ℕ

abbrev pub put : ℕ → ℕ → (ℕ → ℕ) → ℕ → ℕ
put a v f b = if b == a then v else f b

abbrev pub set_next : ℕ → ℕ → Memory → Memory
set_next a v m = record m { next = put a v m.next }

abbrev pub set_prev : ℕ → ℕ → Memory → Memory
set_prev a v m = record m { prev = put a v m.prev }

-- `list_links::reset`
unfoldable pub reset_links : ℕ → Memory → Memory
reset_links x m = record { next = put x 0 m.next; prev = put x 0 m.prev }

unfoldable pub is_linked : ℕ → Memory → Bool
is_linked x m = not (m.next x == 0)

-- The two assignments of `list_links::erase`, in their order.
unfoldable pub bypass : ℕ → Memory → Memory
bypass x m = let m' = set_next (m.prev x) (m.next x) m in set_prev (m'.next x) (m'.prev x) m'

unfoldable pub erase_links : ℕ → Memory → Outcome Memory
unfolding bypass reset_links
erase_links x m = do
  assert (not (m.next x == 0) && not (m.prev x == 0))
  ok (reset_links x (bypass x m))

-- The four assignments of `list_links::insert_before`, in their order.
unfoldable pub tie : ℕ → ℕ → Memory → Memory
tie x position m =
    let m1 = set_prev x (m.prev position) m in
    let m2 = set_next x position m1 in
    let m3 = set_next (m2.prev position) x m2 in set_prev position x m3

unfoldable pub insert_before : ℕ → ℕ → Memory → Outcome Memory
unfolding tie
insert_before x position m = do
  assert (not (m.next position == 0) && not (m.prev position == 0))
  assert (m.next x == 0 && m.prev x == 0)
  ok (tie x position m)

-- The operations of a list are given the address of its `head_`.
unfoldable pub reset_list : ℕ → Memory → Memory
reset_list head m = record { next = put head head m.next; prev = put head head m.prev }

unfoldable pub empty : ℕ → Memory → Bool
empty head m = m.next head == head

unfoldable pub front : ℕ → Memory → Option ℕ
unfolding empty
front head m = if empty head m then none else some (m.next head)

unfoldable pub back : ℕ → Memory → Option ℕ
unfolding empty
back head m = if empty head m then none else some (m.prev head)

unfoldable pub next_of : ℕ → ℕ → Memory → Option ℕ
next_of head x m = if m.next x == head then none else some (m.next x)

unfoldable pub prev_of : ℕ → ℕ → Memory → Option ℕ
prev_of head x m = if m.prev x == head then none else some (m.prev x)

unfoldable pub push_front : ℕ → ℕ → Memory → Outcome Memory
push_front head x m = insert_before x (m.next head) m

unfoldable pub push_back : ℕ → ℕ → Memory → Outcome Memory
push_back head x m = insert_before x head m

unfoldable pub pop_front : ℕ → Memory → Outcome (Option ℕ × Memory)
pop_front head m = elim (front head m) [
  | none ↦ ok (none, m)
  | some x ↦ (erase_links x m >>= λ m'. ok (some x, m'))
]

unfoldable pub pop_back : ℕ → Memory → Outcome (Option ℕ × Memory)
pop_back head m = elim (back head m) [
  | none ↦ ok (none, m)
  | some x ↦ (erase_links x m >>= λ m'. ok (some x, m'))
]
