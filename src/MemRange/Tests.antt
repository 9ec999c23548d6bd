-- ===== src/MemRange/Tests.antt =====
-- Runs of the set of ranges, and its theorems at a set of three ranges.
use cs_161_s21_problem_sets.Prelude.{
  ◌+◌, ◌<◌, ◌≡◌, refl, ◌⊎◌, true, false, Bool, ok, panic, Outcome, arith, ltb, leb, ◌==◌,
  if◌then◌else◌, ◌&&◌,
}
use cs_161_s21_problem_sets.MemRange.State.{Ranges, init, set, type_of}
use cs_161_s21_problem_sets.MemRange.Cover.{IsSorted, Covers, init-Covers, type_of-Covers}
use cs_161_s21_problem_sets.MemRange.Set.{Set, set_lem, type_of-set}

-- Types 0, 5 and 0 from the addresses 0, 10 and 20, up to 100.
abbrev three : Ranges
three = record {
  n = 3;
  addr = λ k. if k == 0 then 0 else if k == 1 then 10 else if k == 2 then 20 else 100;
  kind = λ k. if k == 1 then 5 else 0;
}

three-IsSorted : IsSorted three
three-IsSorted = record { nonempty = omega arith; from_zero = refl; grows = λ k h. ground arith }

at_12 : Covers three 12 5
at_12 = (1, record { index = omega arith; above = omega arith; below = omega arith }, refl)

init-Covers_100 : IsSorted (init 100) × Covers (init 100) 7 0
init-Covers_100 = init-Covers 100 7 (omega arith) (omega arith)

type_of-Covers_12 : type_of three 12 ≡ ok 5
type_of-Covers_12 = type_of-Covers three-IsSorted 12 5 at_12

set_lem_example :
    ((set 8 three 15 30 2 ≡ ok (false, three)) × (8 < 3 + 2))
    ⊎ ((q : Ranges) × (set 8 three 15 30 2 ≡ ok (true, q)) × Set 8 three 15 30 2 q)
set_lem_example = set_lem 8 15 30 2 three-IsSorted (omega arith) (omega arith) (omega arith)

abbrev after : Outcome (Bool × Ranges) → Ranges
after (ok (b, q)) = q
after panic = three

-- The set cuts the ranges at 15 and at 30.
set_cuts : set 8 three 15 30 2 ≡ ok (true, after (set 8 three 15 30 2))
unfolding set
set_cuts = refl

cut_size : (after (set 8 three 15 30 2)).n ≡ 4
unfolding set
cut_size = refl

type_of-set_example :
    type_of (after (set 8 three 15 30 2)) 12 ≡ ok (if leb 15 12 && ltb 12 30 then 2 else 5)
type_of-set_example =
    type_of-set 8 15 30 2 12 5 three-IsSorted (omega arith) (omega arith) (omega arith) set_cuts
      at_12
