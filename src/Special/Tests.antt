-- ===== src/Special/Tests.antt =====
-- The theorems on special files, and a first random number.
use cs_161_s21_problem_sets.Prelude.{ℕ, ◌≤◌, ◌≡◌, true, false, List, ok, length, arith}
use cs_161_s21_problem_sets.Errno.{count}
use cs_161_s21_problem_sets.Special.Random.{Rng, rand_between, rand_between_lem}
use cs_161_s21_problem_sets.Special.State.{random_file, read_special, Stores}
use cs_161_s21_problem_sets.Special.Reads.{amount, read_special_lem}

abbrev unseeded : Rng
unseeded = record { seed_set = false; seed = 0 }

rand_between_lem_small :
    (n : ℕ) × (g' : Rng) × (rand_between 10 20 unseeded ≡ ok (n, g')) × (10 ≤ n) × (n ≤ 20)
rand_between_lem_small = rand_between_lem 10 20 unseeded (omega arith) (omega arith)

read_special_lem_small :
    (out : List ℕ) × (g' : Rng) × (read_special random_file true 4 unseeded
      ≡ ok (count (length out), out, g'))
    × (length out ≡ amount random_file 4)
    × Stores random_file out
read_special_lem_small = read_special_lem random_file 4 unseeded
