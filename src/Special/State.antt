-- ===== src/Special/State.antt =====
-- `special_vnode::write` and `read`. A read gives the bytes that it stores.
use cs_161_s21_problem_sets.Prelude.{
  ℕ, zero, suc, ◌≤◌, ◌≡◌, Bool, true, false, List, [], ◌∷◌, Outcome, ok, ◌>>=◌, ◌==◌, if◌then◌else◌,
  replicate,
}
use cs_161_s21_problem_sets.Errno.{IoResult, count, fail, badf, nospc}
use cs_161_s21_problem_sets.Special.Random.{Rng, rand_between}

pub data Sfile : Type 0 where
  null_file random_file full_file zero_file : Sfile

unfoldable pub write_special : Sfile → Bool → ℕ → IoResult
write_special f false sz = fail badf
write_special null_file true sz = count sz
write_special zero_file true sz = count sz
write_special random_file true sz = count 0
write_special full_file true sz = fail nospc

-- The loop of a read from the random file.
unfoldable pub random_bytes : ℕ → Rng → Outcome (List ℕ × Rng)
random_bytes zero g = ok ([], g)
random_bytes (suc n) g = do
  (x, g1) ← rand_between 1 255 g
  (xs, g2) ← random_bytes n g1
  ok (x ∷ xs, g2)

unfoldable pub read_special : Sfile → Bool → ℕ → Rng → Outcome (IoResult × List ℕ × Rng)
read_special f false sz g = ok (fail badf, [], g)
read_special null_file true sz g = ok (if sz == 0 then (count 0, [], g) else (count 1, 0 ∷ [], g))
read_special random_file true sz g = do (xs, g') ← random_bytes sz g; ok (count sz, xs, g')
read_special full_file true sz g = ok (count sz, replicate sz 0, g)
read_special zero_file true sz g = ok (count sz, replicate sz 0, g)

-- The bytes that a read of each file may store.
abbrev pub Stores : Sfile → List ℕ → Type 0
Stores f [] = Unit {0}
Stores random_file (x ∷ xs) = (1 ≤ x) × (x ≤ 255) × Stores random_file xs
Stores null_file (x ∷ xs) = (x ≡ 0) × Stores null_file xs
Stores full_file (x ∷ xs) = (x ≡ 0) × Stores full_file xs
Stores zero_file (x ∷ xs) = (x ≡ 0) × Stores zero_file xs
