-- ===== src/Special/Reads.antt =====
-- What a read of a special file stores.
use cs_161_s21_problem_sets.Prelude.{
  ℕ, zero, suc, ◌≡◌, refl, ap, ◌∙◌, sym, true, List, [], ◌∷◌, ok, ◌==◌, length, replicate,
  length-replicate, min, arith, Bool-cases, inl, inr,
}
use cs_161_s21_problem_sets.Errno.{count}
use cs_161_s21_problem_sets.Special.Random.{Rng, rand_between, rand_between_lem}
use cs_161_s21_problem_sets.Special.State.{
  Sfile, null_file, random_file, full_file, zero_file, random_bytes, read_special, Stores,
}

random_bytes-cons :
    (n x : ℕ) (xs : List ℕ) (g g1 g2 : Rng)
    → rand_between 1 255 g ≡ ok (x, g1)
    → random_bytes n g1 ≡ ok (xs, g2)
    → random_bytes (suc n) g ≡ ok (x ∷ xs, g2)
unfolding random_bytes
random_bytes-cons n x xs g g1 g2 e f = rw (e, random_bytes) (rw f refl)

random_bytes-Stores :
    (n : ℕ) (g : Rng)
    → (xs : List ℕ) × (g' : Rng) × (random_bytes n g ≡ ok (xs, g'))
      × (length xs ≡ n)
      × Stores random_file xs
unfolding random_bytes
random_bytes-Stores zero g = ([], g, refl, refl, tt)
random_bytes-Stores (suc n) g =
    let (x, g1, e, lo, hi) = rand_between_lem 1 255 g (omega arith) (omega arith) in
    let (xs, g2, f, size, s) = random_bytes-Stores n g1 in
    (x ∷ xs, g2, random_bytes-cons n x xs g g1 g2 e f, ap suc size, (lo, hi, s))

zeros-Stores_full : (n : ℕ) → Stores full_file (replicate n 0)
zeros-Stores_full zero = tt
zeros-Stores_full (suc n) = (refl, zeros-Stores_full n)

zeros-Stores_zero : (n : ℕ) → Stores zero_file (replicate n 0)
zeros-Stores_zero zero = tt
zeros-Stores_zero (suc n) = (refl, zeros-Stores_zero n)

-- How many bytes a read of `sz` gets.
abbrev pub amount : Sfile → ℕ → ℕ
amount null_file sz = min sz 1
amount random_file sz = sz
amount full_file sz = sz
amount zero_file sz = sz

read_random-runs :
    (sz : ℕ) (xs : List ℕ) (g g' : Rng)
    → random_bytes sz g ≡ ok (xs, g')
    → read_special random_file true sz g ≡ ok (count sz, xs, g')
unfolding read_special
read_random-runs sz xs g g' e = rw (e, read_special) refl

-- A read of sz bytes from a readable special file fails no assertion, answers the number of bytes
-- that it stores, and stores sz of them, or of the null file one at most: NULs, but from the
-- random file bytes from 1 to 255.
pub read_special_lem :
    (f : Sfile) (sz : ℕ) (g : Rng)
    → (out : List ℕ) × (g' : Rng) × (read_special f true sz g ≡ ok (count (length out), out, g'))
      × (length out ≡ amount f sz)
      × Stores f out
unfolding read_special
read_special_lem null_file sz g = elim (Bool-cases (sz == 0)) [
  | inl z ↦ ([], g, rw z refl, ground arith, tt)
  | inr nz ↦ (0 ∷ [], g, rw nz refl, ground arith, (refl, tt))
]
read_special_lem random_file sz g =
    let (xs, g', e, size, s) = random_bytes-Stores sz g in
    (xs, g', read_random-runs sz xs g g' e ∙ ap (λ n. ok (count n, xs, g')) (sym size), size, s)
read_special_lem full_file sz g = (
  replicate sz 0,
  g,
  ap (λ n. ok (count n, replicate sz 0, g)) (sym (length-replicate sz 0)),
  length-replicate sz 0,
  zeros-Stores_full sz,
)
read_special_lem zero_file sz g = (
  replicate sz 0,
  g,
  ap (λ n. ok (count n, replicate sz 0, g)) (sym (length-replicate sz 0)),
  length-replicate sz 0,
  zeros-Stores_zero sz,
)
