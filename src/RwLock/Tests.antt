-- ===== src/RwLock/Tests.antt =====
-- A run of the lock with two readers and a writer that waits, and the theorems on it.
use cs_161_s21_problem_sets.Prelude.{ℕ, ◌≡◌, refl, true, false, List, [], ◌∷◌, ok, panic, arith}
use cs_161_s21_problem_sets.RwLock.State.{
  reading, writing, locking_write, Move, lock_read, lock_write, attempt, Lock, init, run,
}
use cs_161_s21_problem_sets.RwLock.Counts.{reads, writes}
use cs_161_s21_problem_sets.RwLock.Exclusion.{writer_alone}

abbrev two_readers : List (ℕ × Move)
two_readers =
    (0, lock_read)
    ∷ (1, lock_read)
    ∷ (0, attempt)
    ∷ (1, attempt)
    ∷ (1, attempt)
    ∷ (2, lock_write)
    ∷ (2, attempt)
    ∷ []

read_twice :
    run false (init 3) two_readers
    ≡ ok (record { mlock = 2; tasks = reading ∷ reading ∷ locking_write ∷ [] })
unfolding run init
read_twice = refl

abbrev one_writer : List (ℕ × Move)
one_writer = (1, lock_write) ∷ (1, attempt) ∷ (0, lock_write) ∷ (0, attempt) ∷ []

abbrev written : Lock
written = record { mlock = 255; tasks = locking_write ∷ writing ∷ [] }

write_once : run false (init 2) one_writer ≡ ok written
unfolding run init
write_once = refl

-- On the lock of an inode the second call of `lock_write` fails its assertion.
write_panics : run true (init 2) one_writer ≡ panic
unfolding run init
write_panics = refl

writer_alone_example : (reads locking_write ≡ 0) × (writes locking_write ≡ 0)
writer_alone_example = writer_alone 2 one_writer 1 0 write_once (omega arith) refl refl
