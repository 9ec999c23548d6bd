-- ===== src/Pipe/Tests.antt =====
-- Runs of the pipe, and its theorems at a ring that wraps around.
use cs_161_s21_problem_sets.Prelude.{
  ℕ, ◌-◌, ◌≡◌, refl, min, true, false, some, List, [], ◌∷◌, ◌++◌, arith, length, take, ok,
}
use cs_161_s21_problem_sets.Errno.{count}
use cs_161_s21_problem_sets.Pipe.State.{
  Bbuf, cap, read_end, write_end, write_after, read_after, destroy, kept, unlocks_freed,
}
use cs_161_s21_problem_sets.Pipe.Window.{contents}
use cs_161_s21_problem_sets.Pipe.Write.{IsValid, SameEnds, write_after_lem}
use cs_161_s21_problem_sets.Pipe.Read.{read_after_lem}
use cs_161_s21_problem_sets.Pipe.History.{Op, put, get, run, run_fifo, destroy_both}

-- Two bytes at the end of the array.
abbrev at_end : Bbuf
at_end = record { bbuf = λ i. i; pos = 254; len = 2; write_closed = false; read_closed = false }

at_end-IsValid : IsValid at_end
at_end-IsValid = record { pos_in = omega arith; len_in = omega arith }

abbrev calls : List Op
calls = put (7 ∷ 8 ∷ 9 ∷ []) ∷ get 4 ∷ put (5 ∷ []) ∷ []

run_fifo_example :
    (sent got : List ℕ) × (b' : Bbuf) × (run at_end calls ≡ some (sent, got, b'))
    × (contents at_end ++ sent ≡ got ++ contents b')
    × IsValid b'
run_fifo_example =
    run_fifo at_end calls at_end-IsValid (omega arith, (omega arith, (omega arith, tt)))

write_after_lem_example :
    (b' : Bbuf) × (write_after at_end (7 ∷ 8 ∷ []) ≡ some (count (min 2 (cap - 2)), b'))
    × (contents b' ≡ contents at_end ++ take (min 2 (cap - 2)) (7 ∷ 8 ∷ []))
    × SameEnds at_end b'
    × IsValid b'
write_after_lem_example = write_after_lem (7 ∷ 8 ∷ []) at_end-IsValid (omega arith) refl

read_after_lem_example :
    (out : List ℕ) × (b' : Bbuf) × (read_after at_end 1 ≡ some (out, b'))
    × (contents at_end ≡ out ++ contents b')
    × (length out ≡ min 1 2)
    × SameEnds at_end b'
    × IsValid b'
read_after_lem_example = read_after_lem 1 at_end-IsValid (omega arith)

destroy_both_small :
    (destroy read_end (some at_end) ≡ ok (kept (record at_end { read_closed = true })))
    × (destroy write_end (some (record at_end { read_closed = true })) ≡ ok unlocks_freed)
destroy_both_small = let (reader, _, second, _) = destroy_both at_end refl refl in (reader, second)
