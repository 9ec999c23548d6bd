-- ===== src/Memfile/Tests.antt =====
-- The theorems on files at a file of three bytes, with an allocator that has room for 16 bytes.
use cs_161_s21_problem_sets.Prelude.{
  ℕ, ◌+◌, ◌*◌, ◌^◌, ◌≤◌, ◌<◌, ◌≡◌, ◌⊎◌, refl, Bool, true, false, none, some, [], ◌∷◌, Outcome, ok,
  panic, leb, min, arith,
}
use cs_161_s21_problem_sets.Errno.{IoResult, count, fail, nospc}
use cs_161_s21_problem_sets.Memfile.Capacity.{round_up_pow2, round_up_pow2_lem}
use cs_161_s21_problem_sets.Memfile.State.{Memfile, ssize_max, set_length, write, read}
use cs_161_s21_problem_sets.Memfile.Contents.{IsValid, SameBelow, set_length_lem}
use cs_161_s21_problem_sets.Memfile.Write.{Written, write_lem, read-write}

abbrev small_room : ℕ → Bool
small_room n = leb n 16

abbrev three : Memfile
three = record { data_bytes = λ i. i + 65; len = 3; capacity = 4 }

three-IsValid : IsValid three
three-IsValid = record { fits = omega arith }

round_up_pow2_lem_small :
    (k : ℕ) × (round_up_pow2 5 ≡ 2 ^ k)
    × (k ≤ 64)
    × (5 ≤ round_up_pow2 5)
    × (round_up_pow2 5 < 2 * 5)
round_up_pow2_lem_small = round_up_pow2_lem 5 (omega arith) (omega arith)

set_length_lem_small :
    ((set_length small_room (λ i. 0) 6 three ≡ none)
      × (4 < 6)
      × ((ssize_max < 6) ⊎ (small_room (round_up_pow2 6) ≡ false)))
    ⊎ ((f' : Memfile) × (set_length small_room (λ i. 0) 6 three ≡ some f')
        × (f'.len ≡ 6)
        × IsValid f'
        × SameBelow (min 6 3) three f')
set_length_lem_small = set_length_lem small_room (λ i. 0) 6 three three-IsValid

write_lem_example :
    ((write small_room (λ i. 0) true three 2 (7 ∷ 8 ∷ []) ≡ ok (fail nospc, three, 2))
      × (small_room (round_up_pow2 (2 + 2)) ≡ false))
    ⊎ ((f' : Memfile) × (write small_room (λ i. 0) true three 2 (7 ∷ 8 ∷ [])
          ≡ ok (count 2, f', 2 + 2))
        × Written three 2 (7 ∷ 8 ∷ []) f')
write_lem_example =
    write_lem small_room (λ i. 0) three 2 (7 ∷ 8 ∷ []) three-IsValid (omega arith) (omega arith)

abbrev file_of : Outcome (IoResult × Memfile × ℕ) → Memfile
file_of panic = three
file_of (ok (r, f, offset)) = f

abbrev longer : Memfile
longer = file_of (write small_room (λ i. 0) true three 2 (7 ∷ 8 ∷ 9 ∷ []))

writes_three : write small_room (λ i. 0) true three 2 (7 ∷ 8 ∷ 9 ∷ []) ≡ ok (count 3, longer, 5)
unfolding write round_up_pow2
writes_three = refl

read-write_example : read true longer 2 3 ≡ ok (count 3, 7 ∷ 8 ∷ 9 ∷ [], 5)
read-write_example =
    read-write small_room (λ i. 0) three longer 2 5 (7 ∷ 8 ∷ 9 ∷ []) three-IsValid (omega arith)
      (omega arith) writes_three
