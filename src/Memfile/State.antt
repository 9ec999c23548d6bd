-- ===== src/Memfile/State.antt =====
-- `memfile`, its `set_length`, and `write` and `read` of a `memfile_vnode`, which holds an offset. The
-- data are a function of the index. Two arguments stand for the allocator: whether it has room for so
-- many bytes, and what the new bytes hold.
use cs_161_s21_problem_sets.Prelude.{
  ℕ, zero, suc, ◌+◌, ◌-◌, ◌%◌, ◌^◌, Bool, ◌&&◌, ◌||◌, not, Option, none, some, List, [], ◌∷◌,
  Outcome, ok, assert, ◌>>=◌, ◌>>◌, ltb, leb, if◌then◌else◌, length, get_or,
}
use cs_161_s21_problem_sets.Errno.{IoResult, count, fail, badf, nospc}
use cs_161_s21_problem_sets.Memfile.Capacity.{round_up_pow2}

pub record Memfile : Type 0 where
  pub data_bytes : ℕ → ℕ
  pub len : ℕ
  pub capacity : ℕ

abbrev pub ssize_max : ℕ
ssize_max = 2 ^ 63 - 1

-- The data in new memory of the capacity `cap`.
abbrev pub regrown : (ℕ → ℕ) → ℕ → Memfile → Memfile
regrown new_data cap f = record f {
  data_bytes = λ i. if ltb i f.len then f.data_bytes i else new_data i;
  capacity = cap;
}

-- `set_length`: the file afterwards; none is E_NOSPC.
unfoldable pub set_length : (ℕ → Bool) → (ℕ → ℕ) → ℕ → Memfile → Option Memfile
set_length has_room new_data len f =
    if ltb f.capacity len
    then (if ltb ssize_max len || not (has_room (round_up_pow2 len))
        then none
        else some (record (regrown new_data (round_up_pow2 len) f) { len = len }))
    else some (record f { len = len })

-- `io_sz`
unfoldable pub io_sz : ℕ → ℕ → ℕ → Outcome ℕ
io_sz start cap sz = do
  assert (leb start cap)
  ok (if ltb sz (cap - start) then sz else cap - start)

-- `memcpy` of the bytes to the data at `offset`, and out of them.
abbrev pub placed : (ℕ → ℕ) → ℕ → List ℕ → ℕ → ℕ
placed bytes offset src i =
    if leb offset i && ltb i (offset + length src) then get_or src (i - offset) 0 else bytes i

unfoldable pub bytes_from : (ℕ → ℕ) → ℕ → ℕ → List ℕ
bytes_from bytes offset zero = []
bytes_from bytes offset (suc n) = bytes offset ∷ bytes_from bytes (offset + 1) n

-- The end of `write`: the bytes go to the data, and the offset moves on.
abbrev pub stored : Memfile → ℕ → List ℕ → IoResult × Memfile × ℕ
stored f offset src = (
  count (length src),
  record f { data_bytes = placed f.data_bytes offset src },
  (offset + length src) % 2 ^ 64,
)

-- `write`: the result, the file and the offset.
unfoldable pub write :
    (ℕ → Bool) → (ℕ → ℕ) → Bool → Memfile → ℕ → List ℕ → Outcome (IoResult × Memfile × ℕ)
unfolding io_sz set_length
write has_room new_data writeable f offset src =
    if not writeable then ok (fail badf, f, offset) else (do
      best_sz ← io_sz offset f.len (length src)
      if ltb best_sz (length src)
          then (elim (set_length has_room new_data ((offset + length src) % 2 ^ 64) f) [
            | none ↦ ok (fail nospc, f, offset)
            | some f' ↦ ok (stored f' offset src)
          ])
          else ok (stored f offset src))

-- `read`: the result, the bytes and the offset.
unfoldable pub read : Bool → Memfile → ℕ → ℕ → Outcome (IoResult × List ℕ × ℕ)
unfolding io_sz bytes_from
read readable f offset sz = if not readable then ok (fail badf, [], offset) else (do
  rd_sz ← io_sz offset f.len sz
  ok (count rd_sz, bytes_from f.data_bytes offset rd_sz, (offset + rd_sz) % 2 ^ 64))
