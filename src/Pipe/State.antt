-- ===== src/Pipe/State.antt =====
-- The state and the operations of `pipe_bbuf` and `pipe_vnode`.
use cs_161_s21_problem_sets.Prelude.{
  ℕ, zero, suc, ◌+◌, ◌-◌, ◌%◌, ◌^◌, Bool, true, ◌&&◌, ◌||◌, not, Option, none, some, List, [], ◌∷◌,
  ◌++◌, Outcome, ok, panic, assert, ◌>>=◌, ◌>>◌, ltb, ◌==◌, if◌then◌else◌, length, take, drop,
}
use cs_161_s21_problem_sets.Errno.{badf, pipe, IoResult, count, fail}

-- BBUF_CAP
abbrev pub cap : ℕ
cap = 256

-- `pipe_bbuf`; the array `bbuf_` is a function of the index.
pub record Bbuf : Type 0 where
  pub bbuf : ℕ → ℕ
  pub pos : ℕ
  pub len : ℕ
  pub write_closed : Bool
  pub read_closed : Bool

abbrev pub pipe_empty : Bbuf → Bool
pipe_empty b = b.len == 0

abbrev pub pipe_full : Bbuf → Bool
pipe_full b = b.len == cap

unfoldable pub close_write : Bbuf → Outcome Bbuf
close_write b = do assert (not b.write_closed); ok (record b { write_closed = true })

unfoldable pub close_read : Bbuf → Outcome Bbuf
close_read b = do assert (not b.read_closed); ok (record b { read_closed = true })

-- `get_min`
unfoldable pub get_min : ℕ → ℕ → ℕ
get_min a b = if ltb a b then a else b

-- `(int) sz` as the loops use it: of a negative number they make no round, as of 0.
abbrev pub int_size : ℕ → ℕ
int_size sz = if ltb (sz % 2 ^ 32) (2 ^ 31) then sz % 2 ^ 32 else 0

abbrev pub update : (ℕ → ℕ) → ℕ → ℕ → ℕ → ℕ
update f i v j = if i == j then v else f j

-- memcpy into the ring from index `i`, and out of it.
unfoldable pub store_bytes : (ℕ → ℕ) → ℕ → List ℕ → ℕ → ℕ
store_bytes buf i [] = buf
store_bytes buf i (x ∷ xs) = store_bytes (update buf i x) (i + 1) xs

unfoldable pub load_bytes : (ℕ → ℕ) → ℕ → ℕ → List ℕ
load_bytes buf i zero = []
load_bytes buf i (suc n) = buf i ∷ load_bytes buf (i + 1) n

-- The size of one round of the loop of `write` and of `read`.
unfoldable pub write_round : Bbuf → ℕ → ℕ → ℕ
unfolding get_min
write_round b isz at = get_min (isz - at) (get_min (cap - (b.pos + b.len) % cap) (cap - b.len))

unfoldable pub read_round : Bbuf → ℕ → ℕ → ℕ
unfolding get_min
read_round b sz at = get_min (sz - at) (get_min b.len (cap - b.pos))

-- One round of `write`: `wr` bytes of `src` from `at` go behind the bytes held.
unfoldable pub put_round : Bbuf → List ℕ → ℕ → ℕ → Bbuf
put_round b src at wr = record b {
  bbuf = store_bytes b.bbuf ((b.pos + b.len) % cap) (take wr (drop at src));
  len = b.len + wr;
}

-- One round of `read`: `n` bytes from `pos_` leave the ring.
unfoldable pub get_round : Bbuf → ℕ → Bbuf
get_round b n = record b { pos = (b.pos + n) % cap; len = b.len - n }

-- The loop of `write`; `src` are the bytes at `addr`, `isz` is `(int) sz`, `at` is `pos`.
unfoldable pub write_loop : ℕ → Bbuf → List ℕ → ℕ → ℕ → Option (ℕ × Bbuf)
write_loop zero b src isz at = none
write_loop (suc fuel) b src isz at =
    let wr = write_round b isz at in
    let rest = write_loop fuel (put_round b src at wr) src isz (at + wr) in
    if ltb at isz && ltb b.len cap then rest else some (at, b)

-- The loop of `read`; `out` are the bytes that it has copied to `addr`.
unfoldable pub read_loop : ℕ → Bbuf → ℕ → List ℕ → Option (List ℕ × Bbuf)
read_loop zero b sz out = none
read_loop (suc fuel) b sz out =
    let n = read_round b sz (length out) in
    let rest = read_loop fuel (get_round b n) sz (out ++ load_bytes b.bbuf b.pos n) in
    if ltb (length out) (int_size sz) && ltb 0 b.len then rest else some (out, b)

-- The head of `write`: does the call sleep?
unfoldable pub write_entry : Bbuf → ℕ → Outcome Bool
write_entry b sz = do assert (not b.write_closed); ok (pipe_full b && not (sz == 0))

-- What a sleeping writer waits for.
abbrev pub write_wakes : Bbuf → Bool
write_wakes b = not (pipe_full b) || b.read_closed

-- The rest of `write`. The fuel is one round more than there are bytes.
unfoldable pub write_after : Bbuf → List ℕ → Option (IoResult × Bbuf)
write_after b src =
    if b.read_closed
    then some (fail pipe, b)
    else (elim (write_loop (suc (length src)) b src (int_size (length src)) 0) [
      | none ↦ none
      | some (n, b') ↦ some (count n, b')
    ])

-- The head of `read`: does the call sleep?
unfoldable pub read_entry : Bbuf → ℕ → Outcome Bool
read_entry b sz = do
  assert (not b.read_closed)
  ok (pipe_empty b && not b.write_closed && not (sz == 0))

-- What a sleeping reader waits for.
abbrev pub read_wakes : Bbuf → Bool
read_wakes b = not (pipe_empty b) || b.write_closed

-- The rest of `read`: the bytes copied out, none at the end of file (EOF is 0).
unfoldable pub read_after : Bbuf → ℕ → Option (List ℕ × Bbuf)
read_after b sz =
    if b.write_closed && pipe_empty b then some ([], b) else read_loop (suc b.len) b sz []

-- `pipe_vnode`: the end that it stands for.
pub data End : Type 0 where
  read_end write_end : End

-- `pipe_vnode::write` and `read` after any sleep: the wrong end answers E_BADF.
unfoldable pub vnode_write : End → Bbuf → List ℕ → Option (IoResult × Bbuf)
vnode_write write_end b src = write_after b src
vnode_write read_end b src = some (fail badf, b)

unfoldable pub vnode_read : End → Bbuf → ℕ → Option (IoResult × List ℕ × Bbuf)
vnode_read write_end b sz = some (fail badf, [], b)
vnode_read read_end b sz = elim (read_after b sz) [
  | none ↦ none
  | some (out, b') ↦ some (count (length out), out, b')
]

-- How `~pipe_vnode` ends: the buffer is kept, with this end closed; or it is deleted, and then the guard
-- on its lock, which is still in scope, unlocks it in freed memory.
pub data Destroyed : Type 0 where
  kept : Bbuf → Destroyed
  unlocks_freed : Destroyed

abbrev after_close : Bbuf → Destroyed
after_close b = if b.write_closed && b.read_closed then unlocks_freed else kept b

-- `~pipe_vnode` of an end with this `bbuf_`. The guard takes the lock of the buffer before the test for
-- the null pointer, which comes too late: null is dereferenced, a panic here.
unfoldable pub destroy : End → Option Bbuf → Outcome Destroyed
unfolding close_read close_write
destroy e none = panic
destroy read_end (some b) = do b' ← close_read b; ok (after_close b')
destroy write_end (some b) = do b' ← close_write b; ok (after_close b')
