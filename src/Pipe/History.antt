-- ===== src/Pipe/History.antt =====
-- Whole lives of a pipe: the order of bytes over any sequence of calls, and the closing of its ends.
use cs_161_s21_problem_sets.Prelude.{
  ℕ, ◌<◌, ◌^◌, ◌≡◌, refl, sym, ap, ◌∙◌, true, false, Option, none, some, List, [], ◌∷◌, ◌++◌, arith,
  length, take, ok, Bool-cases, inl, inr,
}
use mathlib.Core.List.{append_assoc, append-nil}
use cs_161_s21_problem_sets.Errno.{IoResult, count, fail, pipe}
use cs_161_s21_problem_sets.Pipe.State.{
  Bbuf, read_end, write_end, write_after, read_after, vnode_write, vnode_read, destroy, kept,
  unlocks_freed,
}
use cs_161_s21_problem_sets.Pipe.Window.{contents}
use cs_161_s21_problem_sets.Pipe.Write.{IsValid, write_after_lem}
use cs_161_s21_problem_sets.Pipe.Read.{read_after_lem}

-- A call that has done its sleeping: a write of some bytes, or a read of at most so many.
pub data Op : Type 0 where
  put : List ℕ → Op
  get : ℕ → Op

-- The sizes fit an int.
abbrev pub Fits : List Op → Type 0
Fits [] = Unit {0}
Fits (put src ∷ ops) = (length src < 2 ^ 31) × Fits ops
Fits (get sz ∷ ops) = (sz < 2 ^ 31) × Fits ops

-- What a write reports as taken.
abbrev pub accepted : IoResult → List ℕ → List ℕ
accepted (count n) src = take n src
accepted (fail e) src = []

-- The bytes that one call puts in and takes out.
unfoldable pub step : Bbuf → Op → Option (List ℕ × List ℕ × Bbuf)
step b (put src) = elim (vnode_write write_end b src) [
  | none ↦ none
  | some (r, b') ↦ some (accepted r src, [], b')
]
step b (get sz) = elim (vnode_read read_end b sz) [
  | none ↦ none
  | some (r, out, b') ↦ some ([], out, b')
]

unfoldable pub run : Bbuf → List Op → Option (List ℕ × List ℕ × Bbuf)
run b [] = some ([], [], b)
run b (op ∷ ops) = elim (step b op) [
  | none ↦ none
  | some (i, o, b') ↦ (elim (run b' ops) [
    | none ↦ none
    | some (is, os, b'') ↦ some (i ++ is, o ++ os, b'')
  ])
]

-- A call ends, and moves bytes in and out at the two ends of the queue.
abbrev Moves : Bbuf → List ℕ → List ℕ → Bbuf → Type 0
Moves b sent got b' = (contents b ++ sent ≡ got ++ contents b') × IsValid b'

step-put :
    (b : Bbuf) (src : List ℕ) (r : IoResult) (b' : Bbuf)
    → write_after b src ≡ some (r, b')
    → step b (put src) ≡ some (accepted r src, [], b')
unfolding step vnode_write
step-put b src r b' e = rw (e, step) refl

step-get :
    (b : Bbuf) (sz : ℕ) (out : List ℕ) (b' : Bbuf)
    → read_after b sz ≡ some (out, b')
    → step b (get sz) ≡ some ([], out, b')
unfolding step vnode_read
step-get b sz out b' e = rw (e, step) refl

write_after_closed :
    (b : Bbuf) (src : List ℕ) → b.read_closed ≡ true → write_after b src ≡ some (fail pipe, b)
unfolding write_after
write_after_closed b src e = rw e refl

step-Moves :
    (b : Bbuf) (op : Op)
    → IsValid b
    → Fits (op ∷ [])
    → (sent got : List ℕ) × (b' : Bbuf) × (step b op ≡ some (sent, got, b')) × Moves b sent got b'
step-Moves b (put src) v fits = elim (Bool-cases b.read_closed) [
  | inl shut ↦ ([], [], b, step-put b src _ b (write_after_closed b src shut), (append-nil _, v))
  | inr op ↦
      let (b', e, bytes, _, v') = write_after_lem src v fits.0 op in
      (_, [], b', step-put b src _ b' e, (sym bytes, v'))
]
step-Moves b (get sz) v fits =
    let (out, b', e, bytes, _, _, v') = read_after_lem sz v fits.0 in
    ([], out, b', step-get b sz out b' e, (append-nil _ ∙ bytes, v'))

run-cons :
    (b b' b'' : Bbuf) (op : Op) (ops : List Op) (i o is os : List ℕ)
    → step b op ≡ some (i, o, b')
    → run b' ops ≡ some (is, os, b'')
    → run b (op ∷ ops) ≡ some (i ++ is, o ++ os, b'')
unfolding run
run-cons b b' b'' op ops i o is os e f = rw (e, run) (rw (f, run) refl)

Fits-split : (op : Op) (ops : List Op) → Fits (op ∷ ops) → Fits (op ∷ []) × Fits ops
Fits-split (put src) ops f = ((f.0, tt), f.1)
Fits-split (get sz) ops f = ((f.0, tt), f.1)

-- A pipe is a queue. Whatever writes and reads, each taken after any sleep that it makes, are
-- made on a valid ring, each of a size that fits an int, all of them end; what the ring held
-- followed by what it took in is what it gave out followed by what it still holds, byte for byte
-- and in order; and the ring stays valid.
pub run_fifo :
    (b : Bbuf) (ops : List Op)
    → IsValid b
    → Fits ops
    → (sent got : List ℕ) × (b' : Bbuf) × (run b ops ≡ some (sent, got, b'))
      × (contents b ++ sent ≡ got ++ contents b')
      × IsValid b'
unfolding run
run_fifo b [] v fits = ([], [], b, refl, append-nil _, v)
run_fifo b (op ∷ ops) v fits =
    let (now, later) = Fits-split op ops fits in
    let (i, o, b1, e, (m, v1)) = step-Moves b op v now in
    let (is, os, b2, f, n, v2) = run_fifo b1 ops v1 later in
    (
      i ++ is,
      o ++ os,
      b2,
      run-cons b b1 b2 op ops i o is os e f,
      sym (append_assoc (contents b) i is)
          ∙ ap (λ l. l ++ is) m
          ∙ append_assoc o (contents b1) is
          ∙ ap (λ l. o ++ l) n
          ∙ sym (append_assoc o os (contents b2)),
      v2,
    )

-- The destructors of the two ends of an open pipe: the read end goes first and only its end is closed,
-- and likewise the write end; the second one unlocks freed memory.
pub destroy_both :
    (b : Bbuf)
    → b.write_closed ≡ false
    → b.read_closed ≡ false
    → (destroy read_end (some b) ≡ ok (kept (record b { read_closed = true })))
      × (destroy write_end (some b) ≡ ok (kept (record b { write_closed = true })))
      × (destroy write_end (some (record b { read_closed = true })) ≡ ok unlocks_freed)
      × (destroy read_end (some (record b { write_closed = true })) ≡ ok unlocks_freed)
unfolding destroy
destroy_both b w r = (ground arith, ground arith, ground arith, ground arith)
