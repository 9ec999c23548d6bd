-- ===== src/Pipe/Write.antt =====
-- `pipe_bbuf::write`: the bytes that it takes.
use cs_161_s21_problem_sets.Prelude.{
  ℕ, zero, suc, ◌+◌, ◌-◌, ◌%◌, ◌^◌, ◌≤◌, ◌<◌, ◌≡◌, refl, sym, ap, ◌∙◌, min, false, ◌&&◌, some, List,
  ◌++◌, arith, length, length-take, length-drop, take, drop, ltb, take-append-take-drop, Bool-cases,
  inl, inr,
}
use mathlib.Core.List.{append_assoc, append-nil}
use cs_161_s21_problem_sets.Errno.{count}
use cs_161_s21_problem_sets.Pipe.State.{
  Bbuf, cap, int_size, write_round, put_round, store_bytes, write_loop, write_after,
}
use cs_161_s21_problem_sets.Pipe.Window.{window, contents, window-store_bytes}

-- The indices stay inside the array.
pub record IsValid (b : Bbuf) : Type 0 where
  pub pos_in : b.pos < cap
  pub len_in : b.len ≤ cap

-- The ends are as they were.
abbrev pub SameEnds : Bbuf → Bbuf → Type 0
SameEnds b b' = (b'.write_closed ≡ b.write_closed) × (b'.read_closed ≡ b.read_closed)

module _ {b : Bbuf} (v : IsValid b) (src : List ℕ) (isz at : ℕ) (some_left : at < isz)
    (in_src : isz ≤ length src) (room : b.len < cap) where
  round_bounds :
      (0 < write_round b isz at)
      × (write_round b isz at ≤ isz - at)
      × (write_round b isz at ≤ cap - b.len)
      × ((b.pos + b.len) % cap + write_round b isz at ≤ cap)
  unfolding write_round
  round_bounds = (ground arith, ground arith, ground arith, ground arith)

  put_round-IsValid : IsValid (put_round b src at (write_round b isz at))
  unfolding put_round
  put_round-IsValid = omega (arith, round_bounds, v.pos_in)

  contents-put_round :
      contents (put_round b src at (write_round b isz at))
      ≡ contents b ++ take (write_round b isz at) (drop at src)
  unfolding put_round
  contents-put_round =
      let taken : length (take (write_round b isz at) (drop at src)) ≡ write_round b isz at =
        omega (
          arith,
          length-take (write_round b isz at) (drop at src),
          length-drop at src,
          round_bounds,
        ) in
      ap
        (λ k.
          window
            (store_bytes b.bbuf ((b.pos + b.len) % cap) (take (write_round b isz at) (drop at src)))
            b.pos (b.len + k))
        (sym taken)
      ∙ window-store_bytes b.bbuf b.pos b.len ((b.pos + b.len) % cap)
          (take (write_round b isz at) (drop at src)) refl (omega (arith, round_bounds))
          (omega (arith, round_bounds))

-- What the loop of `write` has done when it stops.
record Wrote (b : Bbuf) (src : List ℕ) (isz at : ℕ) (b' : Bbuf) : Type 0 where
  valid : IsValid b'
  ends : SameEnds b b'
  bytes : contents b' ≡ contents b ++ take (min (isz - at) (cap - b.len)) (drop at src)

write_loop-Wrote :
    (fuel : ℕ) (b : Bbuf) (src : List ℕ) (isz at : ℕ)
    → IsValid b
    → isz ≤ length src
    → at ≤ isz
    → isz - at < fuel
    → (b' : Bbuf) × (write_loop fuel b src isz at ≡ some (at + min (isz - at) (cap - b.len), b'))
      × Wrote b src isz at b'
unfolding write_loop put_round
write_loop-Wrote zero b src isz at v in_src le enough = absurd (omega arith)
write_loop-Wrote (suc fuel) b src isz at v in_src le enough =
    elim (Bool-cases (ltb at isz && ltb b.len cap)) [
      | inl go ↦
          let lt : at < isz = ground arith in
          let room : b.len < cap = ground arith in
          let wr = write_round b isz at in
          let (some_taken, in_left, in_room, _) = round_bounds v src isz at lt in_src room in
          let (b', e, w) =
            write_loop-Wrote fuel (put_round b src at wr) src isz (at + wr)
              (put_round-IsValid v src isz at lt in_src room) in_src (omega arith) (omega arith) in
          let total : wr + min (isz - (at + wr)) (cap - (b.len + wr))
              ≡ min (isz - at) (cap - b.len) =
            omega arith in
          (
            b',
            rw (go, e) (ap (λ n. some (n, b')) (omega (arith, total))),
            record {
              valid = w.valid;
              ends = w.ends;
              bytes =
                  w.bytes
                  ∙ ap
                      (λ l.
                        l ++ take (min (isz - (at + wr)) (cap - (b.len + wr))) (drop (at + wr) src))
                      (contents-put_round v src isz at lt in_src room)
                  ∙ append_assoc (contents b) (take wr (drop at src)) _
                  ∙ ap (λ l. contents b ++ l)
                      (take-append-take-drop src at wr _ ∙ ap (λ n. take n (drop at src)) total);
            },
          )
      | inr stop ↦
          let z : min (isz - at) (cap - b.len) ≡ 0 = ground arith in
          (
            b,
            rw stop (ap (λ n. some (n, b)) (omega (arith, z))),
            record { valid = v; ends = (refl, refl); bytes = rw (z, append-nil) refl },
          )
    ]

write_after-loop :
    (b b' : Bbuf) (src : List ℕ) (n : ℕ)
    → b.read_closed ≡ false
    → length src < 2 ^ 31
    → write_loop (suc (length src)) b src (length src) 0 ≡ some (n, b')
    → write_after b src ≡ some (count n, b')
unfolding write_after
write_after-loop b b' src n op small e =
    let isz : int_size (length src) ≡ length src = ground arith in rw (isz, e, op) refl

-- With the read end open, `write` on a valid ring appends as many of the bytes as fit, in order,
-- and returns their number, which may be less than the size, where the comment on `vnode::write`
-- promises all or none; the ends stay as they are and the ring stays valid. The size fits an int.
pub write_after_lem :
    {b : Bbuf} (src : List ℕ)
    → IsValid b
    → length src < 2 ^ 31
    → b.read_closed ≡ false
    → let n = min (length src) (cap - b.len) in
      (b' : Bbuf) × (write_after b src ≡ some (count n, b'))
      × (contents b' ≡ contents b ++ take n src)
      × SameEnds b b'
      × IsValid b'
write_after_lem {b} src v small op =
    let (b', e, w) =
      write_loop-Wrote (suc (length src)) b src (length src) 0 v (omega arith) (omega arith)
        (omega arith) in
    let n : 0 + min (length src - 0) (cap - b.len) ≡ min (length src) (cap - b.len) = omega arith in
    (
      b',
      write_after-loop b b' src _ op small (e ∙ ap (λ k. some (k, b')) n),
      w.bytes ∙ ap (λ k. contents b ++ take k src) (omega arith),
      w.ends,
      w.valid,
    )
