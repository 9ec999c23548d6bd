-- ===== src/Pipe/Read.antt =====
-- `pipe_bbuf::read`: the bytes that it hands over.
use cs_161_s21_problem_sets.Prelude.{
  ℕ, zero, suc, ◌+◌, ◌-◌, ◌%◌, ◌^◌, ◌≤◌, ◌<◌, ◌≡◌, refl, sym, ap, ◌∙◌, min, ◌&&◌, some, List, [],
  ◌++◌, arith, length, length-append, ltb, Bool-cases, inl, inr, ◌==◌,
}
use mathlib.Core.List.{append_assoc}
use cs_161_s21_problem_sets.Pipe.State.{
  Bbuf, cap, int_size, read_round, get_round, load_bytes, read_loop, read_after,
}
use cs_161_s21_problem_sets.Pipe.Window.{window, contents, window-load_bytes, window_mod}
use cs_161_s21_problem_sets.Pipe.Write.{IsValid, SameEnds}

length-load_bytes : (buf : ℕ → ℕ) (i n : ℕ) → length (load_bytes buf i n) ≡ n
unfolding load_bytes
length-load_bytes buf i zero = refl
length-load_bytes buf i (suc n) = ap suc (length-load_bytes buf (i + 1) n)

module _ {b : Bbuf} (v : IsValid b) (sz at : ℕ) (some_left : at < sz) (held : 0 < b.len) where
  round_bounds :
      (0 < read_round b sz at)
      × (read_round b sz at ≤ sz - at)
      × (read_round b sz at ≤ b.len)
      × (b.pos + read_round b sz at ≤ cap)
  unfolding read_round
  round_bounds = (ground arith, ground arith, ground arith, ground arith)

  get_round-IsValid : IsValid (get_round b (read_round b sz at))
  unfolding get_round
  get_round-IsValid = omega (arith, round_bounds, v.len_in)

  contents-get_round :
      contents b
      ≡ load_bytes b.bbuf b.pos (read_round b sz at) ++ contents (get_round b (read_round b sz at))
  unfolding get_round
  contents-get_round =
      ap (λ n. window b.bbuf b.pos n) (omega (arith, round_bounds))
      ∙ window-load_bytes b.bbuf b.pos (read_round b sz at) (b.len - read_round b sz at)
          (omega (arith, round_bounds))
      ∙ ap (λ l. load_bytes b.bbuf b.pos (read_round b sz at) ++ l)
          (window_mod b.bbuf (b.pos + read_round b sz at) ((b.pos + read_round b sz at) % cap) _
            (omega arith))

-- What the loop of `read` has done when it stops: bytes left the front of the ring.
record Got (b : Bbuf) (sz : ℕ) (out : List ℕ) (out' : List ℕ) (b' : Bbuf) : Type 0 where
  valid : IsValid b'
  ends : SameEnds b b'
  bytes : out ++ contents b ≡ out' ++ contents b'
  amount : length out' ≡ length out + min (sz - length out) b.len

read_loop-Got :
    (fuel : ℕ) (b : Bbuf) (sz : ℕ) (out : List ℕ)
    → IsValid b
    → sz < 2 ^ 31
    → length out ≤ sz
    → b.len < fuel
    → (out' : List ℕ) × (b' : Bbuf) × (read_loop fuel b sz out ≡ some (out', b'))
      × Got b sz out out' b'
unfolding read_loop get_round
read_loop-Got zero b sz out v small le enough = absurd (omega arith)
read_loop-Got (suc fuel) b sz out v small le enough =
    elim (Bool-cases (ltb (length out) (int_size sz) && ltb 0 b.len)) [
      | inl go ↦
          let lt : length out < sz = ground arith in
          let held : 0 < b.len = ground arith in
          let n = read_round b sz (length out) in
          let new = load_bytes b.bbuf b.pos n in
          let (some_got, in_left, in_held, _) = round_bounds v sz (length out) lt held in
          let size : length (out ++ new) ≡ length out + n =
            length-append out new ∙ ap (λ k. length out + k) (length-load_bytes b.bbuf b.pos n) in
          let (out', b', e, w) =
            read_loop-Got fuel (get_round b n) sz (out ++ new)
              (get_round-IsValid v sz (length out) lt held) small (omega (arith, size))
              (omega arith) in
          (
            out',
            b',
            rw (go, e) refl,
            record {
              valid = w.valid;
              ends = w.ends;
              bytes =
                  ap (λ l. out ++ l) (contents-get_round v sz (length out) lt held)
                  ∙ sym (append_assoc out new _)
                  ∙ w.bytes;
              amount = omega (arith, w.amount, size);
            },
          )
      | inr stop ↦
          let z : min (sz - length out) b.len ≡ 0 = ground arith in
          (
            out,
            b,
            rw stop refl,
            record { valid = v; ends = (refl, refl); bytes = refl; amount = omega (arith, z) },
          )
    ]

-- `read` on a valid ring hands over as many of the oldest bytes as there are and fit, in order,
-- and leaves the rest; the ends stay as they are and the ring stays valid. The size fits an int.
pub read_after_lem :
    {b : Bbuf} (sz : ℕ)
    → IsValid b
    → sz < 2 ^ 31
    → (out : List ℕ) × (b' : Bbuf) × (read_after b sz ≡ some (out, b'))
      × (contents b ≡ out ++ contents b')
      × (length out ≡ min sz b.len)
      × SameEnds b b'
      × IsValid b'
unfolding read_after
read_after_lem {b} sz v small = elim (Bool-cases (b.write_closed && (b.len == 0))) [
  | inl eof ↦ ([], b, rw eof refl, refl, ground arith, (refl, refl), v)
  | inr more ↦
      let (out, b', e, w) = read_loop-Got (suc b.len) b sz [] v small (omega arith) (omega arith) in
      (out, b', rw (more, e) refl, w.bytes, omega (arith, w.amount), w.ends, w.valid)
]
