-- ===== src/Memfile/Write.antt =====
-- `memfile_vnode::write`, and reading back what it wrote.
use cs_161_s21_problem_sets.Prelude.{
  ℕ, suc, ◌+◌, ◌-◌, ◌%◌, ◌^◌, ◌≤◌, ◌<◌, ◌≡◌, refl, sym, ap, ap₂, ◌∙◌, ◌⊎◌, inl, inr, Bool, true,
  false, ◌&&◌, none, some, List, [], ◌∷◌, Outcome, ok, arith, ltb, leb, length, get_or, max,
  Bool-cases,
}
use cs_161_s21_problem_sets.Errno.{IoResult, count, fail, nospc}
use cs_161_s21_problem_sets.Memfile.Capacity.{round_up_pow2}
use cs_161_s21_problem_sets.Memfile.State.{
  Memfile, set_length, io_sz, placed, bytes_from, stored, write, read,
}
use cs_161_s21_problem_sets.Memfile.Contents.{IsValid, SameBelow, set_length_lem}

io_sz-fits : (start cap sz : ℕ) → start + sz ≤ cap → io_sz start cap sz ≡ ok sz
unfolding io_sz
io_sz-fits start cap sz h = ground arith

io_sz-short :
    (start cap sz : ℕ) → start ≤ cap → cap < start + sz → io_sz start cap sz ≡ ok (cap - start)
unfolding io_sz
io_sz-short start cap sz le h = ground arith

no_wrap : (a : ℕ) → a < 2 ^ 63 → a % 2 ^ 64 ≡ a
no_wrap a h = omega arith

below_itself : (a : ℕ) → ltb a a ≡ false
below_itself a = ground arith

module _ (has_room : ℕ → Bool) (new_data : ℕ → ℕ) (f : Memfile) (offset : ℕ) (src : List ℕ)
    (small : offset + length src < 2 ^ 63) where
  write-within :
      offset + length src ≤ f.len
      → write has_room new_data true f offset src ≡ ok (stored f offset src)
  unfolding write
  write-within h =
      rw (io_sz-fits offset f.len (length src) h, write) (rw (below_itself (length src)) refl)

  is_short : offset ≤ f.len → f.len < offset + length src → ltb (f.len - offset) (length src) ≡ true
  is_short le h = ground arith

  write-extends :
      (f' : Memfile)
      → offset ≤ f.len
      → f.len < offset + length src
      → set_length has_room new_data (offset + length src) f ≡ some f'
      → write has_room new_data true f offset src ≡ ok (stored f' offset src)
  unfolding write
  write-extends f' le h e =
      rw (io_sz-short offset f.len (length src) le h, write)
        (rw (is_short le h) (
          rw (ap (λ n. set_length has_room new_data n f) (no_wrap (offset + length src) small) ∙ e)
            refl))

  write-refused :
      offset ≤ f.len
      → f.len < offset + length src
      → set_length has_room new_data (offset + length src) f ≡ none
      → write has_room new_data true f offset src ≡ ok (fail nospc, f, offset)
  unfolding write
  write-refused le h e =
      rw (io_sz-short offset f.len (length src) le h, write)
        (rw (is_short le h) (
          rw (ap (λ n. set_length has_room new_data n f) (no_wrap (offset + length src) small) ∙ e)
            refl))

-- The file `f'` is `f` with the bytes `src` at `offset`, made longer where they need it.
pub record Written (f : Memfile) (offset : ℕ) (src : List ℕ) (f' : Memfile) : Type 0 where
  pub size : f'.len ≡ max f.len (offset + length src)
  pub valid : IsValid f'
  pub bytes : (i : ℕ) → i < f'.len → f'.data_bytes i ≡ placed f.data_bytes offset src i

stored-Written :
    (f g : Memfile) (offset : ℕ) (src : List ℕ)
    → offset ≤ f.len
    → g.len ≡ max f.len (offset + length src)
    → IsValid g
    → SameBelow f.len f g
    → Written f offset src (record g { data_bytes = placed g.data_bytes offset src })
stored-Written f g offset src le size v same = record {
  size = size;
  valid = record { fits = v.fits };
  bytes = λ i lt. placed_same i lt (leb offset i && ltb i (offset + length src)) refl;
}
  where
    beyond :
        (i : ℕ)
        → i < max f.len (offset + length src)
        → (leb offset i && ltb i (offset + length src)) ≡ false
        → i < f.len
    beyond i lt e = ground arith

    placed_same :
        (i : ℕ)
        → i < g.len
        → (b : Bool) → (leb offset i && ltb i (offset + length src)) ≡ b
        → placed g.data_bytes offset src i ≡ placed f.data_bytes offset src i
    placed_same i lt true e = rw e refl
    placed_same i lt false e = rw e (same i (beyond i (omega (arith, size)) e))

-- `write` at an offset inside a valid file, no ssize_t overflowing: no assertion fails. It
-- answers E_NOSPC, the allocator having no room, and leaves the file and the offset; or it takes
-- all the bytes: they stand at the offset, the other bytes of the file are what they were, the
-- file is long enough and valid, and the offset is behind them.
pub write_lem :
    (has_room : ℕ → Bool) (new_data : ℕ → ℕ) (f : Memfile) (offset : ℕ) (src : List ℕ)
    → IsValid f
    → offset ≤ f.len
    → offset + length src < 2 ^ 63
    → ((write has_room new_data true f offset src ≡ ok (fail nospc, f, offset))
        × (has_room (round_up_pow2 (offset + length src)) ≡ false))
      ⊎ ((f' : Memfile) × (write has_room new_data true f offset src
            ≡ ok (count (length src), f', offset + length src))
          × Written f offset src f')
write_lem has_room new_data f offset src v le small =
    elim (Bool-cases (leb (offset + length src) f.len)) [
      | inl within ↦
          let h : offset + length src ≤ f.len = ground arith in
          inr (
            record f { data_bytes = placed f.data_bytes offset src },
            write-within has_room new_data f offset src small h
                ∙ ap
                    (λ o. ok (
                      count (length src),
                      record f { data_bytes = placed f.data_bytes offset src },
                      o,
                    ))
                    wrap,
            stored-Written f f offset src le (omega arith) v (λ i lt. refl),
          )
      | inr beyond ↦
          let h : f.len < offset + length src = ground arith in
          elim (set_length_lem has_room new_data (offset + length src) f v) [
            | inl (e, _, inr no_room) ↦
                inl (write-refused has_room new_data f offset src small le h e, no_room)
            | inl (e, _, inl big) ↦ absurd (omega arith)
            | inr (g, e, size, w, same) ↦ inr (
              record g { data_bytes = placed g.data_bytes offset src },
              write-extends has_room new_data f offset src small g le h e
                  ∙ ap
                      (λ o. ok (
                        count (length src),
                        record g { data_bytes = placed g.data_bytes offset src },
                        o,
                      ))
                      wrap,
              stored-Written f g offset src le (omega (arith, size)) w
                  (λ i lt. same i (omega arith)),
            )
          ]
    ]
  where
    wrap : (offset + length src) % 2 ^ 64 ≡ offset + length src
    wrap = no_wrap (offset + length src) small

bytes_from-eq :
    (src : List ℕ) (bytes : ℕ → ℕ) (offset : ℕ)
    → ((k : ℕ) → k < length src → bytes (offset + k) ≡ get_or src k 0)
    → bytes_from bytes offset (length src) ≡ src
unfolding bytes_from
bytes_from-eq [] bytes offset h = refl
bytes_from-eq (x ∷ xs) bytes offset h =
    let z : offset + 0 ≡ offset = omega arith in
    ap₂ (λ a l. a ∷ l) (ap bytes (sym z) ∙ h 0 (omega arith))
      (bytes_from-eq xs bytes (offset + 1)
        (λ k lt. ap bytes (omega arith) ∙ h (suc k) (omega arith)))

read-runs :
    (f : Memfile) (offset sz : ℕ)
    → offset + sz ≤ f.len
    → read true f offset sz
      ≡ ok (count sz, bytes_from f.data_bytes offset sz, (offset + sz) % 2 ^ 64)
unfolding read
read-runs f offset sz h = rw (io_sz-fits offset f.len sz h, read) refl

-- What a `write` has put into a valid file at an offset inside it, no ssize_t overflowing, a
-- `read` of as many bytes from the same offset gets back, and ends at the same offset.
pub read-write :
    (has_room : ℕ → Bool) (new_data : ℕ → ℕ) (f f' : Memfile) (offset end : ℕ) (src : List ℕ)
    → IsValid f
    → offset ≤ f.len
    → offset + length src < 2 ^ 63
    → write has_room new_data true f offset src ≡ ok (count (length src), f', end)
    → read true f' offset (length src) ≡ ok (count (length src), src, end)
read-write has_room new_data f f' offset end src v le small e =
    elim (write_lem has_room new_data f offset src v le small) [
      | inl (e', _) ↦ absurd (failed (sym e' ∙ e))
      | inr (g, e', w) ↦
          let same : g ≡ f' = ground arith in
          let at_end : offset + length src ≡ end = ground arith in
          let got : bytes_from g.data_bytes offset (length src) ≡ src =
            bytes_from-eq src g.data_bytes offset
              (λ k lt. w.bytes (offset + k) (omega (arith, w.size)) ∙ at k lt) in
          rw (← same) (
            read-runs g offset (length src) (omega (arith, w.size))
            ∙ ap₂ (λ l o. ok (count (length src), l, o)) got
                (no_wrap (offset + length src) small ∙ at_end))
    ]
  where
    at : (k : ℕ) → k < length src → placed f.data_bytes offset src (offset + k) ≡ get_or src k 0
    at k lt =
        let e : (leb offset (offset + k) && ltb (offset + k) (offset + length src)) ≡ true =
          ground arith in
        let z : offset + k - offset ≡ k = omega arith in rw (e, z) refl

    failed :
        {n : ℕ} {f g : Memfile} {a b : ℕ}
        → ◌≡◌ {A = Outcome (IoResult × Memfile × ℕ)} (ok (fail nospc, f, a)) (ok (count n, g, b))
        → ⊥
    failed e = cc
