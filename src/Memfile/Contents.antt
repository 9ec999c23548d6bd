-- ===== src/Memfile/Contents.antt =====
-- What a write leaves in a file, and that a read gets it back.
use cs_161_s21_problem_sets.Prelude.{
  ℕ, ◌≤◌, ◌<◌, ◌≡◌, refl, ◌⊎◌, inl, inr, Bool, true, false, ◌||◌, not, none, some, arith, ltb,
  lt→ltb, if◌then◌else◌, min, Bool-cases,
}
use cs_161_s21_problem_sets.Memfile.Capacity.{round_up_pow2, round_up_pow2_lem}
use cs_161_s21_problem_sets.Memfile.State.{Memfile, ssize_max, regrown, set_length}

-- The bytes that a file holds fit its memory.
pub record IsValid (f : Memfile) : Type 0 where
  pub fits : f.len ≤ f.capacity

-- The bytes below `n` are the same.
abbrev pub SameBelow : ℕ → Memfile → Memfile → Type 0
SameBelow n f f' = (i : ℕ) → i < n → f'.data_bytes i ≡ f.data_bytes i

set_length-stays :
    (has_room : ℕ → Bool) (new_data : ℕ → ℕ) (len : ℕ) (f : Memfile)
    → len ≤ f.capacity
    → set_length has_room new_data len f ≡ some (record f { len = len })
unfolding set_length
set_length-stays has_room new_data len f h =
    let e : ltb f.capacity len ≡ false = ground arith in rw e refl

set_length-grows :
    (has_room : ℕ → Bool) (new_data : ℕ → ℕ) (len : ℕ) (f : Memfile)
    → f.capacity < len
    → (ltb ssize_max len || not (has_room (round_up_pow2 len))) ≡ false
    → set_length has_room new_data len f
      ≡ some (record (regrown new_data (round_up_pow2 len) f) { len = len })
unfolding set_length
set_length-grows has_room new_data len f h r =
    let e : ltb f.capacity len ≡ true = ground arith in rw (e, r) refl

set_length-refuses :
    (has_room : ℕ → Bool) (new_data : ℕ → ℕ) (len : ℕ) (f : Memfile)
    → f.capacity < len
    → (ltb ssize_max len || not (has_room (round_up_pow2 len))) ≡ true
    → set_length has_room new_data len f ≡ none
unfolding set_length
set_length-refuses has_room new_data len f h r =
    let e : ltb f.capacity len ≡ true = ground arith in rw (e, r) refl

-- `set_length` of a file whose bytes fit its memory fails only if the file has to grow and the
-- length is no ssize_t or the allocator has no room for the capacity; else the file has the
-- length asked for, its bytes fit its memory again, and those that it held and keeps are the
-- same.
pub set_length_lem :
    (has_room : ℕ → Bool) (new_data : ℕ → ℕ) (len : ℕ) (f : Memfile)
    → IsValid f
    → ((set_length has_room new_data len f ≡ none)
        × (f.capacity < len)
        × ((ssize_max < len) ⊎ (has_room (round_up_pow2 len) ≡ false)))
      ⊎ ((f' : Memfile) × (set_length has_room new_data len f ≡ some f')
          × (f'.len ≡ len)
          × IsValid f'
          × SameBelow (min len f.len) f f')
set_length_lem has_room new_data len f v = elim (Bool-cases (ltb f.capacity len)) [
  | inr enough ↦
      let h : len ≤ f.capacity = ground arith in
      inr (
        record f { len = len },
        set_length-stays has_room new_data len f h,
        refl,
        record { fits = h },
        λ i lt. refl,
      )
  | inl small ↦
      let h : f.capacity < len = ground arith in
      elim (Bool-cases (ltb ssize_max len || not (has_room (round_up_pow2 len)))) [
        | inl bad ↦ inl (set_length-refuses has_room new_data len f h bad, h, why has_room len bad)
        | inr good ↦
            let short : len ≤ ssize_max = fine len (not (has_room (round_up_pow2 len))) good in
            let (k, _, _, up, _) = round_up_pow2_lem len (omega arith) (omega arith) in
            inr (
              record (regrown new_data (round_up_pow2 len) f) { len = len },
              set_length-grows has_room new_data len f h good,
              refl,
              record { fits = up },
              λ i lt. kept i (omega arith),
            )
      ]
]
  where
    why :
        (has_room : ℕ → Bool) (len : ℕ)
        → (ltb ssize_max len || not (has_room (round_up_pow2 len))) ≡ true
        → (ssize_max < len) ⊎ (has_room (round_up_pow2 len) ≡ false)
    why has_room len bad = elim (Bool-cases (has_room (round_up_pow2 len))) [
      | inr no_room ↦ inr no_room
      | inl room ↦ inl (ground (arith, room))
    ]

    fine : (len : ℕ) (b : Bool) → (ltb ssize_max len || b) ≡ false → len ≤ ssize_max
    fine len b h = ground arith

    kept :
        (i : ℕ) → i < f.len → (if ltb i f.len then f.data_bytes i else new_data i) ≡ f.data_bytes i
    kept i lt = rw (lt→ltb i f.len lt) refl
