-- ===== src/Numbers/RoundTrip.antt =====
-- What `fill_numbuf` prints, `strtoul` reads.
use cs_161_s21_problem_sets.Prelude.{
  ℕ, zero, suc, ◌+◌, ◌-◌, ◌*◌, ◌/◌, ◌%◌, ◌^◌, ◌≤◌, ◌<◌, ◌≡◌, ◌≢◌, refl, ap, ◌∙◌, inl, inr, Bool,
  true, false, ◌&&◌, ◌||◌, Option, none, some, List, [], ◌∷◌, arith, length, ltb, leb, ◌==◌,
  if◌then◌else◌, Bool-cases,
}
use native.Mathlib.Nat.{
  le-div_iff_mul-le, div-lt_iff_lt-mul, div-le_self, div-add-mod, mod-lt, pow-suc,
}
use cs_161_s21_problem_sets.Numbers.Parse.{
  is_hex_prefix, digit_of, digits_loop, too_big, ulong_max, strtoul, skip_spaces, choose_base,
}
use cs_161_s21_problem_sets.Numbers.Print.{digit_char, numbuf_loop, fill_numbuf}

is_some_of : Option ℕ → ℕ → Bool
is_some_of none d = false
is_some_of (some c) d = c == d

checks_to : (ℕ → Bool) → ℕ → Bool
checks_to test zero = true
checks_to test (suc d) = if test d then checks_to test d else false

checked : (test : ℕ → Bool) (top d : ℕ) → d < top → checks_to test top ≡ true → test d ≡ true
unfolding checks_to
checked test zero d lt all = absurd (omega arith)
checked test (suc top) d lt all = ground (arith, checked test top d)

-- Each digit of each base up to 16, in either case, is read back.
reads_back : Bool → ℕ → ℕ → Bool
unfolding is_some_of digit_of digit_char
reads_back lower base d =
    if ltb d base && leb 2 base then is_some_of (digit_of base (digit_char lower d)) d else true

reads_back_table :
    (lower : Bool) → checks_to (λ base. checks_to (reads_back lower base) 16) 17 ≡ true
unfolding checks_to reads_back
reads_back_table true = refl
reads_back_table false = refl

is_some_of_sound : (o : Option ℕ) (d : ℕ) → is_some_of o d ≡ true → o ≡ some d
unfolding is_some_of
is_some_of_sound none d e = cc
is_some_of_sound (some c) d e = ground arith

digit_of-digit_char :
    (lower : Bool) (base d : ℕ)
    → 2 ≤ base
    → base ≤ 16
    → d < base
    → digit_of base (digit_char lower d) ≡ some d
unfolding reads_back
digit_of-digit_char lower base d lo hi lt =
    let row = checked _ 17 base (omega arith) (reads_back_table lower) in
    let cell = checked _ 16 d (omega arith) row in is_some_of_sound _ d (ground (arith, cell))

-- A printed character is neither a space nor a sign nor the x of a prefix.
is_plain : ℕ → Bool
is_plain c =
    leb b'0' c && (leb c b'9' || (leb b'A' c && (leb c b'F' || (leb b'a' c && leb c b'f'))))

plain_table : (lower : Bool) → checks_to (λ d. is_plain (digit_char lower d)) 16 ≡ true
unfolding checks_to is_plain digit_char
plain_table true = refl
plain_table false = refl

abbrev Plain : List ℕ → Type 0
Plain [] = Unit {0}
Plain (c ∷ cs) = (is_plain c ≡ true) × Plain cs

fuel_left : (fuel x : ℕ) → x ≢ 0 → x < 2 ^ fuel → 0 < fuel
fuel_left zero x ne h = absurd (ne (omega arith))
fuel_left (suc fuel) x ne h = omega arith

module _ (lower : Bool) (base : ℕ) (lo : 2 ≤ base) (hi : base ≤ 16) where
  mod-lt_base : (v : ℕ) → v % base < base
  mod-lt_base v = mod-lt v (omega arith)

  -- One more character of a number that still fits.
  digits_loop-digit_char :
      (d x : ℕ) (cs : List ℕ)
      → d < base
      → x * base + d < 2 ^ 64
      → digits_loop base (digit_char lower d ∷ cs) x false
        ≡ digits_loop base cs (x * base + d) false
  unfolding digits_loop
  digits_loop-digit_char d x cs lt fits =
      let le : x ≤ (ulong_max - d) / base =
        (le-div_iff_mul-le {k = base} {x = x} {y = ulong_max - d} (omega arith)).1 (omega arith) in
      let small : too_big base x d ≡ false = ground arith in
      let same : (x * base + d) % 2 ^ 64 ≡ x * base + d = omega arith in
      rw (digit_of-digit_char lower base d lo hi lt, digits_loop) (rw (small, same) refl)

  divided_fits : (v : ℕ) (fuel : ℕ) → v < 2 ^ suc fuel → v / base < 2 ^ fuel
  divided_fits v fuel h =
      let twice : 2 ^ suc fuel ≤ 2 ^ fuel * base = rw pow-suc (grind arith) in
      (div-lt_iff_lt-mul {k = base} {x = v} {y = 2 ^ fuel} (omega arith)).1 (omega arith)

  split : (v : ℕ) → v / base * base + v % base ≡ v
  split v = grind (arith, div-add-mod v base)

  digit_plain : (d : ℕ) → d < base → is_plain (digit_char lower d) ≡ true
  digit_plain d lt = checked _ 16 d (omega arith) (plain_table lower)

  -- What the loop has printed in front of `acc`: it reads back as the number.
  record Printed (fuel v : ℕ) (acc out : List ℕ) : Type 0 where
    ends : numbuf_loop fuel lower base v acc ≡ some out
    reads : digits_loop base out 0 false ≡ digits_loop base acc v false
    plain : Plain out
    longer : length acc < length out
    bounded : length out ≤ length acc + fuel

  numbuf_loop-Printed :
      (fuel v : ℕ) (acc : List ℕ)
      → 0 < fuel
      → v < 2 ^ fuel
      → v < 2 ^ 64
      → Plain acc
      → (out : List ℕ) × Printed fuel v acc out
  unfolding numbuf_loop
  numbuf_loop-Printed zero v acc p f fits plain = absurd (omega arith)
  numbuf_loop-Printed (suc fuel) v acc p f fits plain = elim (Bool-cases (v / base == 0)) [
    | inl last ↦ (
      digit_char lower (v % base) ∷ acc,
      record {
        ends = rw last refl;
        reads =
            digits_loop-digit_char (v % base) 0 acc (mod-lt_base v) (omega (arith, mod-lt_base v))
            ∙ ap (λ x. digits_loop base acc x false) (grind (arith, split v));
        plain = (digit_plain (v % base) (mod-lt_base v), plain);
        longer = omega arith;
        bounded = omega arith;
      },
    )
    | inr more ↦
        let some_left : v / base ≢ 0 = ground arith in
        let shorter : v / base < 2 ^ fuel = divided_fits v fuel f in
        let below : v / base < 2 ^ 64 = grind (arith, div-le_self v base) in
        let (out, w) =
          numbuf_loop-Printed fuel (v / base) (digit_char lower (v % base) ∷ acc)
            (fuel_left fuel (v / base) some_left shorter) shorter below
            (digit_plain (v % base) (mod-lt_base v), plain) in
        (
          out,
          record {
            ends = rw more w.ends;
            reads =
                w.reads
                ∙ digits_loop-digit_char (v % base) (v / base) acc (mod-lt_base v)
                    (rw (split v) fits)
                ∙ ap (λ x. digits_loop base acc x false) (split v);
            plain = w.plain;
            longer = omega (arith, w.longer);
            bounded = omega (arith, w.bounded);
          },
        )
  ]

no_prefix : (c : ℕ) (cs : List ℕ) → Plain (c ∷ cs) → is_hex_prefix (c ∷ cs) ≡ false
unfolding is_plain
no_prefix c [] p = ground arith
no_prefix c (d ∷ cs) p = ground arith

skip-Plain : (c : ℕ) (cs : List ℕ) → Plain (c ∷ cs) → skip_spaces (c ∷ cs) ≡ c ∷ cs
unfolding skip_spaces is_plain
skip-Plain c cs p = ground arith

not_minus : (c : ℕ) → is_plain c ≡ true → (c == b'-') ≡ false
unfolding is_plain
not_minus c p = ground arith

not_plus : (c : ℕ) → is_plain c ≡ true → (c == b'+') ≡ false
unfolding is_plain
not_plus c p = ground arith

base_kept :
    (base c : ℕ) (cs : List ℕ)
    → 2 ≤ base
    → Plain (c ∷ cs)
    → choose_base base (c ∷ cs) ≡ (base, c ∷ cs)
unfolding choose_base
base_kept base c cs lo p = ground (arith, no_prefix c cs p)

digits_loop_end : (base v : ℕ) → digits_loop base [] v false ≡ (v, false, [])
unfolding digits_loop
digits_loop_end base v = refl

strtoul-Plain :
    (base c : ℕ) (cs : List ℕ) (x : ℕ)
    → 2 ≤ base
    → Plain (c ∷ cs)
    → digits_loop base (c ∷ cs) 0 false ≡ (x, false, [])
    → strtoul (c ∷ cs) base ≡ (x, [])
unfolding strtoul
strtoul-Plain base c cs x lo p e =
    rw (skip-Plain c cs p, not_minus c p.0, not_plus c p.0, base_kept base c cs lo p, e) refl

strtoul-Plain_list :
    (base : ℕ) (out : List ℕ) (x : ℕ)
    → 2 ≤ base
    → 0 < length out
    → Plain out
    → digits_loop base out 0 false ≡ (x, false, [])
    → strtoul out base ≡ (x, [])
strtoul-Plain_list base [] x lo h p e = absurd (omega arith)
strtoul-Plain_list base (c ∷ cs) x lo h p e = strtoul-Plain base c cs x lo p e

-- `fill_numbuf` prints every unsigned long in every base from 2 to 16, with capital or small
-- letters, in at most 64 characters; `strtoul` in that base reads the same number back from them,
-- to the end.
pub strtoul-fill_numbuf :
    (lower : Bool) (base v : ℕ)
    → 2 ≤ base
    → base ≤ 16
    → v < 2 ^ 64
    → (out : List ℕ) × (fill_numbuf lower base v ≡ some out)
      × (strtoul out base ≡ (v, []))
      × (length out ≤ 64)
unfolding fill_numbuf
strtoul-fill_numbuf lower base v lo hi fits =
    let (out, w) = numbuf_loop-Printed lower base lo hi 64 v [] (omega arith) fits fits tt in
    (
      out,
      w.ends,
      strtoul-Plain_list base out v lo w.longer w.plain (w.reads ∙ digits_loop_end base v),
      w.bounded,
    )
