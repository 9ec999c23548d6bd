-- ===== src/Numbers/Print.antt =====
-- `fill_numbuf`: the digits of a number, most significant first. A negative base of the source is the
-- pair of `lower` and its absolute value.
use cs_161_s21_problem_sets.Prelude.{
  ℕ, zero, suc, ◌/◌, ◌%◌, Bool, Option, none, some, List, [], ◌∷◌, get_or, ◌==◌, if◌then◌else◌,
}

abbrev pub upper_digits : List ℕ
upper_digits =
    b'0' ∷ b'1' ∷ b'2' ∷ b'3' ∷ b'4' ∷ b'5' ∷ b'6' ∷ b'7' ∷ b'8' ∷ b'9' ∷ b'A' ∷ b'B' ∷ b'C' ∷ b'D'
    ∷ b'E' ∷ b'F' ∷ []

abbrev pub lower_digits : List ℕ
lower_digits =
    b'0' ∷ b'1' ∷ b'2' ∷ b'3' ∷ b'4' ∷ b'5' ∷ b'6' ∷ b'7' ∷ b'8' ∷ b'9' ∷ b'a' ∷ b'b' ∷ b'c' ∷ b'd'
    ∷ b'e' ∷ b'f' ∷ []

unfoldable pub digit_char : Bool → ℕ → ℕ
digit_char lower d = get_or (if lower then lower_digits else upper_digits) d 0

-- The do-while loop, with fuel; the characters are written from the end of the buffer.
unfoldable pub numbuf_loop : ℕ → Bool → ℕ → ℕ → List ℕ → Option (List ℕ)
numbuf_loop zero lower base v acc = none
numbuf_loop (suc fuel) lower base v acc =
    let acc' = digit_char lower (v % base) ∷ acc in
    let rest = numbuf_loop fuel lower base (v / base) acc' in
    if v / base == 0 then some acc' else rest

-- A number below 2 ^ 64 has 64 digits at most, in base 2.
unfoldable pub fill_numbuf : Bool → ℕ → ℕ → Option (List ℕ)
unfolding digit_char numbuf_loop
fill_numbuf lower base v = numbuf_loop 64 lower base v []
