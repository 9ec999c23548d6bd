-- ===== src/Numbers/Loose.antt =====
-- Which characters `strtoul` takes for digits, against the digits of a base.
use cs_161_s21_problem_sets.Prelude.{
  ℕ, ◌+◌, ◌-◌, ◌≤◌, ◌<◌, ◌≡◌, ◌≢◌, ◌⊎◌, ◌&&◌, Option, none, some, arith, ltb, leb, if◌then◌else◌,
  Bool-cases, inl, inr, true, false,
}
use cs_161_s21_problem_sets.Numbers.Parse.{digit_of}

-- The digits of a base up to 36: 0 to 9, then the letters, in either case.
unfoldable pub true_digit : ℕ → ℕ → Option ℕ
true_digit base c =
    if leb b'0' c && (leb c b'9' && ltb (c - b'0') base)
    then some (c - b'0')
    else if leb b'a' c && (leb c b'z' && ltb (c - b'a' + 10) base)
    then some (c - b'a' + 10)
    else if leb b'A' c && (leb c b'Z' && ltb (c - b'A' + 10) base)
    then some (c - b'A' + 10)
    else none

in_gap :
    (base c : ℕ)
    → base ≤ 36
    → (leb b':' c && ltb c (b'0' + base)) ≡ true
    → (digit_of base c ≡ some (c - b'0')) × (true_digit base c ≢ digit_of base c)
unfolding digit_of true_digit
in_gap base c h gap = (ground arith, λ e. ground arith)

no_gap :
    (base c : ℕ)
    → base ≤ 36
    → (leb b':' c && ltb c (b'0' + base)) ≡ false
    → digit_of base c ≡ true_digit base c
unfolding digit_of true_digit
no_gap base c h clear = ground arith

-- In every base up to 36, and for every character, the test of `strtoul` agrees with the digits
-- of the base; or the character is in the gap from the colon to just below '0' + base, where the
-- test takes it for the digit c - '0' and the digits of the base do not.
pub digit_of_gap :
    (base c : ℕ)
    → base ≤ 36
    → (digit_of base c ≡ true_digit base c)
      ⊎ ((b':' ≤ c)
          × (c < b'0' + base)
          × (digit_of base c ≡ some (c - b'0'))
          × (true_digit base c ≢ digit_of base c))
digit_of_gap base c h = elim (Bool-cases (leb b':' c && ltb c (b'0' + base))) [
  | inl gap ↦ let (a, b) = in_gap base c h gap in inr (ground arith, ground arith, a, b)
  | inr clear ↦ inl (no_gap base c h clear)
]
