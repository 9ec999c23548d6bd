-- ===== src/Numbers/Tests.antt =====
-- Runs of the number routines, and their theorems at concrete numbers.
use cs_161_s21_problem_sets.Prelude.{
  ℕ, ◌+◌, ◌-◌, ◌≤◌, ◌<◌, ◌≡◌, ◌≢◌, ◌⊎◌, ◌^◌, true, some, List, [], ◌∷◌, length, arith, refl,
}
use cs_161_s21_problem_sets.Numbers.Parse.{digit_of, strtoul, strtol}
use cs_161_s21_problem_sets.Numbers.Print.{fill_numbuf}
use cs_161_s21_problem_sets.Numbers.RoundTrip.{strtoul-fill_numbuf}
use cs_161_s21_problem_sets.Numbers.Loose.{true_digit, digit_of_gap}

reads_hex : strtoul (b' ' ∷ b'0' ∷ b'x' ∷ b'1' ∷ b'f' ∷ b'!' ∷ []) 0 ≡ (31, b'!' ∷ [])
unfolding strtoul
reads_hex = refl

-- "1:" in base 16 is 26.
reads_colon : strtoul (b'1' ∷ b':' ∷ []) 16 ≡ (26, [])
unfolding strtoul
reads_colon = refl

reads_negative : strtol (b'-' ∷ b'5' ∷ []) 10 ≡ (2 ^ 64 - 5, [])
unfolding strtol
reads_negative = refl

strtoul-fill_numbuf_example :
    (out : List ℕ) × (fill_numbuf true 16 48879 ≡ some out)
    × (strtoul out 16 ≡ (48879, []))
    × (length out ≤ 64)
strtoul-fill_numbuf_example =
    strtoul-fill_numbuf true 16 48879 (omega arith) (omega arith) (omega arith)

digit_of_gap_small :
    (digit_of 16 b':' ≡ true_digit 16 b':')
    ⊎ ((b':' ≤ b':')
        × (b':' < b'0' + 16)
        × (digit_of 16 b':' ≡ some (b':' - b'0'))
        × (true_digit 16 b':' ≢ digit_of 16 b':'))
digit_of_gap_small = digit_of_gap 16 b':' (omega arith)
