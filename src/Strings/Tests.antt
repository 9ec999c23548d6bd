-- ===== src/Strings/Tests.antt =====
-- The theorems on string comparison at short strings.
use cs_161_s21_problem_sets.Prelude.{
  map, inr, ◌==◌, if◌then◌else◌, ℕ, ◌≡◌, ◌↔◌, List, [], ◌∷◌, take, arith, refl,
}
use cs_161_s21_problem_sets.Memory.Copy.{Mem}
use cs_161_s21_problem_sets.Strings.Case.{small_letter, strcasecmp, strncasecmp, strncasecmp-map}
use cs_161_s21_problem_sets.Strings.Copy.{strnlen, strncpy, padded, strncpy_lem}
use cs_161_s21_problem_sets.Memory.Compare.{less, same}
use cs_161_s21_problem_sets.Strings.Order.{
  strcmp, strncmp, flip, strcmp_order, strcmp_trans, strncmp-take,
}

abbrev ab : List ℕ
ab = b'a' ∷ b'b' ∷ []

abbrev abc : List ℕ
abc = b'a' ∷ b'b' ∷ b'c' ∷ []

abbrev b : List ℕ
b = b'b' ∷ []

strcmp_order_small : ((strcmp ab abc ≡ same) ↔ (ab ≡ abc)) × (strcmp abc ab ≡ flip (strcmp ab abc))
strcmp_order_small =
    strcmp_order ab abc (omega arith, (omega arith, tt))
      (omega arith, (omega arith, (omega arith, tt)))

ab_below : strcmp ab abc ≡ less
unfolding strcmp
ab_below = refl

abc_below : strcmp abc b ≡ less
unfolding strcmp
abc_below = refl

strcmp_trans_small : strcmp ab b ≡ less
strcmp_trans_small =
    strcmp_trans ab abc b (omega arith, (omega arith, tt))
      (omega arith, (omega arith, (omega arith, tt))) (omega arith, tt) ab_below abc_below

strncmp-take_small : strncmp 2 abc ab ≡ strcmp (take 2 abc) (take 2 ab)
strncmp-take_small = strncmp-take 2 abc ab

-- The string "ab" at address 10.
abbrev memory : Mem
memory i = if i == 10 then b'a' else if i == 11 then b'b' else if i == 12 then 0 else 7

copies_ab : strncpy 4 memory 20 10 23 ≡ 0
unfolding strncpy
copies_ab = refl

strncpy_lem_small : strncpy 4 memory 20 10 23 ≡ padded memory 20 10 4 (strnlen 4 memory 10) 23
strncpy_lem_small = strncpy_lem 4 memory 20 10 23 (inr (omega arith))

abbrev capitals : List ℕ
capitals = b'A' ∷ b'Z' ∷ []

strncasecmp-map_example :
    (strcasecmp capitals ab ≡ strcmp (map small_letter capitals) (map small_letter ab))
    × (strncasecmp 1 capitals ab ≡ strncmp 1 (map small_letter capitals) (map small_letter ab))
    × ((strcasecmp capitals ab ≡ same) ↔ (map small_letter capitals ≡ map small_letter ab))
strncasecmp-map_example =
    strncasecmp-map 1 capitals ab (omega arith, omega arith, (omega arith, omega arith, tt))
      (omega arith, omega arith, (omega arith, omega arith, tt))
