-- ===== src/Numbers/Parse.antt =====
-- `strtoul` and `strtol`. A string is the list of its bytes before the NUL; `base` is not negative.
-- An unsigned long is a number below 2 ^ 64, and a long is given as its bit pattern.
use cs_161_s21_problem_sets.Prelude.{
  ℕ, ◌+◌, ◌-◌, ◌*◌, ◌/◌, ◌%◌, ◌^◌, Bool, false, ◌&&◌, ◌||◌, Option, none, some, List, [], ◌∷◌, ltb,
  leb, ◌==◌, if◌then◌else◌, drop,
}
use cs_161_s21_problem_sets.Strings.Order.{head_byte}

-- `isspace`
abbrev pub isspace : ℕ → Bool
isspace c = (leb 9 c && leb c 13) || c == b' '

unfoldable pub skip_spaces : List ℕ → List ℕ
skip_spaces [] = []
skip_spaces (c ∷ cs) = if isspace c then skip_spaces cs else c ∷ cs

-- The digit that a character stands for, as the loop of `strtoul` tests it.
unfoldable pub digit_of : ℕ → ℕ → Option ℕ
digit_of base c =
    if leb b'0' c && ltb c (b'0' + base)
    then some (c - b'0')
    else if ltb 10 base && (leb b'a' c && ltb c (b'a' + base - 10))
    then some (c - b'a' + 10)
    else if ltb 10 base && (leb b'A' c && ltb c (b'A' + base - 10))
    then some (c - b'A' + 10)
    else none

abbrev pub ulong_max : ℕ
ulong_max = 2 ^ 64 - 1

-- The test `x > (-1UL - digit) / base`.
abbrev pub too_big : ℕ → ℕ → ℕ → Bool
too_big base x d = ltb ((ulong_max - d) / base) x

-- The loop over the digits: the number, the overflow flag, and where it stops.
unfoldable pub digits_loop : ℕ → List ℕ → ℕ → Bool → ℕ × Bool × List ℕ
digits_loop base [] x overflow = (x, overflow, [])
digits_loop base (c ∷ cs) x overflow = elim (digit_of base c) [
  | none ↦ (x, overflow, c ∷ cs)
  | some d ↦
      digits_loop base cs (if too_big base x d then x else (x * base + d) % 2 ^ 64)
        (too_big base x d || overflow)
]

abbrev pub second_byte : List ℕ → ℕ
second_byte [] = 0
second_byte (c ∷ cs) = head_byte cs

abbrev pub is_hex_prefix : List ℕ → Bool
is_hex_prefix s = head_byte s == b'0' && (second_byte s == b'x' || second_byte s == b'X')

-- The base in use, and what is left behind a prefix.
unfoldable pub choose_base : ℕ → List ℕ → ℕ × List ℕ
choose_base base s =
    if base == 0
    then (if is_hex_prefix s
        then (16, drop 2 s)
        else if head_byte s == b'0'
        then (8, s)
        else (10, s))
    else if base == 16 && is_hex_prefix s
    then (16, drop 2 s)
    else (base, s)

-- The number, saturated and negated, and what is left of the string (`*endptr`).
unfoldable pub finish : Bool → ℕ × Bool × List ℕ → ℕ × List ℕ
finish negative (x, overflow, rest) =
    let y = if overflow then ulong_max else x in
    (if negative then (2 ^ 64 - y) % 2 ^ 64 else y, rest)

unfoldable pub strtoul : List ℕ → ℕ → ℕ × List ℕ
unfolding skip_spaces digit_of digits_loop choose_base finish
strtoul s base =
    let s1 = skip_spaces s in
    let negative = head_byte s1 == b'-' in
    let s2 = if negative || head_byte s1 == b'+' then drop 1 s1 else s1 in
    let (base', s3) = choose_base base s2 in finish negative (digits_loop base' s3 0 false)

unfoldable pub strtol : List ℕ → ℕ → ℕ × List ℕ
unfolding strtoul
strtol s base =
    let s1 = skip_spaces s in
    let negative = head_byte s1 == b'-' in
    let s2 = if negative then drop 1 s1 else s1 in
    let (u, rest) = strtoul s2 base in
    let bound = if negative then 2 ^ 63 else 2 ^ 63 - 1 in
    let u' = if ltb bound u then bound else u in
    (if negative then (2 ^ 64 - u') % 2 ^ 64 else u', rest)
