-- ===== src/Strings/Case.antt =====
-- `strcasecmp` and `strncasecmp`, and the character traits of lib.hh that they use.
use cs_161_s21_problem_sets.Prelude.{
  ℕ, zero, suc, ◌+◌, ◌-◌, ◌%◌, ◌^◌, ◌≡◌, refl, Bool, ◌||◌, not, List, [], ◌∷◌, map, ltb, leb, ◌==◌,
  ◌<◌, ◌&&◌, ◌↔◌, ap₂, sym, ◌∙◌, arith, if◌then◌else◌,
}
use cs_161_s21_problem_sets.Memory.Compare.{Sign, same, sign}
use cs_161_s21_problem_sets.Strings.Order.{head_byte, strcmp, strncmp, NoNul, strcmp_order}

-- The difference is of unsigned numbers, and wraps around below 'A' and 'a'.
abbrev pub isupper : ℕ → Bool
isupper c = ltb ((c + 2 ^ 32 - b'A') % 2 ^ 32) 26

abbrev pub islower : ℕ → Bool
islower c = ltb ((c + 2 ^ 32 - b'a') % 2 ^ 32) 26

unfoldable pub tolower : ℕ → ℕ
tolower c = if isupper c then c + b'a' - b'A' else c

unfoldable pub toupper : ℕ → ℕ
toupper c = if islower c then c + b'A' - b'a' else c

unfoldable pub strcasecmp : List ℕ → List ℕ → Sign
strcasecmp [] b = sign 0 (tolower (head_byte b))
strcasecmp (x ∷ xs) [] = sign (tolower x) 0
strcasecmp (x ∷ xs) (y ∷ ys) =
    let rest = strcasecmp xs ys in
    if tolower x == 0 || (tolower y == 0 || not (tolower x == tolower y))
    then sign (tolower x) (tolower y)
    else rest

unfoldable pub strncasecmp : ℕ → List ℕ → List ℕ → Sign
strncasecmp zero a b = same
strncasecmp (suc n) [] b = sign 0 (tolower (head_byte b))
strncasecmp (suc n) (x ∷ xs) [] = sign (tolower x) 0
strncasecmp (suc n) (x ∷ xs) (y ∷ ys) =
    let rest = strncasecmp n xs ys in
    if tolower x == 0 || (tolower y == 0 || not (tolower x == tolower y))
    then sign (tolower x) (tolower y)
    else rest

tolower_nul : tolower 0 ≡ 0
unfolding tolower
tolower_nul = refl

strcasecmp-map : (a b : List ℕ) → strcasecmp a b ≡ strcmp (map tolower a) (map tolower b)
unfolding strcasecmp strcmp
strcasecmp-map [] [] = rw tolower_nul refl
strcasecmp-map [] (y ∷ ys) = refl
strcasecmp-map (x ∷ xs) [] = refl
strcasecmp-map (x ∷ xs) (y ∷ ys) = rw (strcasecmp-map xs ys) refl

strncasecmp-map_n :
    (n : ℕ) (a b : List ℕ) → strncasecmp n a b ≡ strncmp n (map tolower a) (map tolower b)
unfolding strncasecmp strncmp
strncasecmp-map_n zero a b = refl
strncasecmp-map_n (suc n) [] [] = rw tolower_nul refl
strncasecmp-map_n (suc n) [] (y ∷ ys) = refl
strncasecmp-map_n (suc n) (x ∷ xs) [] = refl
strncasecmp-map_n (suc n) (x ∷ xs) (y ∷ ys) = rw (strncasecmp-map_n n xs ys) refl

-- The small letter of a capital one, and of any other byte the byte.
abbrev pub small_letter : ℕ → ℕ
small_letter c = if leb b'A' c && leb c b'Z' then b'a' + (c - b'A') else c

-- The bytes of a string, none of which is NUL.
abbrev pub AllBytes : List ℕ → Type 0
AllBytes [] = Unit {0}
AllBytes (x ∷ xs) = (0 < x) × (x < 256) × AllBytes xs

tolower-small_letter : (c : ℕ) → c < 256 → tolower c ≡ small_letter c
unfolding tolower
tolower-small_letter c h = ground arith

map-tolower : (a : List ℕ) → AllBytes a → map tolower a ≡ map small_letter a
map-tolower [] h = refl
map-tolower (x ∷ xs) (_, low, h) =
    ap₂ (λ c l. c ∷ l) (tolower-small_letter x low) (map-tolower xs h)

map-small_letter-NoNul : (a : List ℕ) → AllBytes a → NoNul (map small_letter a)
map-small_letter-NoNul [] h = tt
map-small_letter-NoNul (x ∷ xs) (pos, low, h) = (ground arith, map-small_letter-NoNul xs h)

-- On strings of bytes, `strcasecmp` and `strncasecmp` are `strcmp` and `strncmp` of the strings
-- with each capital letter from A to Z replaced by its small letter and all other bytes as they
-- are; and `strcasecmp` answers 0 exactly if these are the same string.
pub strncasecmp-map :
    (n : ℕ) (a b : List ℕ)
    → AllBytes a
    → AllBytes b
    → (strcasecmp a b ≡ strcmp (map small_letter a) (map small_letter b))
      × (strncasecmp n a b ≡ strncmp n (map small_letter a) (map small_letter b))
      × ((strcasecmp a b ≡ same) ↔ (map small_letter a ≡ map small_letter b))
strncasecmp-map n a b h k =
    let all : strcasecmp a b ≡ strcmp (map small_letter a) (map small_letter b) =
      rw (← map-tolower a h, ← map-tolower b k) (strcasecmp-map a b) in
    let some_of : strncasecmp n a b ≡ strncmp n (map small_letter a) (map small_letter b) =
      rw (← map-tolower a h, ← map-tolower b k) (strncasecmp-map_n n a b) in
    let order =
      (strcmp_order (map small_letter a) (map small_letter b) (map-small_letter-NoNul a h)
        (map-small_letter-NoNul b k)).0 in
    (all, some_of, (λ e. order.0 (sym all ∙ e), λ e. all ∙ order.1 e))
