-- ===== src/Strings/Order.antt =====
-- `strcmp` and `strncmp` are a total order on strings.
use cs_161_s21_problem_sets.Prelude.{
  ℕ, zero, suc, ◌<◌, ◌≡◌, refl, sym, ◌∙◌, ap, not, ◌||◌, ◌↔◌, List, [], ◌∷◌, arith, ◌==◌,
  if◌then◌else◌, take,
}
use cs_161_s21_problem_sets.Memory.Compare.{Sign, less, same, more, sign}

-- A string holds no NUL.
abbrev pub NoNul : List ℕ → Type 0
NoNul [] = Unit {0}
NoNul (x ∷ xs) = (0 < x) × NoNul xs

-- The byte read at a position: NUL past the last one.
abbrev pub head_byte : List ℕ → ℕ
head_byte [] = 0
head_byte (x ∷ xs) = x

unfoldable pub strcmp : List ℕ → List ℕ → Sign
strcmp [] b = sign 0 (head_byte b)
strcmp (x ∷ xs) [] = sign x 0
strcmp (x ∷ xs) (y ∷ ys) =
    let rest = strcmp xs ys in if x == 0 || (y == 0 || not (x == y)) then sign x y else rest

unfoldable pub strncmp : ℕ → List ℕ → List ℕ → Sign
strncmp zero a b = same
strncmp (suc n) [] b = sign 0 (head_byte b)
strncmp (suc n) (x ∷ xs) [] = sign x 0
strncmp (suc n) (x ∷ xs) (y ∷ ys) =
    let rest = strncmp n xs ys in if x == 0 || (y == 0 || not (x == y)) then sign x y else rest

abbrev pub flip : Sign → Sign
flip less = more
flip same = same
flip more = less

-- `strcmp` returns 0 on equal strings only.
eq_of_strcmp : (a b : List ℕ) → NoNul a → NoNul b → strcmp a b ≡ same → a ≡ b
unfolding strcmp
eq_of_strcmp [] [] p q e = refl
eq_of_strcmp [] (y ∷ ys) p q e = absurd (ground arith)
eq_of_strcmp (x ∷ xs) [] p q e = absurd (ground arith)
eq_of_strcmp (x ∷ xs) (y ∷ ys) p q e = ground (arith, eq_of_strcmp xs ys p.1 q.1)

strcmp_refl : (a : List ℕ) → strcmp a a ≡ same
unfolding strcmp
strcmp_refl [] = refl
strcmp_refl (x ∷ xs) = ground (arith, strcmp_refl xs)

strcmp-flip : (a b : List ℕ) → strcmp b a ≡ flip (strcmp a b)
unfolding strcmp
strcmp-flip [] [] = refl
strcmp-flip [] (y ∷ ys) = ground arith
strcmp-flip (x ∷ xs) [] = ground arith
strcmp-flip (x ∷ xs) (y ∷ ys) = ground (arith, strcmp-flip xs ys)

-- "Less" is transitive on strings without NUL.
pub strcmp_trans :
    (a b c : List ℕ)
    → NoNul a
    → NoNul b
    → NoNul c
    → strcmp a b ≡ less
    → strcmp b c ≡ less
    → strcmp a c ≡ less
unfolding strcmp
strcmp_trans [] b [] p q r e f = absurd (ground arith)
strcmp_trans [] b (z ∷ zs) p q r e f = ground arith
strcmp_trans (x ∷ xs) [] c p q r e f = absurd (ground arith)
strcmp_trans (x ∷ xs) (y ∷ ys) [] p q r e f = absurd (ground arith)
strcmp_trans (x ∷ xs) (y ∷ ys) (z ∷ zs) p q r e f =
    ground (arith, strcmp_trans xs ys zs p.1 q.1 r.1)

-- On strings without NUL, `strcmp` returns 0 exactly when they are equal, and swapping the
-- arguments swaps the sign.
pub strcmp_order :
    (a b : List ℕ)
    → NoNul a
    → NoNul b
    → ((strcmp a b ≡ same) ↔ (a ≡ b)) × (strcmp b a ≡ flip (strcmp a b))
strcmp_order a b p q =
    ((eq_of_strcmp a b p q, λ e. ap (strcmp a) (sym e) ∙ strcmp_refl a), strcmp-flip a b)

-- `strncmp` compares the prefixes of at most n bytes as `strcmp` does.
pub strncmp-take : (n : ℕ) (a b : List ℕ) → strncmp n a b ≡ strcmp (take n a) (take n b)
unfolding strcmp strncmp
strncmp-take zero a b = refl
strncmp-take (suc n) [] [] = refl
strncmp-take (suc n) [] (y ∷ ys) = refl
strncmp-take (suc n) (x ∷ xs) [] = refl
strncmp-take (suc n) (x ∷ xs) (y ∷ ys) = ground (arith, strncmp-take n xs ys)
