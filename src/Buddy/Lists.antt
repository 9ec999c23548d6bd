-- ===== src/Buddy/Lists.antt =====
-- The lists of free blocks: membership, and how many of their blocks hold a page.
use cs_161_s21_problem_sets.Prelude.{
  ℕ, zero, suc, ◌+◌, ◌^◌, ◌≤◌, ◌<◌, ◌≡◌, ◌≢◌, refl, ◌⊎◌, inl, inr, true, false, ◌&&◌, List, [], ◌∷◌,
  ◌++◌, arith, ltb, leb, ◌==◌, if◌then◌else◌, Bool-cases,
}
use cs_161_s21_problem_sets.Buddy.State.{with_list, erase_first}

abbrev pub Mem : ℕ → List ℕ → Type 0
Mem b [] = ⊥
Mem b (x ∷ xs) = (b ≡ x) ⊎ Mem b xs

pub Mem-append : (b : ℕ) (xs ys : List ℕ) → Mem b (xs ++ ys) → Mem b xs ⊎ Mem b ys
Mem-append b [] ys h = inr h
Mem-append b (x ∷ xs) ys (inl e) = inl (inl e)
Mem-append b (x ∷ xs) ys (inr h) = elim (Mem-append b xs ys h) [
  | inl here ↦ inl (inr here)
  | inr there ↦ inr there
]

pub Mem-erase_first : (b page : ℕ) (xs : List ℕ) → Mem b (erase_first page xs) → Mem b xs
unfolding erase_first
Mem-erase_first b page [] h = h
Mem-erase_first b page (x ∷ xs) h = elim (Bool-cases (x == page)) [
  | inl same ↦ inr (rw same at h)
  | inr other ↦ elim (at_head other h) [
    | inl e ↦ inl e
    | inr there ↦ inr (Mem-erase_first b page xs there)
  ]
]
  where
    at_head :
        (x == page) ≡ false
        → Mem b (if x == page then xs else x ∷ erase_first page xs)
        → (b ≡ x) ⊎ Mem b (erase_first page xs)
    at_head other h = rw other at h

-- The pages of a block of order `n`.
abbrev pub InBlock : ℕ → ℕ → ℕ → Type 0
InBlock n b p = (b ≤ p) × (p < b + 2 ^ n)

-- 1 for a page of the block, and 0 for another.
abbrev pub holds : ℕ → ℕ → ℕ → ℕ
holds n b p = if leb b p && ltb p (b + 2 ^ n) then 1 else 0

-- How many blocks of one list hold the page, and how many of the first `k` lists.
unfoldable pub holding : ℕ → List ℕ → ℕ → ℕ
holding n [] p = 0
holding n (b ∷ bs) p = holds n b p + holding n bs p

unfoldable pub cover : ℕ → (ℕ → List ℕ) → ℕ → ℕ
unfolding holding
cover zero lists p = 0
cover (suc k) lists p = cover k lists p + holding k (lists k) p

pub holding-append :
    (n : ℕ) (xs ys : List ℕ) (p : ℕ) → holding n (xs ++ ys) p ≡ holding n xs p + holding n ys p
unfolding holding
holding-append n [] ys p = omega arith
holding-append n (x ∷ xs) ys p = omega (arith, holding-append n xs ys p)

pub holding-one : (n b p : ℕ) → holding n (b ∷ []) p ≡ holds n b p
unfolding holding
holding-one n b p = omega arith

pub holding-cons :
    (n b : ℕ) (bs : List ℕ) (p : ℕ) → holding n (b ∷ bs) p ≡ holds n b p + holding n bs p
unfolding holding
holding-cons n b bs p = refl

pub holding-erase_first :
    (n page : ℕ) (xs : List ℕ) (p : ℕ)
    → Mem page xs
    → holding n (erase_first page xs) p + holds n page p ≡ holding n xs p
unfolding holding erase_first
holding-erase_first n page [] p h = elim h [ ]
holding-erase_first n page (x ∷ xs) p (inl e) =
    let t : (x == page) ≡ true = ground arith in rw (t, e) (omega arith)
holding-erase_first n page (x ∷ xs) p (inr h) = elim (Bool-cases (x == page)) [
  | inl same ↦ let e : x ≡ page = ground arith in rw (same, e) (omega arith)
  | inr other ↦ rw other (omega (arith, holding-erase_first n page xs p h))
]

-- A page that a list holds is in one of its blocks.
pub block_of_holding :
    (n : ℕ) (xs : List ℕ) (p : ℕ) → 0 < holding n xs p → (b : ℕ) × Mem b xs × InBlock n b p
unfolding holding
block_of_holding n [] p h = absurd (omega arith)
block_of_holding n (x ∷ xs) p h = elim (Bool-cases (leb x p && ltb p (x + 2 ^ n))) [
  | inl here ↦ (x, inl refl, (in_first here, in_last here))
  | inr off ↦
      let z : holds n x p ≡ 0 = rw off refl in
      let (b, m, i) = block_of_holding n xs p (omega (arith, z)) in (b, inr m, i)
]
  where
    in_first : (leb x p && ltb p (x + 2 ^ n)) ≡ true → x ≤ p
    in_first t = ground arith

    in_last : (leb x p && ltb p (x + 2 ^ n)) ≡ true → p < x + 2 ^ n
    in_last t = ground arith

pub holds-one : (n b p : ℕ) → InBlock n b p → holds n b p ≡ 1
holds-one n b p (lo, hi) = ground arith

pub InBlock-holds : (n b p : ℕ) → holds n b p ≢ 0 → InBlock n b p
InBlock-holds n b p h = (ground arith, ground arith)

pub holding_pos : (n b : ℕ) (xs : List ℕ) (p : ℕ) → Mem b xs → InBlock n b p → 0 < holding n xs p
unfolding holding
holding_pos n b [] p h i = elim h [ ]
holding_pos n b (x ∷ xs) p (inl e) i = rw (← e) (omega (arith, holds-one n b p i))
holding_pos n b (x ∷ xs) p (inr h) i = omega (arith, holding_pos n b xs p h i)

pub cover-with_list_above :
    (k n : ℕ) (l : List ℕ) (lists : ℕ → List ℕ) (p : ℕ)
    → k ≤ n
    → cover k (with_list n l lists) p ≡ cover k lists p
unfolding cover
cover-with_list_above zero n l lists p h = refl
cover-with_list_above (suc k) n l lists p h =
    let off : (k == n) ≡ false = ground arith in
    rw off (omega (arith, cover-with_list_above k n l lists p (omega arith)))

pub cover-with_list :
    (k n : ℕ) (l : List ℕ) (lists : ℕ → List ℕ) (p : ℕ)
    → n < k
    → cover k (with_list n l lists) p + holding n (lists n) p ≡ cover k lists p + holding n l p
unfolding cover
cover-with_list zero n l lists p h = absurd (omega arith)
cover-with_list (suc k) n l lists p h = elim (Bool-cases (k == n)) [
  | inl last ↦
      let e : k ≡ n = ground arith in
      rw (last, e) (omega (arith, cover-with_list_above n n l lists p (omega arith)))
  | inr more ↦
      let lt : n < k = ground arith in rw more (omega (arith, cover-with_list k n l lists p lt))
]

pub cover_pos :
    (k n : ℕ) (lists : ℕ → List ℕ) (p : ℕ) → n < k → holding n (lists n) p ≤ cover k lists p
unfolding cover
cover_pos zero n lists p h = absurd (omega arith)
cover_pos (suc k) n lists p h = elim (Bool-cases (k == n)) [
  | inl last ↦ let e : k ≡ n = ground arith in rw e (omega arith)
  | inr more ↦ omega (arith, cover_pos k n lists p (ground arith))
]

-- A page that the lists hold is in a block of one of them.
pub list_of_cover :
    (k : ℕ) (lists : ℕ → List ℕ) (p : ℕ)
    → 0 < cover k lists p
    → (n b : ℕ) × (n < k) × Mem b (lists n) × InBlock n b p
unfolding cover
list_of_cover zero lists p h = absurd (omega arith)
list_of_cover (suc k) lists p h = elim (Bool-cases (ltb 0 (holding k (lists k) p))) [
  | inl here ↦
      let (b, m, i) = block_of_holding k (lists k) p (ground arith) in (k, b, omega arith, m, i)
  | inr off ↦
      let lower : 0 < cover k lists p = ground arith in
      let (n, b, lt, m, i) = list_of_cover k lists p lower in (n, b, omega arith, m, i)
]
