-- ===== src/Links/Lists.antt =====
-- Sequences of addresses with an element more or less.
use cs_161_s21_problem_sets.Prelude.{ℕ, ◌≡◌, ◌≢◌, refl, sym, ap, ◌⊎◌, inl, inr, List, [], ◌∷◌, ◌++◌}
use cs_161_s21_problem_sets.Links.Chain.{Mem, Absent, Distinct}

pub append_nil : (xs : List ℕ) → xs ++ [] ≡ xs
append_nil [] = refl
append_nil (x ∷ xs) = ap (λ l. x ∷ l) (append_nil xs)

pub Mem-left : (y : ℕ) (xs ys : List ℕ) → Mem y xs → Mem y (xs ++ ys)
Mem-left y [] ys i = elim i [ ]
Mem-left y (x ∷ xs) ys (inl e) = inl e
Mem-left y (x ∷ xs) ys (inr i) = inr (Mem-left y xs ys i)

pub Mem-right : (y : ℕ) (xs ys : List ℕ) → Mem y ys → Mem y (xs ++ ys)
Mem-right y [] ys i = i
Mem-right y (x ∷ xs) ys i = inr (Mem-right y xs ys i)

pub Mem-insert : (y x : ℕ) (xs ys : List ℕ) → Mem y (xs ++ (x ∷ ys)) → (y ≡ x) ⊎ Mem y (xs ++ ys)
Mem-insert y x [] ys (inl e) = inl e
Mem-insert y x [] ys (inr i) = inr i
Mem-insert y x (z ∷ xs) ys (inl e) = inr (inl e)
Mem-insert y x (z ∷ xs) ys (inr i) = elim (Mem-insert y x xs ys i) [
  | inl e ↦ inl e
  | inr j ↦ inr (inr j)
]

pub Mem-remove : (y x : ℕ) (xs ys : List ℕ) → Mem y (xs ++ ys) → Mem y (xs ++ (x ∷ ys))
Mem-remove y x [] ys i = inr i
Mem-remove y x (z ∷ xs) ys (inl e) = inl e
Mem-remove y x (z ∷ xs) ys (inr i) = inr (Mem-remove y x xs ys i)

Absent-insert : (y x : ℕ) (xs ys : List ℕ) → Absent y (xs ++ ys) → y ≢ x → Absent y (xs ++ (x ∷ ys))
Absent-insert y x [] ys a ne = (ne, a)
Absent-insert y x (z ∷ xs) ys (nz, a) ne = (nz, Absent-insert y x xs ys a ne)

pub Distinct-insert :
    (x : ℕ) (xs ys : List ℕ) → Distinct (xs ++ ys) → Absent x (xs ++ ys) → Distinct (xs ++ (x ∷ ys))
Distinct-insert x [] ys d a = (a, d)
Distinct-insert x (z ∷ xs) ys (nz, d) (ne, a) =
    (Absent-insert z x xs ys nz (λ e. ne (sym e)), Distinct-insert x xs ys d a)

Absent-remove :
    (y x : ℕ) (xs ys : List ℕ) → Absent y (xs ++ (x ∷ ys)) → Absent y (xs ++ ys) × (y ≢ x)
Absent-remove y x [] ys (ne, a) = (a, ne)
Absent-remove y x (z ∷ xs) ys (nz, a) = let (b, ne) = Absent-remove y x xs ys a in ((nz, b), ne)

pub Distinct-remove :
    (x : ℕ) (xs ys : List ℕ) → Distinct (xs ++ (x ∷ ys)) → Distinct (xs ++ ys) × Absent x (xs ++ ys)
Distinct-remove x [] ys (a, d) = (d, a)
Distinct-remove x (z ∷ xs) ys (nz, d) =
    let (d', a) = Distinct-remove x xs ys d in
    let (b, ne) = Absent-remove z x xs ys nz in ((b, d'), (λ e. ne (sym e), a))
