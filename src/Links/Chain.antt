-- ===== src/Links/Chain.antt =====
-- What a list in memory is: a ring through its head.
use cs_161_s21_problem_sets.Prelude.{
  ℕ, ◌≡◌, ◌≢◌, refl, sym, ap, ◌∙◌, ◌⊎◌, inl, inr, true, false, List, [], ◌∷◌, ◌++◌, arith, ◌==◌,
}
use cs_161_s21_problem_sets.Links.State.{Memory, put}

abbrev pub Mem : ℕ → List ℕ → Type 0
Mem y [] = ⊥
Mem y (x ∷ xs) = (y ≡ x) ⊎ Mem y xs

abbrev pub Absent : ℕ → List ℕ → Type 0
Absent y [] = Unit
Absent y (x ∷ xs) = (y ≢ x) × Absent y xs

abbrev pub Distinct : List ℕ → Type 0
Distinct [] = Unit
Distinct (x ∷ xs) = Absent x xs × Distinct xs

-- `next_` leads from `a` over `xs` to `b`, and `prev_` back.
abbrev pub Linked : Memory → ℕ → List ℕ → ℕ → Type 0
Linked m a [] b = (m.next a ≡ b) × (m.prev b ≡ a)
Linked m a (x ∷ xs) b = (m.next a ≡ x) × (m.prev x ≡ a) × Linked m x xs b

pub Linked-append :
    (m : Memory) (a : ℕ) (xs : List ℕ) (y : ℕ) (ys : List ℕ) (b : ℕ)
    → Linked m a xs y
    → Linked m y ys b
    → Linked m a (xs ++ (y ∷ ys)) b
Linked-append m a [] y ys b (n, p) k = (n, p, k)
Linked-append m a (x ∷ xs) y ys b (n, p, h) k = (n, p, Linked-append m x xs y ys b h k)

pub Linked-cut :
    (m : Memory) (a : ℕ) (xs : List ℕ) (y : ℕ) (ys : List ℕ) (b : ℕ)
    → Linked m a (xs ++ (y ∷ ys)) b
    → Linked m a xs y × Linked m y ys b
Linked-cut m a [] y ys b (n, p, k) = ((n, p), k)
Linked-cut m a (x ∷ xs) y ys b (n, p, h) =
    let (left, right) = Linked-cut m x xs y ys b h in ((n, p, left), right)

-- A chain is what its own addresses hold.
pub Linked-frame :
    (m m' : Memory) (a : ℕ) (xs : List ℕ) (b : ℕ)
    → ((y : ℕ) → Mem y (a ∷ xs) → m'.next y ≡ m.next y)
    → ((y : ℕ) → Mem y (xs ++ (b ∷ [])) → m'.prev y ≡ m.prev y)
    → Linked m a xs b
    → Linked m' a xs b
Linked-frame m m' a [] b fn fp (n, p) = (fn a (inl refl) ∙ n, fp b (inl refl) ∙ p)
Linked-frame m m' a (x ∷ xs) b fn fp (n, p, h) = (
  fn a (inl refl) ∙ n,
  fp x (inl refl) ∙ p,
  Linked-frame m m' x xs b (λ y i. fn y (inr i)) (λ y i. fp y (inr i)) h,
)

pub Absent-append : (y : ℕ) (xs ys : List ℕ) → Absent y (xs ++ ys) → Absent y xs × Absent y ys
Absent-append y [] ys h = (tt, h)
Absent-append y (x ∷ xs) ys (ne, h) = let (l, r) = Absent-append y xs ys h in ((ne, l), r)

pub Absent-Mem : (y z : ℕ) (xs : List ℕ) → Absent y xs → Mem z xs → y ≢ z
Absent-Mem y z [] h i = elim i [ ]
Absent-Mem y z (x ∷ xs) (ne, h) (inl e) = λ f. ne (f ∙ e)
Absent-Mem y z (x ∷ xs) (ne, h) (inr i) = Absent-Mem y z xs h i

pub put-own : (a v : ℕ) (f : ℕ → ℕ) → put a v f a ≡ v
put-own a v f = let t : (a == a) ≡ true = ground arith in rw t refl

pub put-other : (a v : ℕ) (f : ℕ → ℕ) (b : ℕ) → b ≢ a → put a v f b ≡ f b
put-other a v f b ne = let t : (b == a) ≡ false = ground arith in rw t refl

-- The predecessor of `b`.
abbrev pub last_of : ℕ → List ℕ → ℕ
last_of a [] = a
last_of a (x ∷ xs) = last_of x xs

pub prev-last_of :
    (m : Memory) (a : ℕ) (xs : List ℕ) (b : ℕ) → Linked m a xs b → m.prev b ≡ last_of a xs
prev-last_of m a [] b (n, p) = p
prev-last_of m a (x ∷ xs) b (n, p, h) = prev-last_of m x xs b h

pub Mem-last_of : (a : ℕ) (xs : List ℕ) → Mem (last_of a xs) (a ∷ xs)
Mem-last_of a [] = inl refl
Mem-last_of a (x ∷ xs) = inr (Mem-last_of x xs)

pub Distinct-append :
    (xs ys : List ℕ)
    → Distinct (xs ++ ys)
    → Distinct xs × Distinct ys × ((y z : ℕ) → Mem y xs → Mem z ys → y ≢ z)
Distinct-append [] ys d = (tt, d, λ y z i. elim i [ ])
Distinct-append (x ∷ xs) ys (ne, d) =
    let (dx, dy, apart) = Distinct-append xs ys d in
    let (off, off') = Absent-append x xs ys ne in
    (
      (off, dx),
      dy,
      λ y z i j. elim i [
        | inl e ↦ λ f. Absent-Mem x z ys off' j (sym e ∙ f)
        | inr k ↦ apart y z k j
      ],
    )

pub Absent-of : (x : ℕ) (xs : List ℕ) → ((y : ℕ) → Mem y xs → x ≢ y) → Absent x xs
Absent-of x [] h = tt
Absent-of x (y ∷ ys) h = (h y (inl refl), Absent-of x ys (λ z i. h z (inr i)))

pub next-Mem :
    (m : Memory) (a : ℕ) (xs : List ℕ) (b y : ℕ)
    → Linked m a xs b
    → Mem y (a ∷ xs)
    → Mem (m.next y) (xs ++ (b ∷ []))
next-Mem m a [] b y (n, p) (inl e) = inl (ap m.next e ∙ n)
next-Mem m a [] b y (n, p) (inr i) = elim i [ ]
next-Mem m a (x ∷ xs) b y (n, p, h) (inl e) = inl (ap m.next e ∙ n)
next-Mem m a (x ∷ xs) b y (n, p, h) (inr i) = inr (next-Mem m x xs b y h i)

pub Mem-append : (y : ℕ) (xs : List ℕ) (b : ℕ) → Mem y (xs ++ (b ∷ [])) → Mem y xs ⊎ (y ≡ b)
Mem-append y [] b (inl e) = inr e
Mem-append y [] b (inr i) = elim i [ ]
Mem-append y (x ∷ xs) b (inl e) = inl (inl e)
Mem-append y (x ∷ xs) b (inr i) = elim (Mem-append y xs b i) [ inl j ↦ inl (inr j) | inr e ↦ inr e ]
