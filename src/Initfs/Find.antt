-- ===== src/Initfs/Find.antt =====
-- The file that a name finds.
use cs_161_s21_problem_sets.Prelude.{
  ℕ, zero, suc, ◌+◌, ◌≤◌, ◌<◌, ◌≡◌, ◌≢◌, refl, ap, ap₂, ◌∙◌, ◌⊎◌, inl, inr, Bool, true, false, ◌&&◌,
  not, Option, none, some, List, [], ◌∷◌, arith, if◌then◌else◌, length, take, get_elem?, Bool-cases,
}
use cs_161_s21_problem_sets.Strings.Order.{NoNul}
use cs_161_s21_problem_sets.Initfs.State.{is_empty, agrees, Scan, hit, miss, or_first, scan}

-- The test of the loop is equality with the name, cut to `n` bytes.
eq_of_agrees :
    (n : ℕ) (f name : List ℕ)
    → NoNul f
    → NoNul name
    → n ≤ length name
    → agrees n f name ≡ true
    → f ≡ take n name
unfolding agrees
eq_of_agrees zero [] name p q h e = refl
eq_of_agrees zero (x ∷ f) name p q h e = absurd (ground arith)
eq_of_agrees (suc n) f [] p q h e = absurd (omega arith)
eq_of_agrees (suc n) [] (y ∷ name) p q h e = absurd (ground arith)
eq_of_agrees (suc n) (x ∷ f) (y ∷ name) p q h e =
    let same : x ≡ y = ground arith in
    let rest : agrees n f name ≡ true = ground arith in
    ap₂ (λ a l. a ∷ l) same (eq_of_agrees n f name p.1 q.1 (omega arith) rest)

agrees-take : (n : ℕ) (name : List ℕ) → n ≤ length name → agrees n (take n name) name ≡ true
unfolding agrees
agrees-take zero name h = refl
agrees-take (suc n) [] h = absurd (omega arith)
agrees-take (suc n) (y ∷ name) h = ground (arith, agrees-take n name)

abbrev pub AllNames : List (List ℕ) → Type 0
AllNames [] = Unit {0}
AllNames (f ∷ fs) = NoNul f × AllNames fs

-- No entry, or none before the `k`-th, has the name.
abbrev pub Absent : List (List ℕ) → List ℕ → Type 0
Absent fs key = (m : ℕ) → get_elem? fs m ≢ some key

abbrev pub FirstAt : List (List ℕ) → List ℕ → ℕ → Type 0
FirstAt fs key k = (get_elem? fs k ≡ some key) × ((m : ℕ) → m < k → get_elem? fs m ≢ some key)

-- What the loop knows of entries that are not used, among those from the `i`-th on: the first of them,
-- unless one was known before.
abbrev pub Unused : List (List ℕ) → ℕ → Option ℕ → Option ℕ → Type 0
Unused fs i (some j) e' = e' ≡ some j
Unused fs i none e' =
    ((e' ≡ none) × Absent fs []) ⊎ ((k : ℕ) × (e' ≡ some (i + k)) × FirstAt fs [] k)

-- What the loop has found of the entries from the `i`-th on.
abbrev pub Scanned : List (List ℕ) → List ℕ → ℕ → Option ℕ → Scan → Type 0
Scanned fs key i e (hit j) = (k : ℕ) × (j ≡ i + k) × FirstAt fs key k
Scanned fs key i e (miss e') = Absent fs key × Unused fs i e e'

empty_name : (f : List ℕ) → NoNul f → is_empty f ≡ true → f ≡ []
empty_name [] p e = refl
empty_name (x ∷ f) p e = absurd (ground arith)

none_of_cons :
    (f : List ℕ) (fs : List (List ℕ)) (key : List ℕ) → f ≢ key → Absent fs key → Absent (f ∷ fs) key
none_of_cons f fs key ne h zero e = ne (some_inj e)
  where
    some_inj : {a b : List ℕ} → ◌≡◌ {A = Option (List ℕ)} (some a) (some b) → a ≡ b
    some_inj e = cc
none_of_cons f fs key ne h (suc m) e = h m e

FirstAt-cons :
    (f : List ℕ) (fs : List (List ℕ)) (key : List ℕ) (k : ℕ)
    → f ≢ key
    → FirstAt fs key k
    → FirstAt (f ∷ fs) key (suc k)
FirstAt-cons f fs key k ne (here, before) = (here, earlier)
  where
    earlier : (m : ℕ) → m < suc k → get_elem? (f ∷ fs) m ≢ some key
    earlier zero lt e = ne (some_inj e)
      where
        some_inj : {a b : List ℕ} → ◌≡◌ {A = Option (List ℕ)} (some a) (some b) → a ≡ b
        some_inj e = cc
    earlier (suc m) lt e = before m (omega arith) e

not_empty : (f : List ℕ) → is_empty f ≡ false → f ≢ []
not_empty f used e = absurd (let h : is_empty [] ≡ false = rw e at used in ground arith)

Unused-cons :
    (f : List ℕ) (fs : List (List ℕ)) (i : ℕ) (e e' : Option ℕ)
    → NoNul f
    → Unused fs (i + 1) (if is_empty f then or_first e i else e) e'
    → Unused (f ∷ fs) i e e'
Unused-cons f fs i (some j) e' p h = ground (arith, h)
Unused-cons f fs i none e' p h = elim (Bool-cases (is_empty f)) [
  | inl unused ↦ inr (
    0,
    (rw unused at h) ∙ ap some (omega arith),
    (ap some (empty_name f p unused), λ m lt. absurd (omega arith)),
  )
  | inr used ↦ later (not_empty f used) (rw used at h)
]
  where
    later : f ≢ [] → Unused fs (i + 1) none e' → Unused (f ∷ fs) i none e'
    later ne (inl (e, gone)) = inl (e, none_of_cons f fs [] ne gone)
    later ne (inr (k, at, first)) =
        inr (suc k, at ∙ ap some (omega arith), FirstAt-cons f fs [] k ne first)

Scanned-cons :
    (f : List ℕ) (fs : List (List ℕ)) (key : List ℕ) (i : ℕ) (e : Option ℕ) (s : Scan)
    → NoNul f
    → f ≢ key
    → Scanned fs key (i + 1) (if is_empty f then or_first e i else e) s
    → Scanned (f ∷ fs) key i e s
Scanned-cons f fs key i e (hit j) p ne (k, at, first) =
    (suc k, omega arith, FirstAt-cons f fs key k ne first)
Scanned-cons f fs key i e (miss e') p ne (gone, h) =
    (none_of_cons f fs key ne gone, Unused-cons f fs i e e' p h)

scan-hit :
    (f : List ℕ) (fs : List (List ℕ)) (name : List ℕ) (n i : ℕ) (e : Option ℕ)
    → (not (is_empty f) && agrees n f name) ≡ true
    → scan (f ∷ fs) name n i e ≡ hit i
unfolding scan
scan-hit f fs name n i e t = rw t refl

scan-next :
    (f : List ℕ) (fs : List (List ℕ)) (name : List ℕ) (n i : ℕ) (e : Option ℕ)
    → (not (is_empty f) && agrees n f name) ≡ false
    → scan (f ∷ fs) name n i e ≡ scan fs name n (i + 1) (if is_empty f then or_first e i else e)
unfolding scan
scan-next f fs name n i e t = rw t refl

module _ (name : List ℕ) (n : ℕ) (p : NoNul name) (some_bytes : 0 < n) (le : n ≤ length name) where
  key_used : (f : List ℕ) → f ≡ take n name → is_empty f ≡ false
  key_used f e = rw e (used n name p some_bytes le)
    where
      used :
          (n : ℕ) (name : List ℕ)
          → NoNul name
          → 0 < n
          → n ≤ length name
          → is_empty (take n name) ≡ false
      used zero name p h le = absurd (omega arith)
      used (suc n) [] p h le = absurd (omega arith)
      used (suc n) (y ∷ name) p h le = ground arith

  other_name : (f : List ℕ) → (not (is_empty f) && agrees n f name) ≡ false → f ≢ take n name
  other_name f t e =
      let a : agrees n f name ≡ true = rw e (agrees-take n name le) in
      absurd (clash (is_empty f) (agrees n f name) t (key_used f e) a)
    where
      clash : (b c : Bool) → (not b && c) ≡ false → b ≡ false → c ≡ true → ⊥
      clash b c t e f = ground arith

  same_name :
      (f : List ℕ) → NoNul f → (not (is_empty f) && agrees n f name) ≡ true → f ≡ take n name
  same_name f q t = eq_of_agrees n f name q p le (second (is_empty f) (agrees n f name) t)
    where
      second : (b c : Bool) → (not b && c) ≡ true → c ≡ true
      second b c t = ground arith

  pub scan-Scanned :
      (fs : List (List ℕ)) (i : ℕ) (e : Option ℕ)
      → AllNames fs
      → Scanned fs (take n name) i e (scan fs name n i e)
  unfolding scan
  scan-Scanned [] i e q = (none_there (take n name), nothing_unused e)
    where
      none_there : (key : List ℕ) → Absent [] key
      none_there key m e = cc

      nothing_unused : (e : Option ℕ) → Unused [] i e e
      nothing_unused none = inl (refl, none_there [])
      nothing_unused (some j) = refl
  scan-Scanned (f ∷ fs) i e q = elim (Bool-cases (not (is_empty f) && agrees n f name)) [
    | inl t ↦
        rw (scan-hit f fs name n i e t)
          (0, omega arith, (ap some (same_name f q.0 t), λ m lt. absurd (omega arith)))
    | inr t ↦
        rw (scan-next f fs name n i e t) (
          Scanned-cons f fs (take n name) i e _ q.0 (other_name f t)
            (scan-Scanned fs (i + 1) _ q.1))
  ]
