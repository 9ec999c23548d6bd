-- ===== src/Initfs/Lookup.antt =====
-- `initfs_lookup`: what it answers, and that a file made by a name is found by it.
use cs_161_s21_problem_sets.Prelude.{
  ℕ, zero, suc, ◌-◌, ◌<◌, ◌≡◌, ◌≢◌, refl, sym, ap, ◌∙◌, ◌⊎◌, inl, inr, Bool, true, false, none,
  some, List, [], ◌∷◌, arith, min, leb, ltb, length, take, set, get_elem?, get_elem?-set_self,
  get_elem?-set_ne, lt-length_of_get_elem?, Bool-cases,
}
use cs_161_s21_problem_sets.Errno.{noent, nospc}
use cs_161_s21_problem_sets.Strings.Order.{NoNul}
use cs_161_s21_problem_sets.Initfs.State.{
  namesize, Scan, hit, miss, scan, Lookup, found, created, error, name_length, after_scan,
  initfs_lookup,
}
use cs_161_s21_problem_sets.Initfs.Find.{AllNames, Absent, FirstAt, Scanned, scan-Scanned}

-- The name as far as an entry can hold it.
abbrev pub key_of : List ℕ → List ℕ
key_of name = take (name_length name) name

lookup-scan :
    (fs : List (List ℕ)) (name : List ℕ) (create : Bool) (s : Scan)
    → scan fs name (name_length name) 0 none ≡ s
    → initfs_lookup fs name create ≡ after_scan fs name create s
unfolding initfs_lookup
lookup-scan fs name create s e = ap (after_scan fs name create) e

after_scan-new :
    (fs : List (List ℕ)) (name : List ℕ) (i : ℕ)
    → after_scan fs name true (miss (some i)) ≡ (created i, set fs i (key_of name))
unfolding after_scan
after_scan-new fs name i =
    let e : leb namesize (name_length name) ≡ false = short (length name) in rw e refl
  where
    short : (n : ℕ) → leb namesize (min n (namesize - 1)) ≡ false
    short n = ground arith

-- What the lookup answers for the name `key`, cut to 63 bytes.
abbrev pub Answers : List (List ℕ) → List ℕ → Bool → Lookup × List (List ℕ) → Type 0
Answers fs key create r =
    ((i : ℕ) × (r ≡ (found i, fs)) × FirstAt fs key i)
    ⊎ (Absent fs key
        × (((create ≡ false) × (r ≡ (error noent, fs)))
            ⊎ ((create ≡ true) × (r ≡ (error nospc, fs)) × Absent fs [])
            ⊎ ((i : ℕ) × (create ≡ true) × (r ≡ (created i, set fs i key)) × FirstAt fs [] i)))

-- `initfs_lookup` of a name that is not empty, cut to 63 bytes: it answers the first entry that
-- has that name; or none has, and it answers E_NOENT, or, if a file may be created, the first
-- entry that was not used, which now has the name, or E_NOSPC if every entry is used. It never
-- answers E_NAMETOOLONG.
pub initfs_lookup_lem :
    (fs : List (List ℕ)) (name : List ℕ) (create : Bool)
    → AllNames fs
    → NoNul name
    → 0 < length name
    → Answers fs (key_of name) create (initfs_lookup fs name create)
unfolding after_scan
initfs_lookup_lem fs name create q p pos =
    split (scan fs name (name_length name) 0 none) refl create
      (scan-Scanned name (name_length name) p (omega arith) (omega arith) fs 0 none q)
  where
    split :
        (s : Scan)
        → scan fs name (name_length name) 0 none ≡ s
        → (create : Bool) → Scanned fs (key_of name) 0 none s
        → Answers fs (key_of name) create (initfs_lookup fs name create)
    split (hit j) e create (k, at, first) =
        let same : j ≡ k = omega arith in
        inl (k, lookup-scan fs name create (hit j) e ∙ ap (λ i. (found i, fs)) same, first)
    split (miss o) e false (gone, _) = inr (gone, inl (refl, lookup-scan fs name false (miss o) e))
    split (miss none) e true (gone, inl (_, full)) =
        inr (gone, inr (inl (refl, lookup-scan fs name true (miss none) e, full)))
    split (miss none) e true (gone, inr (k, at, _)) = absurd cc
    split (miss (some i)) e true (gone, inl (never, _)) = absurd cc
    split (miss (some i)) e true (gone, inr (k, at, free)) =
        let same : i ≡ k = ground arith in
        inr (
          gone,
          inr (
              inr (
                i,
                refl,
                lookup-scan fs name true (miss (some i)) e ∙ after_scan-new fs name i,
                rw same free,
              )),
        )

NoNul-take : (n : ℕ) (name : List ℕ) → NoNul name → NoNul (take n name)
NoNul-take zero name p = tt
NoNul-take (suc n) [] p = tt
NoNul-take (suc n) (x ∷ name) p = (p.0, NoNul-take n name p.1)

AllNames-set :
    (fs : List (List ℕ)) (i : ℕ) (f : List ℕ) → AllNames fs → NoNul f → AllNames (set fs i f)
AllNames-set [] i f q p = tt
AllNames-set (g ∷ fs) zero f q p = (p, q.1)
AllNames-set (g ∷ fs) (suc i) f q p = (q.0, AllNames-set fs i f q.1 p)

FirstAt-unique :
    (fs : List (List ℕ)) (key : List ℕ) (i j : ℕ)
    → get_elem? fs i ≡ some key
    → ((m : ℕ) → m < i → get_elem? fs m ≢ some key)
    → FirstAt fs key j
    → j ≡ i
FirstAt-unique fs key i j at before (at_j, before_j) = elim (Bool-cases (ltb i j)) [
  | inl low ↦ absurd (before_j i (ground arith) at)
  | inr not_low ↦ elim (Bool-cases (ltb j i)) [
    | inl high ↦ absurd (before j (ground arith) at_j)
    | inr not_high ↦ ground arith
  ]
]

-- A file that `initfs_lookup` has created by a name that is not empty is found by its name, at
-- the entry that was answered.
pub lookup_created :
    (fs fs' : List (List ℕ)) (name : List ℕ) (i : ℕ)
    → AllNames fs
    → NoNul name
    → 0 < length name
    → initfs_lookup fs name true ≡ (created i, fs')
    → initfs_lookup fs' name false ≡ (found i, fs')
lookup_created fs fs' name i q p pos e = elim (initfs_lookup_lem fs name true q p pos) [
  | inl (j, e', _) ↦ absurd (found_not (sym e' ∙ e))
  | inr (gone, inl (never, _)) ↦ absurd cc
  | inr (gone, inr (inl (_, e', _))) ↦ absurd (error_not (sym e' ∙ e))
  | inr (gone, inr (inr (j, _, e', (free, _)))) ↦
      let (same_i, same_fs) = created_inj (sym e' ∙ e) in
      rw (← same_i, ← same_fs)
        (again j free gone (
          initfs_lookup_lem (set fs j (key_of name)) name false
            (AllNames-set fs j (key_of name) q (NoNul-take (name_length name) name p)) p pos))
]
  where
    found_not :
        {i j : ℕ} {fs gs : List (List ℕ)}
        → ◌≡◌ {A = Lookup × List (List ℕ)} (found i, fs) (created j, gs)
        → ⊥
    found_not e = cc

    error_not :
        {j : ℕ} {fs gs : List (List ℕ)}
        → ◌≡◌ {A = Lookup × List (List ℕ)} (error nospc, fs) (created j, gs)
        → ⊥
    error_not e = cc

    created_inj :
        {i j : ℕ} {fs gs : List (List ℕ)}
        → ◌≡◌ {A = Lookup × List (List ℕ)} (created i, fs) (created j, gs)
        → (i ≡ j) × (fs ≡ gs)
    created_inj e = (cc, cc)

    at_set :
        (j : ℕ)
        → get_elem? fs j ≡ some []
        → get_elem? (set fs j (key_of name)) j ≡ some (key_of name)
    at_set j free = get_elem?-set_self fs j (key_of name) (lt-length_of_get_elem? fs j free)

    again :
        (j : ℕ)
        → get_elem? fs j ≡ some []
        → Absent fs (key_of name)
        → Answers
            (set fs j (key_of name))
            (key_of name)
            false
            (initfs_lookup (set fs j (key_of name)) name false)
        → initfs_lookup (set fs j (key_of name)) name false ≡ (found j, set fs j (key_of name))
    again j free gone (inl (k, e', first)) =
        let same : k ≡ j =
          FirstAt-unique (set fs j (key_of name)) (key_of name) j k (at_set j free)
            (λ m lt h. gone m (sym (get_elem?-set_ne fs (key_of name) (omega arith)) ∙ h)) first in
        e' ∙ ap (λ x. (found x, set fs j (key_of name))) same
    again j free gone (inr (gone', _)) = absurd (gone' j (at_set j free))
