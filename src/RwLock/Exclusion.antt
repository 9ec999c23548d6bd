-- ===== src/RwLock/Exclusion.antt =====
-- The lock lets in many readers or one writer, and no assertion of `rwlock` fails.
use cs_161_s21_problem_sets.Prelude.{
  ℕ, ◌+◌, ◌≡◌, ◌≢◌, refl, sym, ◌∙◌, inl, inr, Bool, true, false, ◌&&◌, none, some, List, [], ◌∷◌,
  Outcome, ok, panic, arith, subst, Bool-cases, get_elem?, set, Option-cases,
}
use cs_161_s21_problem_sets.RwLock.State.{Place, writing, Move, act, Lock, init, step, run}
use cs_161_s21_problem_sets.RwLock.Counts.{
  reads, writes, total, others, total-others, total-set, total-pair, total-replicate, Counts,
  allowed, act-Sound, act-panics,
}

unfoldable pub IsValid : Lock → Type 0
IsValid s = Counts s.mlock (total reads s.tasks) (total writes s.tasks)

pub step-at :
    (s : Lock) (i : ℕ) (move : Move) (p p' : Place) (m' : ℕ)
    → get_elem? s.tasks i ≡ some p
    → act false s.mlock p move ≡ ok (m', p')
    → step false s (i, move) ≡ ok (record { mlock = m'; tasks = set s.tasks i p' })
unfolding step
step-at s i move p p' m' e f = rw (e, step) (rw f refl)

step-outside :
    (s : Lock) (i : ℕ) (move : Move) → get_elem? s.tasks i ≡ none → step false s (i, move) ≡ ok s
unfolding step
step-outside s i move e = rw (e, step) refl

-- The task that a move is of may make it.
unfoldable pub may : Lock → ℕ × Move → Bool
may s (i, move) = elim (get_elem? s.tasks i) [ none ↦ true | some p ↦ allowed p move ]

may-at :
    (s : Lock) (i : ℕ) (move : Move) (p : Place)
    → get_elem? s.tasks i ≡ some p
    → may s (i, move) ≡ allowed p move
unfolding may
may-at s i move p e = rw (e, may) refl

pub step-IsValid :
    (s : Lock) (i : ℕ) (move : Move)
    → may s (i, move) ≡ true
    → IsValid s
    → (s' : Lock) × (step false s (i, move) ≡ ok s') × IsValid s'
unfolding IsValid
step-IsValid s i move a v = elim (Option-cases (get_elem? s.tasks i)) [
  | inl e ↦ (s, step-outside s i move e, v)
  | inr (p, e) ↦
      let r = others reads s.tasks i in
      let w = others writes s.tasks i in
      let now : Counts s.mlock (reads p + r) (writes p + w) =
        omega (arith, v, total-others reads s.tasks i p e, total-others writes s.tasks i p e) in
      let (m', p', f, after) = act-Sound s.mlock r w p move (sym (may-at s i move p e) ∙ a) now in
      (
        record { mlock = m'; tasks = set s.tasks i p' },
        step-at s i move p p' m' e f,
        omega (arith, after, total-set reads s.tasks i p p' e, total-set writes s.tasks i p p' e),
      )
]

step-panics :
    (s : Lock) (i : ℕ) (move : Move) → may s (i, move) ≡ false → step false s (i, move) ≡ panic
unfolding step may
step-panics s i move a = elim (Option-cases (get_elem? s.tasks i)) [
  | inl e ↦ absurd (let t : true ≡ false = rw (e, may) at a in ground arith)
  | inr (p, e) ↦
      rw (e, step) (let b = act-panics s.mlock p move (sym (may-at s i move p e) ∙ a) in rw b refl)
]

pub ok_step-IsValid :
    (s s' : Lock) (i : ℕ) (m : Move) → IsValid s → step false s (i, m) ≡ ok s' → IsValid s'
ok_step-IsValid s s' i m v e = elim (Bool-cases (may s (i, m))) [
  | inl a ↦
      let (t, f, w) = step-IsValid s i m a v in
      let same : t ≡ s' = ground arith in subst IsValid same w
  | inr a ↦ absurd (let h : panic ≡ ok s' = sym (step-panics s i m a) ∙ e in ground arith)
]

pub run-cons :
    (s s' : Lock) (m : ℕ × Move) (ms : List (ℕ × Move))
    → step false s m ≡ ok s'
    → run false s (m ∷ ms) ≡ run false s' ms
unfolding run
run-cons s s' m ms e = rw (e, run) refl

-- No task ever calls `unlock` without the lock.
unfoldable pub disciplined : Lock → List (ℕ × Move) → Bool
unfolding may step
disciplined s [] = true
disciplined s (m ∷ ms) =
    may s m && (elim (step false s m) [ panic ↦ true | ok s' ↦ disciplined s' ms ])

pub run-IsValid :
    (s : Lock) (ms : List (ℕ × Move))
    → disciplined s ms ≡ true
    → IsValid s
    → (s' : Lock) × (run false s ms ≡ ok s') × IsValid s'
unfolding run disciplined
run-IsValid s [] d v = (s, refl, v)
run-IsValid s ((i, move) ∷ ms) d v =
    let a : may s (i, move) ≡ true = ground arith in
    let (s1, e, v1) = step-IsValid s i move a v in
    let d1 : disciplined s1 ms ≡ true = rw (a, e) at d in
    let (s2, f, v2) = run-IsValid s1 ms d1 v1 in (s2, run-cons s s1 (i, move) ms e ∙ f, v2)

-- The first step of a run that succeeds.
pub first_step :
    (s s' : Lock) (m : ℕ × Move) (ms : List (ℕ × Move))
    → run false s (m ∷ ms) ≡ ok s'
    → (s1 : Lock) × (step false s m ≡ ok s1) × (run false s1 ms ≡ ok s')
unfolding run
first_step s s' m ms e = split (step false s m) refl
  where
    split :
        (o : Outcome Lock)
        → step false s m ≡ o
        → (s1 : Lock) × (step false s m ≡ ok s1) × (run false s1 ms ≡ ok s')
    split (ok s1) f = (s1, f, sym (run-cons s s1 m ms f) ∙ e)
    split panic f = absurd (let h : panic ≡ ok s' = rw (f, run) at e in ground arith)

pub ok_run-IsValid :
    (s s' : Lock) (ms : List (ℕ × Move)) → IsValid s → run false s ms ≡ ok s' → IsValid s'
unfolding run
ok_run-IsValid s s' [] v e = let same : s ≡ s' = ground arith in subst IsValid same v
ok_run-IsValid s s' ((i, m) ∷ ms) v e =
    let (s1, f, g) = first_step s s' (i, m) ms e in
    ok_run-IsValid s1 s' ms (ok_step-IsValid s s1 i m v f) g

pub init-IsValid_lock : (n : ℕ) → IsValid (init n)
unfolding IsValid init
init-IsValid_lock n =
    inr (sym (total-replicate reads n refl), omega arith, total-replicate writes n refl)

-- Mutual exclusion. Whatever the tasks have done from a free lock, in any interleaving of their
-- atomic accesses, while one of them has the lock for writing no other has it for reading or for
-- writing.
pub writer_alone :
    (n : ℕ) (ms : List (ℕ × Move)) {s : Lock} {p : Place} (i j : ℕ)
    → run false (init n) ms ≡ ok s
    → i ≢ j
    → get_elem? s.tasks i ≡ some writing
    → get_elem? s.tasks j ≡ some p
    → (reads p ≡ 0) × (writes p ≡ 0)
unfolding IsValid
writer_alone n ms {s} {p} i j e ne at_i at_j =
    let v' : IsValid s = ok_run-IsValid (init n) s ms (init-IsValid_lock n) e in
    omega (
      arith,
      v',
      total-pair writes s.tasks i j writing p ne at_i at_j,
      total-others reads s.tasks j p at_j,
    )
