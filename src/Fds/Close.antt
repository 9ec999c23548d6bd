-- ===== src/Fds/Close.antt =====
-- `close`, and what its sleep lets happen.
use cs_161_s21_problem_sets.Prelude.{
  ℕ, ◌+◌, ◌-◌, ◌<◌, ◌≡◌, refl, sym, ap, ◌∙◌, inl, inr, Bool, true, false, ◌&&◌, ◌||◌, not, none,
  some, arith, ltb, leb, ◌==◌, Bool-cases, ok,
}
use cs_161_s21_problem_sets.Errno.{count}
use cs_161_s21_problem_sets.Fds.State.{
  Table, put, drop_ref, delete_unused, refer, replace, dup2, close_entry, close_after, clear,
  returns, sleeps,
}
use cs_161_s21_problem_sets.Fds.Counts.{is, uses, uses-put}
use cs_161_s21_problem_sets.Fds.Owing.{Counted, Owing, dropped, drop_ref-ok, dropped-Owing}

-- The entry of a dropped reference is cleared.
cleared-Counted :
    {elsewhere : ℕ → ℕ} (s : Table) (fd v : ℕ)
    → fd < 8
    → Owing elsewhere s v
    → s.fdtable fd ≡ some v
    → (t : Table) × (clear fd v s ≡ t) × Counted elsewhere t × (t.fdtable ≡ put fd none s.fdtable)
unfolding clear delete_unused
cleared-Counted {elsewhere} s fd v low o at = elim (Bool-cases (s.refcount v == 0)) [
  | inl unused ↦ (
    record s { fdtable = put fd none s.fdtable; deleted = put v true s.deleted },
    rw unused refl,
    record {
      counted = right;
      live = λ u k.
          let other : (u == v) ≡ false = ground (arith, ap s.refcount) in rw other (o.live u k);
    },
    refl,
  )
  | inr used ↦ (
    record s { fdtable = put fd none s.fdtable },
    rw used refl,
    record { counted = right; live = o.live },
    refl,
  )
]
  where
    right : (u : ℕ) → s.refcount u ≡ uses 8 (put fd none s.fdtable) u + elsewhere u
    right u = omega (arith, o.owes u, uses-put 8 fd none s.fdtable u low, ap (λ p. is p u) at)

-- `close` of an open descriptor of a vnode that is not in use, the counts of references being
-- right: it answers 0 without sleeping, no assertion fails, the descriptor is free and no other
-- changes, and the counts are right again, no vnode that is referred to being deleted.
pub close_entry_lem :
    (elsewhere : ℕ → ℕ) (s : Table) (fd v : ℕ)
    → Counted elsewhere s
    → s.fdtable fd ≡ some v
    → fd < 8
    → s.active v ≡ 0
    → (t : Table) × (close_entry fd s ≡ ok (returns (count 0) t))
      × Counted elsewhere t
      × (t.fdtable ≡ put fd none s.fdtable)
unfolding close_entry dropped
close_entry_lem elsewhere s fd v c at low idle_now =
    let (t, e, ct, gone) =
      cleared-Counted (dropped c fd v at low) fd v low (dropped-Owing c fd v at low) at in
    let good : leb 8 fd ≡ false = ground arith in
    let awake : ((dropped c fd v at low).refcount v == 0 && not (s.active v == 0)) ≡ false =
      ground (arith, idle_now) in
    (t, rw (close_entry, good, at, drop_ref-ok c fd v at low, awake, e) refl, ct, gone)

close_after-open :
    (s : Table) (fd v : ℕ)
    → s.fdtable fd ≡ some v
    → close_after fd s
      ≡ record s { fdtable = put fd none s.fdtable; deleted = put v true s.deleted }
unfolding close_after
close_after-open s fd v at = rw (close_after, at) refl

-- `close` of the only reference to a vnode that is in use sleeps; a `dup2` of its descriptor to a
-- free one goes through meanwhile; and when `close` goes on it deletes the vnode, to which the
-- new descriptor still refers.
pub close_after-dup2 :
    (s : Table) (fd newfd v : ℕ)
    → s.fdtable fd ≡ some v
    → s.fdtable newfd ≡ none
    → s.refcount v ≡ 1
    → 0 < s.active v
    → fd < 8
    → newfd < 8
    → (s1 s2 : Table) × (close_entry fd s ≡ ok (sleeps s1))
      × (dup2 fd newfd s1 ≡ ok (count 0, s2))
      × ((close_after fd s2).fdtable newfd ≡ some v)
      × ((close_after fd s2).deleted v ≡ true)
unfolding close_entry drop_ref dup2 replace refer close_after
close_after-dup2 s fd newfd v at free one busy low low' =
    let own : (v == v) ≡ true = ground arith in
    let good : leb 8 fd ≡ false = ground arith in
    let good' : (leb 8 fd || leb 8 newfd) ≡ false = ground arith in
    let some_ref : ltb 0 (s.refcount v) ≡ true = ground (arith, one) in
    let sleepy : (s.refcount v - 1 == 0 && not (s.active v == 0)) ≡ true =
      ground (arith, one, busy) in
    let s1 : Table = record s { refcount = put v (s.refcount v - 1) s.refcount } in
    let apart : (fd == newfd) ≡ false = different (fd == newfd) refl in
    let apart' : (newfd == fd) ≡ false = ground (arith, apart) in
    let there : (newfd == newfd) ≡ true = ground arith in
    let after = close_after-open (refer newfd v s1) fd v (rw apart at) in
    (
      s1,
      refer newfd v s1,
      rw (close_entry, good, at, some_ref, own, sleepy) refl,
      rw (dup2, good', at, apart, replace, free) refl,
      ap (λ t. t.fdtable newfd) after ∙ rw (apart', there) refl,
      ap (λ t. t.deleted v) after ∙ rw own refl,
    )
  where
    different : (b : Bool) → (fd == newfd) ≡ b → b ≡ false
    different false e = refl
    different true e =
        let same : fd ≡ newfd = ground arith in
        absurd (let f : some v ≡ none = sym at ∙ ap s.fdtable same ∙ free in ground arith)
