-- ===== src/Fds/Dup.antt =====
-- `dup2` keeps the counts of references right.
use cs_161_s21_problem_sets.Prelude.{
  ℕ, ◌<◌, ◌≡◌, ◌≢◌, ◌-◌, ◌&&◌, not, ltb, refl, sym, ap, ◌∙◌, inl, inr, true, false, ◌||◌, none,
  some, arith, leb, ◌==◌, if◌then◌else◌, Bool-cases, ok, fun_ext, Option-cases,
}
use cs_161_s21_problem_sets.Errno.{count}
use cs_161_s21_problem_sets.Fds.State.{
  Table, put, refer, replace, dup2, drop_ref, delete_unused, close_entry, sleeps,
}
use cs_161_s21_problem_sets.Fds.Counts.{uses-put, uses-pos, is-own}
use cs_161_s21_problem_sets.Fds.Owing.{
  Counted, referred, dropped, drop_ref-ok, dropped-Owing, delete_unused-Owing,
}
use cs_161_s21_problem_sets.Fds.Refer.{refer-Counted, fresh-Counted}

-- Only the vnode itself is deleted.
delete_unused_spares :
    (s : Table) (v u : ℕ) → (u == v) ≡ false → (delete_unused v s).deleted u ≡ s.deleted u
unfolding delete_unused
delete_unused_spares s v u other = elim (Bool-cases (s.refcount v == 0)) [
  | inl unused ↦ rw (unused, other) refl
  | inr used ↦ rw used refl
]

-- The vnodes that may be deleted are those at `newfd`.
abbrev Spares : Table → Table → ℕ → Type 0
Spares s t newfd = (u : ℕ) → s.fdtable newfd ≢ some u → t.deleted u ≡ s.deleted u

-- The vnode at another descriptor keeps a reference when that at `fd` is dropped.
module _ {elsewhere : ℕ → ℕ} {s : Table} (c : Counted elsewhere s) (oldfd newfd v old : ℕ)
    (at_old : s.fdtable oldfd ≡ some v) (at_new : s.fdtable newfd ≡ some old) (low : oldfd < 8)
    (low' : newfd < 8) (apart : (oldfd == newfd) ≡ false) where
  still_referred : 0 < (dropped c newfd old at_new low').refcount v
  unfolding dropped
  still_referred =
      let moved = uses-put 8 newfd none s.fdtable v low' in
      let there = uses-pos 8 oldfd (put newfd none s.fdtable) v low in
      let kept : put newfd none s.fdtable oldfd ≡ some v = rw apart at_old in
      let one = is-own (put newfd none s.fdtable oldfd) v kept in
      elim (Bool-cases (v == old)) [
        | inl same ↦
            let e : v ≡ old = ground arith in
            let two = is-own (s.fdtable newfd) v (at_new ∙ ap (λ k. some k) (sym e)) in
            rw same (omega (arith, c.counted v, moved, there, one, two, ap s.refcount e))
        | inr other ↦ rw other (omega (arith, c.counted v, moved, there, one))
      ]

  replace-open :
      (t : Table) × (replace newfd v s ≡ ok t)
      × Counted elsewhere t
      × (t.fdtable ≡ put newfd (some v) s.fdtable)
      × Spares s t newfd
  unfolding replace refer dropped
  replace-open =
      let s' = dropped c newfd old at_new low' in
      let (t, e, o, same, h) =
        delete_unused-Owing s' old v newfd (dropped-Owing c newfd old at_new low') at_new
          still_referred in
      (
        refer newfd v t,
        rw (replace, at_new, drop_ref-ok c newfd old at_new low', e) refl,
        refer-Counted t newfd old v low' o (ap (λ f. f newfd) same ∙ at_new) h,
        ap (λ f. put newfd (some v) f) same,
        λ u ne.
            let other : (u == old) ≡ false = elim (Bool-cases (u == old)) [
              | inl same ↦
                  let e' : u ≡ old = ground arith in
                  absurd (ne (at_new ∙ ap (λ k. some k) (sym e')))
              | inr off ↦ off
            ] in
            ap (λ r. r.deleted u) (sym e) ∙ delete_unused_spares s' old u other,
      )

replace-Counted :
    (elsewhere : ℕ → ℕ) (s : Table) (oldfd newfd v : ℕ)
    → Counted elsewhere s
    → s.fdtable oldfd ≡ some v
    → oldfd < 8
    → newfd < 8
    → (oldfd == newfd) ≡ false
    → (t : Table) × (replace newfd v s ≡ ok t)
      × Counted elsewhere t
      × (t.fdtable ≡ put newfd (some v) s.fdtable)
      × Spares s t newfd
unfolding replace refer
replace-Counted elsewhere s oldfd newfd v c at low low' apart =
    elim (Option-cases (s.fdtable newfd)) [
      | inl e ↦ (
        refer newfd v s,
        rw (replace, e) refl,
        fresh-Counted s newfd v low' c e (referred c oldfd v at low),
        refl,
        λ u ne. refl,
      )
      | inr (old, e) ↦ replace-open c oldfd newfd v old at e low low' apart
    ]

-- The vnode at `newfd`, if there is one, is not in use.
abbrev pub IdleAt : Table → ℕ → Type 0
IdleAt s newfd = (u : ℕ) → s.fdtable newfd ≡ some u → s.active u ≡ 0

-- `dup2` from an open descriptor to any other whose vnode, if it has one, is not in use, the
-- counts of references being right: no assertion fails; the new descriptor is the same vnode and
-- no other descriptor changes; the count of every vnode is again the number of descriptors that
-- refer to it, also from elsewhere, no vnode that is referred to was deleted, and none that is in
-- use. It answers 0, which is not the new descriptor that the comment above it promises, or the
-- descriptor if both are the same.
pub dup2_lem :
    (elsewhere : ℕ → ℕ) (s : Table) (oldfd newfd v : ℕ)
    → Counted elsewhere s
    → s.fdtable oldfd ≡ some v
    → oldfd < 8
    → newfd < 8
    → IdleAt s newfd
    → (t : Table) × (dup2 oldfd newfd s ≡ ok (if oldfd == newfd then count newfd else count 0, t))
      × Counted elsewhere t
      × (t.fdtable ≡ put newfd (some v) s.fdtable)
      × ((u : ℕ) → 0 < s.active u → t.deleted u ≡ s.deleted u)
unfolding dup2
dup2_lem elsewhere s oldfd newfd v c at low low' idle_there = elim (Bool-cases (oldfd == newfd)) [
  | inl same ↦
      let e : oldfd ≡ newfd = ground arith in
      (
        s,
        rw (dup2, good, at, same) refl,
        c,
        fun_ext (λ k. elim (Bool-cases (k == newfd)) [
          | inl here ↦ let f : k ≡ oldfd = ground (arith, e) in rw here (ap s.fdtable f ∙ at)
          | inr other ↦ rw other refl
        ]),
        λ u busy. refl,
      )
  | inr apart ↦
      let (t, e, ct, put_there, spares) =
        replace-Counted elsewhere s oldfd newfd v c at low low' apart in
      (
        t,
        rw (dup2, good, at, apart, e) refl,
        ct,
        put_there,
        λ u busy. spares u (λ here. absurd (omega (arith, busy, idle_there u here))),
      )
]
  where
    good : (leb 8 oldfd || leb 8 newfd) ≡ false
    good = ground arith

-- Where `close` of a descriptor sleeps, because its vnode is in use and has no other reference, a
-- `dup2` of another vnode onto that descriptor does not: the vnode is deleted at once, while its
-- input or output goes on.
pub dup2-in_use :
    (s : Table) (oldfd newfd v old : ℕ)
    → s.fdtable oldfd ≡ some v
    → s.fdtable newfd ≡ some old
    → (v == old) ≡ false
    → s.refcount old ≡ 1
    → 0 < s.active old
    → oldfd < 8
    → newfd < 8
    → (s1 t : Table) × (close_entry newfd s ≡ ok (sleeps s1))
      × (dup2 oldfd newfd s ≡ ok (count 0, t))
      × (t.deleted old ≡ true)
      × (0 < t.active old)
unfolding close_entry dup2 replace drop_ref delete_unused refer
dup2-in_use s oldfd newfd v old at at_new apart one busy low low' =
    let good : leb 8 newfd ≡ false = ground arith in
    let good' : (leb 8 oldfd || leb 8 newfd) ≡ false = ground arith in
    let some_ref : ltb 0 (s.refcount old) ≡ true = ground (arith, one) in
    let own : (old == old) ≡ true = ground arith in
    let sleepy : (s.refcount old - 1 == 0 && not (s.active old == 0)) ≡ true =
      ground (arith, one, busy) in
    let gone : (s.refcount old - 1 == 0) ≡ true = ground (arith, one) in
    let two : (oldfd == newfd) ≡ false = elim (Bool-cases (oldfd == newfd)) [
      | inl same ↦
          let e : oldfd ≡ newfd = ground arith in
          let f : some v ≡ some old = sym at ∙ ap s.fdtable e ∙ at_new in absurd (ground (arith, f))
      | inr off ↦ off
    ] in
    let s1 : Table = record s { refcount = put old (s.refcount old - 1) s.refcount } in
    (
      s1,
      refer newfd v (record s1 { deleted = put old true s.deleted }),
      rw (close_entry, good, at_new, some_ref, own, sleepy) refl,
      rw (dup2, good', at, two, replace, at_new, some_ref, own, gone) refl,
      rw own refl,
      busy,
    )
