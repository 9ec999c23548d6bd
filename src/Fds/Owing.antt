-- ===== src/Fds/Owing.antt =====
-- The counts of references, also while one is given up.
use cs_161_s21_problem_sets.Prelude.{
  ℕ, ◌+◌, ◌-◌, ◌<◌, ◌≡◌, refl, ap, inl, inr, true, false, some, arith, ltb, ◌==◌, Bool-cases, ok,
}
use cs_161_s21_problem_sets.Fds.State.{Table, put, drop_ref, delete_unused}
use cs_161_s21_problem_sets.Fds.Counts.{is, uses, uses-pos, is-own}

-- The other thread groups hold `elsewhere v` references to `v`; every vnode has its count, and one that
-- is referred to is not deleted.
pub record Counted (elsewhere : ℕ → ℕ) (s : Table) : Type 0 where
  pub counted : (v : ℕ) → s.refcount v ≡ uses 8 s.fdtable v + elsewhere v
  pub live : (v : ℕ) → 0 < s.refcount v → s.deleted v ≡ false

-- A reference given up, before its entry is cleared: the vnode `v` has one less than the entries say.
pub record Owing (elsewhere : ℕ → ℕ) (s : Table) (v : ℕ) : Type 0 where
  pub owes : (u : ℕ) → s.refcount u + is (some v) u ≡ uses 8 s.fdtable u + elsewhere u
  pub live : (u : ℕ) → 0 < s.refcount u → s.deleted u ≡ false

module _ {elsewhere : ℕ → ℕ} {s : Table} (c : Counted elsewhere s) (fd v : ℕ)
    (at : s.fdtable fd ≡ some v) (low : fd < 8) where
  pub referred : 0 < s.refcount v
  referred = omega (arith, c.counted v, uses-pos 8 fd s.fdtable v low, is-own (s.fdtable fd) v at)

  unfoldable pub dropped : Table
  dropped = record s { refcount = put v (s.refcount v - 1) s.refcount }

  pub drop_ref-ok : drop_ref v s ≡ ok dropped
  unfolding drop_ref dropped
  drop_ref-ok = let t : ltb 0 (s.refcount v) ≡ true = ground (arith, referred) in rw t refl

  pub dropped-Owing : Owing elsewhere dropped v
  unfolding dropped
  dropped-Owing = record {
    owes = λ u. elim (Bool-cases (u == v)) [
      | inl same ↦
          let e : u ≡ v = ground arith in
          let t : (v == u) ≡ true = ground arith in
          rw (same, t) (omega (arith, c.counted u, referred, e, ap s.refcount e))
      | inr other ↦
          let f : (v == u) ≡ false = ground arith in rw (other, f) (omega (arith, c.counted u))
    ];
    live = λ u h. c.live u (elim (Bool-cases (u == v)) [
      | inl same ↦ let e : u ≡ v = ground arith in omega (arith, referred, ap s.refcount e)
      | inr other ↦ rw other at h
    ]);
  }

-- Deleting a vnode that nothing refers to keeps what holds of the counts.
pub delete_unused-Owing :
    {elsewhere : ℕ → ℕ} (s : Table) (v w : ℕ) (fd : ℕ)
    → Owing elsewhere s v
    → s.fdtable fd ≡ some v
    → 0 < s.refcount w
    → (t : Table) × (delete_unused v s ≡ t)
      × Owing elsewhere t v
      × (t.fdtable ≡ s.fdtable)
      × (0 < t.refcount w)
unfolding delete_unused
delete_unused-Owing s v w fd o at h = elim (Bool-cases (s.refcount v == 0)) [
  | inl unused ↦ (
    record s { deleted = put v true s.deleted },
    rw unused refl,
    record {
      owes = o.owes;
      live = λ u k.
          let other : (u == v) ≡ false = ground (arith, ap s.refcount) in rw other (o.live u k);
    },
    refl,
    h,
  )
  | inr used ↦ (s, rw used refl, o, refl, h)
]
