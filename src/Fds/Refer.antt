-- ===== src/Fds/Refer.antt =====
-- A new reference to a vnode, at the end of `dup2`, and the counts of references.
use cs_161_s21_problem_sets.Prelude.{
  ℕ, ◌<◌, ◌≡◌, refl, ap, inl, inr, true, false, none, some, arith, ◌==◌, Bool-cases,
}
use cs_161_s21_problem_sets.Fds.State.{Table, refer}
use cs_161_s21_problem_sets.Fds.Counts.{is, uses-put}
use cs_161_s21_problem_sets.Fds.Owing.{Counted, Owing}

pub refer-Counted :
    {elsewhere : ℕ → ℕ} (s : Table) (fd old v : ℕ)
    → fd < 8
    → Owing elsewhere s old
    → s.fdtable fd ≡ some old
    → 0 < s.refcount v
    → Counted elsewhere (refer fd v s)
unfolding refer
refer-Counted s fd old v low o at h = record {
  counted = λ u.
      let moved = uses-put 8 fd (some v) s.fdtable u low in
      elim (Bool-cases (u == v)) [
        | inl same ↦
            let e : u ≡ v = ground arith in
            let t : (v == u) ≡ true = ground arith in
            let one : is (some v) u ≡ 1 = rw t refl in
            rw same (omega (arith, o.owes u, moved, one, ap s.refcount e, ap (λ p. is p u) at))
        | inr other ↦
            let f : (v == u) ≡ false = ground arith in
            let none_more : is (some v) u ≡ 0 = rw f refl in
            rw other (omega (arith, o.owes u, moved, none_more, ap (λ p. is p u) at))
      ];
  live = λ u k. elim (Bool-cases (u == v)) [
    | inl same ↦ let e : u ≡ v = ground arith in o.live u (omega (arith, h, ap s.refcount e))
    | inr other ↦ o.live u (rw other at k)
  ];
}

-- A new entry where there was none.
pub fresh-Counted :
    {elsewhere : ℕ → ℕ} (s : Table) (fd v : ℕ)
    → fd < 8
    → Counted elsewhere s
    → s.fdtable fd ≡ none
    → 0 < s.refcount v
    → Counted elsewhere (refer fd v s)
unfolding refer
fresh-Counted s fd v low c at h = record {
  counted = λ u.
      let moved = uses-put 8 fd (some v) s.fdtable u low in
      elim (Bool-cases (u == v)) [
        | inl same ↦
            let e : u ≡ v = ground arith in
            let t : (v == u) ≡ true = ground arith in
            let one : is (some v) u ≡ 1 = rw t refl in
            rw same (omega (arith, c.counted u, moved, one, ap s.refcount e, ap (λ p. is p u) at))
        | inr other ↦
            let f : (v == u) ≡ false = ground arith in
            let none_more : is (some v) u ≡ 0 = rw f refl in
            rw other (omega (arith, c.counted u, moved, none_more, ap (λ p. is p u) at))
      ];
  live = λ u k. elim (Bool-cases (u == v)) [
    | inl same ↦ let e : u ≡ v = ground arith in c.live u (omega (arith, h, ap s.refcount e))
    | inr other ↦ c.live u (rw other at k)
  ];
}
