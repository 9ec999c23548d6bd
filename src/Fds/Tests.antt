-- ===== src/Fds/Tests.antt =====
-- Two descriptors of two vnodes.
use cs_161_s21_problem_sets.Prelude.{
  ℕ, ◌<◌, ◌≡◌, refl, true, false, none, some, ok, arith, ◌==◌, if◌then◌else◌,
}
use cs_161_s21_problem_sets.Errno.{count}
use cs_161_s21_problem_sets.Fds.State.{Table, put, dup2, returns, sleeps, close_entry, close_after}
use cs_161_s21_problem_sets.Fds.Counts.{uses}
use cs_161_s21_problem_sets.Fds.Owing.{Counted}
use cs_161_s21_problem_sets.Fds.Dup.{IdleAt, dup2_lem, dup2-in_use}
use cs_161_s21_problem_sets.Fds.Close.{close_entry_lem, close_after-dup2}

-- 3 is the vnode 0, 4 the vnode 1, which is in use.
abbrev open_two : Table
open_two = record {
  fdtable = λ fd. if fd == 3 then some 0 else if fd == 4 then some 1 else none;
  refcount = λ v. if v == 0 then 1 else if v == 1 then 1 else 0;
  active = λ v. if v == 1 then 1 else 0;
  deleted = λ v. false;
}

open_two-Counted : Counted (λ _. 0) open_two
unfolding uses
open_two-Counted = record { counted = λ v. ground arith; live = λ v h. refl }

descriptor_3-IdleAt : IdleAt open_two 3
descriptor_3-IdleAt = λ u e. ground (arith, e)

dup2_lem_example :
    (t : Table) × (dup2 4 3 open_two ≡ ok (count 0, t))
    × Counted (λ _. 0) t
    × (t.fdtable ≡ put 3 (some 1) open_two.fdtable)
    × ((u : ℕ) → 0 < open_two.active u → t.deleted u ≡ open_two.deleted u)
dup2_lem_example =
    dup2_lem (λ _. 0) open_two 4 3 1 open_two-Counted refl (omega arith) (omega arith)
      descriptor_3-IdleAt

dup2-in_use_example :
    (s1 t : Table) × (close_entry 4 open_two ≡ ok (sleeps s1))
    × (dup2 3 4 open_two ≡ ok (count 0, t))
    × (t.deleted 1 ≡ true)
    × (0 < t.active 1)
dup2-in_use_example =
    dup2-in_use open_two 3 4 0 1 refl refl refl refl (omega arith) (omega arith) (omega arith)

close_entry_lem_example :
    (t : Table) × (close_entry 3 open_two ≡ ok (returns (count 0) t))
    × Counted (λ _. 0) t
    × (t.fdtable ≡ put 3 none open_two.fdtable)
close_entry_lem_example =
    close_entry_lem (λ _. 0) open_two 3 0 open_two-Counted refl (omega arith) refl

close_after-dup2_example :
    (s1 s2 : Table) × (close_entry 4 open_two ≡ ok (sleeps s1))
    × (dup2 4 5 s1 ≡ ok (count 0, s2))
    × ((close_after 4 s2).fdtable 5 ≡ some 1)
    × ((close_after 4 s2).deleted 1 ≡ true)
close_after-dup2_example =
    close_after-dup2 open_two 4 5 1 refl refl refl (omega arith) (omega arith) (omega arith)
