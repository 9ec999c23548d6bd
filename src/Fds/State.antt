-- ===== src/Fds/State.antt =====
-- The table of descriptors, the vnodes behind it, and `syscall_dup2` and `syscall_close`. A vnode is a
-- number. A descriptor is the bit pattern of an int: the negative ones are above MAX_FD.
use cs_161_s21_problem_sets.Prelude.{
  ℕ, ◌+◌, ◌-◌, Bool, true, ◌&&◌, ◌||◌, not, Option, none, some, Outcome, ok, assert, ◌>>=◌, ◌>>◌,
  ltb, leb, ◌==◌, if◌then◌else◌,
}
use cs_161_s21_problem_sets.Errno.{IoResult, count, fail, badf}

abbrev pub max_fd : ℕ
max_fd = 8

-- `thgrp_->fdtable_`, and of every vnode `refcount_`, `active_`, and whether it was deleted.
pub record Table : Type 0 where
  pub fdtable : ℕ → Option ℕ
  pub refcount : ℕ → ℕ
  pub active : ℕ → ℕ
  pub deleted : ℕ → Bool

abbrev pub put {ℓ} : {A : Type ℓ} → ℕ → A → (ℕ → A) → ℕ → A
put i v f k = if k == i then v else f k

-- The call of `vnode::close`.
unfoldable pub drop_ref : ℕ → Table → Outcome Table
drop_ref v s = do
  assert (ltb 0 (s.refcount v))
  ok (record s { refcount = put v (s.refcount v - 1) s.refcount })

-- `delete` of a vnode if nothing refers to it.
unfoldable pub delete_unused : ℕ → Table → Table
delete_unused v s = if s.refcount v == 0 then record s { deleted = put v true s.deleted } else s

-- The end of `dup2`.
unfoldable pub refer : ℕ → ℕ → Table → Table
refer fd v s = record s {
  fdtable = put fd (some v) s.fdtable;
  refcount = put v (s.refcount v + 1) s.refcount;
}

-- `dup2` of an open descriptor of the vnode `v` to another one.
unfoldable pub replace : ℕ → ℕ → Table → Outcome Table
replace newfd v s = elim (s.fdtable newfd) [
  | none ↦ ok (refer newfd v s)
  | some old ↦ (drop_ref old s >>= λ s'. ok (refer newfd v (delete_unused old s')))
]

unfoldable pub dup2 : ℕ → ℕ → Table → Outcome (IoResult × Table)
dup2 oldfd newfd s =
    if leb max_fd oldfd || leb max_fd newfd then ok (fail badf, s) else (elim (s.fdtable oldfd) [
      | none ↦ ok (fail badf, s)
      | some v ↦
          if oldfd == newfd
          then ok (count newfd, s)
          else (replace newfd v s >>= λ s'. ok (count 0, s'))
    ])

-- `close` up to where it may sleep, because the vnode has no more references but is in use.
pub data CloseEntry : Type 0 where
  returns : IoResult → Table → CloseEntry
  sleeps : Table → CloseEntry

-- The entry is cleared, and the vnode that it had deleted if nothing refers to it.
unfoldable pub clear : ℕ → ℕ → Table → Table
clear fd v s = delete_unused v (record s { fdtable = put fd none s.fdtable })

unfoldable pub close_entry : ℕ → Table → Outcome CloseEntry
close_entry fd s = if leb max_fd fd then ok (returns (fail badf) s) else (elim (s.fdtable fd) [
  | none ↦ ok (returns (fail badf) s)
  | some v ↦
      (drop_ref v s >>= λ s'. ok (
        if s'.refcount v == 0 && not (s'.active v == 0)
        then sleeps s'
        else returns (count 0) (clear fd v s')))
])

-- `close` after its sleep: the vnode that the entry has now is deleted. The condition of the sleep has
-- just read that vnode, so that the entry is not null; if it were, there would be nothing to delete.
unfoldable pub close_after : ℕ → Table → Table
close_after fd s =
    let s' = record s { fdtable = put fd none s.fdtable } in
    elim (s.fdtable fd) [ none ↦ s' | some v ↦ record s' { deleted = put v true s'.deleted } ]
