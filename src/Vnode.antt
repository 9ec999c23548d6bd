-- ===== src/Vnode.antt =====
-- What all vnodes share (k-vfs.cc): the mode, the count of references, and the behaviour that a kind of
-- vnode may replace.
use cs_161_s21_problem_sets.Prelude.{
  ℕ, ◌-◌, ◌/◌, ◌%◌, Bool, ◌&&◌, Outcome, ok, assert, ◌>>◌, ltb, leb, ◌==◌, if◌then◌else◌,
}
use cs_161_s21_problem_sets.Errno.{IoResult, count, fail, badf, spipe, tpipe}

pub record Vnode : Type 0 where
  pub mode : ℕ
  pub refcount : ℕ

-- The constructor.
unfoldable pub new_vnode : ℕ → Outcome Vnode
new_vnode mode = do assert (leb 1 mode && leb mode 3); ok (record { mode = mode; refcount = 1 })

-- `mode_ & OF_READ` and `mode_ & OF_WRITE`
unfoldable pub readable : Vnode → Bool
readable v = v.mode % 2 == 1

unfoldable pub writeable : Vnode → Bool
writeable v = v.mode / 2 % 2 == 1

-- `vnode::close`, and that of the keyboard, disk and special vnodes.
unfoldable pub close_vnode : Vnode → Outcome (IoResult × Vnode)
close_vnode v = do
  assert (ltb 0 v.refcount)
  ok (count (v.refcount - 1), record v { refcount = v.refcount - 1 })

-- `memfile_vnode::close`
unfoldable pub close_memfile : Vnode → IoResult × Vnode
close_memfile v =
    if v.refcount == 0
    then (fail badf, v)
    else (count (v.refcount - 1), record v { refcount = v.refcount - 1 })

abbrev pub default_lseek : IoResult
default_lseek = fail spipe

abbrev pub default_ftruncate : IoResult
default_ftruncate = fail tpipe
