-- ===== src/RwLock/State.antt =====
-- The lock as a machine: the byte `mlock`, shared, and for every task the place that it has reached in
-- `lock_read`, `unlock_read`, `lock_write` or `unlock_write`, with its local `v`. One step is one atomic
-- access of one task; the order of the steps is arbitrary.
use cs_161_s21_problem_sets.Prelude.{
  ℕ, ◌+◌, ◌%◌, Bool, ◌&&◌, not, none, some, List, [], ◌∷◌, Outcome, ok, panic, assert, ◌>>=◌, ◌>>◌,
  leb, ◌==◌, if◌then◌else◌, get_elem?, set, replicate,
}

pub data Place : Type 0 where
  idle : Place
  locking_read : ℕ → Place
  reading : Place
  unlocking_read : ℕ → Place
  locking_write : Place
  writing : Place
  unlocking_write : Place

-- What a task does next: call one of the lock functions, try the compare-and-exchange that it is at,
-- or see it fail for no reason, as `compare_exchange_weak` may; or make the store of `unlock_write` that
-- it is at, which is an `attempt` too. `unlock` is the call of `unlock_read` or `unlock_write`.
pub data Move : Type 0 where
  lock_read lock_write attempt fail_spuriously unlock : Move

-- `mlock_t(-1)` and `mlock_t(-2)`
abbrev pub write_locked : ℕ
write_locked = 255

abbrev pub has_write_lock : ℕ → Bool
has_write_lock mlock = mlock == write_locked

-- One round of the loop of `lock_read`.
unfoldable pub try_read : ℕ → ℕ → ℕ × Place
try_read mlock v =
    if leb 254 v
    then (mlock, locking_read mlock)
    else if mlock == v
    then ((v + 1) % 256, reading)
    else (mlock, locking_read mlock)

-- One round of the loop of `unlock_read`.
unfoldable pub try_unlock_read : ℕ → ℕ → ℕ × Place
try_unlock_read mlock v =
    if mlock == v then ((v + 255) % 256, idle) else (mlock, unlocking_read mlock)

-- One round of the loop of `lock_write`.
unfoldable pub try_write : ℕ → ℕ × Place
try_write mlock = if mlock == 0 then (write_locked, writing) else (mlock, locking_write)

-- A step of a task: the byte and its place afterwards. `checks` is true of the lock of an inode, whose
-- `lock_write` asserts that the lock is not write-locked; `rwlock` has that assertion commented out.
-- A call of `unlock` is of the lock that the task has. A task that has none must not make it: the
-- assertion of `unlock_read` or `unlock_write` stops it where the byte shows the mistake, and a panic
-- stands here for every such call. A task that is inside one of the functions, or has the lock, makes
-- no other call, and the moves that it cannot make at its place change nothing.
unfoldable pub act : Bool → ℕ → Place → Move → Outcome (ℕ × Place)
unfolding try_read try_unlock_read try_write
act checks mlock idle lock_read = ok (mlock, locking_read mlock)
act checks mlock idle lock_write = do
  assert (not (checks && has_write_lock mlock))
  ok (mlock, locking_write)
act checks mlock idle attempt = ok (mlock, idle)
act checks mlock idle fail_spuriously = ok (mlock, idle)
act checks mlock idle unlock = panic
act checks mlock (locking_read v) attempt = ok (try_read mlock v)
act checks mlock (locking_read v) fail_spuriously = ok (mlock, locking_read mlock)
act checks mlock (locking_read v) lock_read = ok (mlock, locking_read v)
act checks mlock (locking_read v) lock_write = ok (mlock, locking_read v)
act checks mlock (locking_read v) unlock = ok (mlock, locking_read v)
act checks mlock reading unlock = do
  assert (not (mlock == 0) && not (mlock == write_locked))
  ok (mlock, unlocking_read mlock)
act checks mlock reading lock_read = ok (mlock, reading)
act checks mlock reading lock_write = ok (mlock, reading)
act checks mlock reading attempt = ok (mlock, reading)
act checks mlock reading fail_spuriously = ok (mlock, reading)
act checks mlock (unlocking_read v) attempt = ok (try_unlock_read mlock v)
act checks mlock (unlocking_read v) fail_spuriously = ok (mlock, unlocking_read mlock)
act checks mlock (unlocking_read v) lock_read = ok (mlock, unlocking_read v)
act checks mlock (unlocking_read v) lock_write = ok (mlock, unlocking_read v)
act checks mlock (unlocking_read v) unlock = ok (mlock, unlocking_read v)
act checks mlock locking_write attempt = ok (try_write mlock)
act checks mlock locking_write fail_spuriously = ok (mlock, locking_write)
act checks mlock locking_write lock_read = ok (mlock, locking_write)
act checks mlock locking_write lock_write = ok (mlock, locking_write)
act checks mlock locking_write unlock = ok (mlock, locking_write)
act checks mlock writing unlock = do assert (has_write_lock mlock); ok (mlock, unlocking_write)
act checks mlock writing lock_read = ok (mlock, writing)
act checks mlock writing lock_write = ok (mlock, writing)
act checks mlock writing attempt = ok (mlock, writing)
act checks mlock writing fail_spuriously = ok (mlock, writing)
act checks mlock unlocking_write attempt = ok (0, idle)
act checks mlock unlocking_write fail_spuriously = ok (mlock, unlocking_write)
act checks mlock unlocking_write lock_read = ok (mlock, unlocking_write)
act checks mlock unlocking_write lock_write = ok (mlock, unlocking_write)
act checks mlock unlocking_write unlock = ok (mlock, unlocking_write)

pub record Lock : Type 0 where
  pub mlock : ℕ
  pub tasks : List Place

unfoldable pub init : ℕ → Lock
init n = record { mlock = 0; tasks = replicate n idle }

-- A step of task `i`, if there is one.
unfoldable pub step : Bool → Lock → ℕ × Move → Outcome Lock
unfolding act
step checks s (i, move) = elim (get_elem? s.tasks i) [
  | none ↦ ok s
  | some place ↦ do
    (mlock', place') ← act checks s.mlock place move
    ok (record { mlock = mlock'; tasks = set s.tasks i place' })
]

unfoldable pub run : Bool → Lock → List (ℕ × Move) → Outcome Lock
unfolding step
run checks s [] = ok s
run checks s (m ∷ ms) = do s' ← step checks s m; run checks s' ms
