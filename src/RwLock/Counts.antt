-- ===== src/RwLock/Counts.antt =====
-- What the byte of the lock counts, and that a step of one task keeps it right.
use cs_161_s21_problem_sets.Prelude.{
  ℕ, zero, suc, ◌+◌, ◌≤◌, ◌≡◌, ◌≢◌, refl, ap, ◌⊎◌, Bool, true, false, some, List, [], ◌∷◌, ok,
  panic, arith, get_elem?, set, replicate,
}
use cs_161_s21_problem_sets.RwLock.State.{
  Place, idle, locking_read, reading, unlocking_read, locking_write, writing, unlocking_write, Move,
  lock_read, lock_write, attempt, fail_spuriously, unlock, try_read, try_unlock_read, try_write,
  act,
}

-- Does a task at this place have the lock for reading, and for writing?
abbrev pub reads : Place → ℕ
reads idle = 0
reads (locking_read v) = 0
reads reading = 1
reads (unlocking_read v) = 1
reads locking_write = 0
reads writing = 0
reads unlocking_write = 0

abbrev pub writes : Place → ℕ
writes idle = 0
writes (locking_read v) = 0
writes reading = 0
writes (unlocking_read v) = 0
writes locking_write = 0
writes writing = 1
writes unlocking_write = 1

-- How many tasks do, by a weight of places.
unfoldable pub total : (Place → ℕ) → List Place → ℕ
total f [] = 0
total f (p ∷ ps) = f p + total f ps

pub total-replicate : (f : Place → ℕ) (n : ℕ) → f idle ≡ 0 → total f (replicate n idle) ≡ 0
unfolding total
total-replicate f zero e = refl
total-replicate f (suc n) e = omega (arith, total-replicate f n e)

-- The places but one.
unfoldable pub others : (Place → ℕ) → List Place → ℕ → ℕ
unfolding total
others f [] i = 0
others f (p ∷ ps) zero = total f ps
others f (p ∷ ps) (suc i) = f p + others f ps i

pub total-others :
    (f : Place → ℕ) (ps : List Place) (i : ℕ) (p : Place)
    → get_elem? ps i ≡ some p
    → total f ps ≡ f p + others f ps i
unfolding total others
total-others f [] i p e = cc
total-others f (q ∷ ps) zero p e = ground arith
total-others f (q ∷ ps) (suc i) p e = omega (arith, total-others f ps i p e)

pub total-set :
    (f : Place → ℕ) (ps : List Place) (i : ℕ) (p q : Place)
    → get_elem? ps i ≡ some p
    → total f (set ps i q) ≡ f q + others f ps i
unfolding total others
total-set f [] i p q e = cc
total-set f (x ∷ ps) zero p q e = refl
total-set f (x ∷ ps) (suc i) p q e = omega (arith, total-set f ps i p q e)

pub total-pair :
    (f : Place → ℕ) (ps : List Place) (i j : ℕ) (p q : Place)
    → i ≢ j
    → get_elem? ps i ≡ some p
    → get_elem? ps j ≡ some q
    → f p + f q ≤ total f ps
unfolding total
total-pair f [] i j p q ne e d = cc
total-pair f (x ∷ ps) zero zero p q ne e d = absurd (ne refl)
total-pair f (x ∷ ps) zero (suc j) p q ne e d = ground (arith, total-others f ps j q d)
total-pair f (x ∷ ps) (suc i) zero p q ne e d = ground (arith, total-others f ps i p e)
total-pair f (x ∷ ps) (suc i) (suc j) p q ne e d =
    omega (arith, total-pair f ps i j p q (λ h. ne (ap suc h)) e d)

-- What the byte says of `r` readers and `w` writers: one writer and nobody else, or as many readers as
-- it counts.
abbrev pub Counts : ℕ → ℕ → ℕ → Type 0
Counts mlock r w = ((mlock ≡ 255) × (r ≡ 0) × (w ≡ 1)) ⊎ ((mlock ≡ r) × (mlock ≤ 254) × (w ≡ 0))

abbrev After : ℕ → ℕ → ℕ × Place → Type 0
After r w (m, p) = Counts m (reads p + r) (writes p + w)

try_read-Counts : (m r w v : ℕ) → Counts m (0 + r) (0 + w) → After r w (try_read m v)
unfolding try_read
try_read-Counts m r w v inv = ground arith

try_unlock_read-Counts : (m r w v : ℕ) → Counts m (1 + r) (0 + w) → After r w (try_unlock_read m v)
unfolding try_unlock_read
try_unlock_read-Counts m r w v inv = ground arith

try_write-Counts : (m r w : ℕ) → Counts m (0 + r) (0 + w) → After r w (try_write m)
unfolding try_write
try_write-Counts m r w inv = ground arith

-- Nothing but a call of `unlock` by a task that has no lock and waits for none is out of place.
abbrev pub allowed : Place → Move → Bool
allowed idle unlock = false
allowed idle lock_read = true
allowed idle lock_write = true
allowed idle attempt = true
allowed idle fail_spuriously = true
allowed (locking_read v) m = true
allowed reading m = true
allowed (unlocking_read v) m = true
allowed locking_write m = true
allowed writing m = true
allowed unlocking_write m = true

-- A step of one task among `r` readers and `w` writers: no assertion fails, and the byte stays right.
pub act-Sound :
    (m r w : ℕ) (p : Place) (move : Move)
    → allowed p move ≡ true
    → Counts m (reads p + r) (writes p + w)
    → (m' : ℕ) × (p' : Place) × (act false m p move ≡ ok (m', p'))
      × Counts m' (reads p' + r) (writes p' + w)
unfolding act
act-Sound m r w idle lock_read a inv = (_, _, refl, inv)
act-Sound m r w idle lock_write a inv = (_, _, refl, inv)
act-Sound m r w idle attempt a inv = (_, _, refl, inv)
act-Sound m r w idle fail_spuriously a inv = (_, _, refl, inv)
act-Sound m r w idle unlock a inv = absurd (ground arith)
act-Sound m r w (locking_read v) lock_read a inv = (_, _, refl, inv)
act-Sound m r w (locking_read v) lock_write a inv = (_, _, refl, inv)
act-Sound m r w (locking_read v) attempt a inv =
    ((try_read m v).0, (try_read m v).1, refl, try_read-Counts m r w v inv)
act-Sound m r w (locking_read v) fail_spuriously a inv = (_, _, refl, inv)
act-Sound m r w (locking_read v) unlock a inv = (_, _, refl, inv)
act-Sound m r w reading lock_read a inv = (_, _, refl, inv)
act-Sound m r w reading lock_write a inv = (_, _, refl, inv)
act-Sound m r w reading attempt a inv = (_, _, refl, inv)
act-Sound m r w reading fail_spuriously a inv = (_, _, refl, inv)
act-Sound m r w reading unlock a inv = (m, unlocking_read m, ground arith, inv)
act-Sound m r w (unlocking_read v) lock_read a inv = (_, _, refl, inv)
act-Sound m r w (unlocking_read v) lock_write a inv = (_, _, refl, inv)
act-Sound m r w (unlocking_read v) attempt a inv =
    ((try_unlock_read m v).0, (try_unlock_read m v).1, refl, try_unlock_read-Counts m r w v inv)
act-Sound m r w (unlocking_read v) fail_spuriously a inv = (_, _, refl, inv)
act-Sound m r w (unlocking_read v) unlock a inv = (_, _, refl, inv)
act-Sound m r w locking_write lock_read a inv = (_, _, refl, inv)
act-Sound m r w locking_write lock_write a inv = (_, _, refl, inv)
act-Sound m r w locking_write attempt a inv =
    ((try_write m).0, (try_write m).1, refl, try_write-Counts m r w inv)
act-Sound m r w locking_write fail_spuriously a inv = (_, _, refl, inv)
act-Sound m r w locking_write unlock a inv = (_, _, refl, inv)
act-Sound m r w writing lock_read a inv = (_, _, refl, inv)
act-Sound m r w writing lock_write a inv = (_, _, refl, inv)
act-Sound m r w writing attempt a inv = (_, _, refl, inv)
act-Sound m r w writing fail_spuriously a inv = (_, _, refl, inv)
act-Sound m r w writing unlock a inv = (m, unlocking_write, ground arith, inv)
act-Sound m r w unlocking_write lock_read a inv = (_, _, refl, inv)
act-Sound m r w unlocking_write lock_write a inv = (_, _, refl, inv)
act-Sound m r w unlocking_write attempt a inv = (0, idle, refl, ground arith)
act-Sound m r w unlocking_write fail_spuriously a inv = (_, _, refl, inv)
act-Sound m r w unlocking_write unlock a inv = (_, _, refl, inv)

pub act-panics :
    (m : ℕ) (p : Place) (move : Move) → allowed p move ≡ false → act false m p move ≡ panic
unfolding act
act-panics m idle unlock a = refl
act-panics m idle lock_read a = absurd (ground arith)
act-panics m idle lock_write a = absurd (ground arith)
act-panics m idle attempt a = absurd (ground arith)
act-panics m idle fail_spuriously a = absurd (ground arith)
act-panics m (locking_read v) move a = absurd (ground arith)
act-panics m reading move a = absurd (ground arith)
act-panics m (unlocking_read v) move a = absurd (ground arith)
act-panics m locking_write move a = absurd (ground arith)
act-panics m writing move a = absurd (ground arith)
act-panics m unlocking_write move a = absurd (ground arith)
