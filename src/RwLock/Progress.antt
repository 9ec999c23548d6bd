-- ===== src/RwLock/Progress.antt =====
-- A task that waits for the lock gets it when the others give theirs back.
use cs_161_s21_problem_sets.Prelude.{
  ℕ, ◌+◌, ◌≡◌, ◌⊎◌, false, some, List, [], ◌∷◌, ok, get_elem?, set,
}
use cs_161_s21_problem_sets.RwLock.State.{Place, idle, Move, attempt, unlock, Lock, run}
use cs_161_s21_problem_sets.RwLock.Counts.{reads, writes}
use cs_161_s21_problem_sets.RwLock.Exclusion.{IsValid}

abbrev held : Place → ℕ
held p = reads p + writes p

-- The moves that only give locks back, or go on with what is under way.
abbrev pub Releases : List (ℕ × Move) → Type 0
Releases [] = Unit
Releases ((i, m) ∷ ms) = ((m ≡ unlock) ⊎ (m ≡ attempt)) × Releases ms

-- A run of moves that give a lock back.
record Run (s s' : Lock) : Type 0 where
  moves : List (ℕ × Move)
  runs : run false s moves ≡ ok s'
  valid : IsValid s'
  releases : Releases moves

Freed : Lock → ℕ → Type 0
Freed s j = (m : ℕ) × Run s (record { mlock = m; tasks = set s.tasks j idle })

-- A state in which nobody has the lock and task `i` waits as before.
Drained : Lock → ℕ → Place → Type 0
Drained s i waits = (s' : Lock) × Run s s' × (s'.mlock ≡ 0) × (get_elem? s'.tasks i ≡ some waits)
